-- ===== src/Lib.antt =====
-- SATFARM distributes SAT problems: clients upload CNF files, the server splits each job into cubes,
-- hands the shards to workers over gRPC, checks what these send back (a model, or a DRAT proof), and
-- moves satoshi between the balances of clients and workers. This library models the server, with its
-- web pages and its worker service, and the program that a worker runs.
--
-- The parts, and where they are modelled:
--
--   internal/sat/cube.go           Sat/Cube: readNumVars is read_num_vars, chooseDepthCeil is
--                                  choose_depth_ceil, GenerateCubesForMaxWorkersCeil is
--                                  generate_cubes, with cubes_for behind the reading of the file
--   internal/sat/dimacs.go         Sat/Dimacs: validate_dimacs, prepare_cnf, read_dimacs_header
--   internal/sat/cubeapply.go      Sat/Apply: apply_cube
--   internal/sat/verify_sat.go     Sat/Verify: verify_sat_assignment
--   internal/sat/kissat.go         Sat/Kissat: parse_kissat_output
--   db/schema.sql                  World/Rows, World/Tables: rows, and tables with a serial key
--   internal/grpc/registry.go      Registry: new_id, set_conn, get_conn, delete_conn, ids
--   internal/grpc/balance.go       Ledger, Ledger/Header: change_user_balance,
--                                  transfer_user_balance, penalize_worker, reward_worker_for_job
--   internal/grpc/scheduler.go     Scheduler/Assign, Scheduler/Commit, Scheduler/Results
--   internal/grpc/worker_service.go  Service: connect, receive, disconnect, run_task; Service/Steps
--                                  has the events of the server as a relation on worlds
--   internal/grpc/auth.go          Service/Auth: validate_token, authenticate_ctx, open_stream
--   internal/web/session.go        Web/Session: set_session, current_user_id, clear_session
--   internal/web/handlers_auth.go  Web/Auth: handle_post_signup, handle_post_login, handle_logout
--   internal/web/handlers_tokens.go  Web/Tokens: handle_create_token, handle_revoke_token
--   internal/web/handlers_wallet.go  Web/Wallet: handle_deposit, handle_withdraw,
--                                  handle_transactions; changeUserBalance, which balance.go has
--                                  too, is in Ledger
--   internal/web/handlers_jobs.go  Web/Jobs: handle_create_job; Ledger: upload_cost_satc
--   internal/web/handlers_worker.go  Web/Bearer, Web/Worker: authenticate_worker_from_bearer,
--                                  handle_worker_drat_upload, handle_worker_cnf_download
--   internal/web/handlers_job_json.go, handlers_viewjob.go  Web/Detail: handle_job_detail_json,
--                                  handle_job_detail
--   internal/web/handlers_dashboard.go  Web/Dashboard: handle_dashboard
--   internal/web/router.go         Web/Router: serve; every route of it is an event of
--                                  Service/Steps
--   cmd/worker/main.go             Client: handle_assign_job; Client/Jobs: receive_message,
--                                  start_job, cancel_running, and the steps of a worker
--
-- A text is a list of Unicode code points, and a file is a text: what the program reads is taken to
-- be valid UTF-8. Text holds what the program uses of Go's strings, strconv and bufio.Scanner:
-- trim_space, fields, parse_int (Atoi, with the range of int64), itoa, scan_lines with the limit on
-- the length of a line. Sat/Cnf says what a formula means, and Sat/Meaning which formula a file
-- stands for, line by line; both are independent of the code that is checked against them.
--
-- A stateful operation is a function from a world to a result and a world (World/Exec). The world
-- (World/State) holds the database, the registry, the scheduler's fields, the files, what has been
-- sent, the calls that were started with `go`, the sessions, and `faults`: for each coming call of
-- the database, of a stream or of the file system, whether it fails. An error leaves what was changed
-- before it, but for a transaction, whose changes of the database are undone; a commit that fails is
-- one that has not taken effect.
--
-- World/Keeps has the rules for a handler that keeps an invariant of the database whether it
-- succeeds or fails, and Sound uses them: the invariant ties the tables of results to the formulas of
-- the jobs' files, and the balances to the transactions. World/Gives and Web/Answers have the rules
-- for what a handler has done where it succeeds. An upload writes a file under a new name and no
-- other file changes. Of drat-trim it is taken that a proof that it accepts is one of an
-- unsatisfiable formula, and only for a file with one clause on a line (Sat/Strict): drat-trim reads
-- a file by words, and finds other clauses than the program where a line holds several.
--
-- A handler of the web server takes a request, which is what net/http and chi hand over, and gives a
-- reply: a refusal with its status and text, a redirection, or a body. What it draws from outside
-- (random bytes, bcrypt's salt, the name of a new file, which holds the time) is an argument. In
-- the worker, what is downloaded, what the solver prints, what an upload answers, and when a job is
-- cancelled, are arguments.
--
-- Bounds and fuel: the loop of chooseDepthCeil runs on fuel of the cap and one, and each round adds
-- one to a depth that the cap bounds. `shards` is a 64-bit pattern; literals of a cube and of an
-- assignment are cut down to 32 bits; rewards and prices are computed modulo 2 ^ 64. Identifiers
-- are natural numbers, which the program compares only; one that a request names is an integer. All
-- other loops are over lists, or over the keys of a table.
--
-- Not modelled: drat-trim, kissat and bcrypt, which are parameters; the interleaving of goroutines
-- inside one operation; a commit that takes effect though its answer is an error; what a copy that
-- fails has written to a file, which is left as it was; timestamps, logs and sizes of files; the order
-- in which Go goes through a map, which is fixed here, and the order of rows by time, which is that of
-- their insertion; the gaps that a rollback leaves in the keys of a table; HTML pages, static files
-- and middleware; the set-up of the programs, of TLS and of the listeners; cmd/testworker, which makes
-- up work for tests; the text that the database makes of an array, which is the list here. A path of
-- a file is a number. CancelJob carries its job as a number, where the program prints it.
pub mod Prelude
pub mod Text
pub mod Sat
pub mod World
pub mod Ledger
pub mod Registry
pub mod Scheduler
pub mod Service
pub mod Web
pub mod Client
pub mod Sound
