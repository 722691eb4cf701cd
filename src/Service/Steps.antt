-- ===== src/Service/Steps.antt =====
-- The server as a transition system: one event of a worker's stream, one request to the web server,
-- or one call that was started behind a handler at a time.
use satfarm.Prelude.{ℕ, Bool, false, List, [], ◌∷◌, ◌++◌, ◌≡◌, Option, none}
use satfarm.Text.{Text}
use satfarm.World.{no_rows, Db, FilePath, Task, World}
use satfarm.Registry.{new_registry}
use satfarm.Scheduler.{DratTrim}
use satfarm.Service.Auth.{open_stream}
use satfarm.Web.{Request}
use satfarm.Web.Auth.{Bcrypt}
use satfarm.Web.Router.{Route, Draws, serve}
use satfarm.Service.{WorkerMessage, receive, disconnect, run_task}

-- `NewSimpleScheduler` on a new database.
abbrev pub empty_db : Db
empty_db = record {
  users = no_rows;
  transactions = [];
  jobs = no_rows;
  shards = no_rows;
  shard_results = λ k. none;
  job_results = λ k. none;
  drat_files = no_rows;
  tokens = no_rows;
}

abbrev pub new_server : (FilePath → Option Text) → World
new_server files = record {
  db = empty_db;
  registry = new_registry;
  worker_shard = λ k. none;
  pending = [];
  completed_jobs = λ k. false;
  sessions = λ k. none;
  files = files;
  sent = [];
  started = [];
  faults = [];
}

pub data Step (drat_trim : DratTrim) (bcrypt : Bcrypt) : World → World → Type 0 where
  -- A worker's stream.
  connected :
      (metadata : Option (List Text)) (w : World)
      → Step drat_trim bcrypt w (open_stream metadata w).1
  received :
      (worker : ℕ) (msg : WorkerMessage) (w : World)
      → Step drat_trim bcrypt w (receive drat_trim worker msg w).1
  disconnected : (worker : ℕ) (w : World) → Step drat_trim bcrypt w (disconnect worker w).1
  -- A call that was started with `go` runs.
  ran :
      (before after : List Task) (t : Task) (w : World)
      → w.started ≡ before ++ t ∷ after
      → Step drat_trim bcrypt w (run_task t (record w { started = before ++ after })).1
  -- A request to the web server; the name that it makes for a file is new.
  served :
      (route : Route) (d : Draws) (r : Request) (w : World)
      → w.files d.path ≡ none
      → Step drat_trim bcrypt w (serve bcrypt route d r w).1
  -- Which calls will fail.
  broken : (faults : List Bool) (w : World) → Step drat_trim bcrypt w (record w { faults = faults })

pub data Reach (drat_trim : DratTrim) (bcrypt : Bcrypt) (start : World) : World → Type 0 where
  here : Reach drat_trim bcrypt start start
  after :
      {v w : World}
      → Reach drat_trim bcrypt start v
      → Step drat_trim bcrypt v w
      → Reach drat_trim bcrypt start w
