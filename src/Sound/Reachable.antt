-- ===== src/Sound/Reachable.antt =====
-- Every world that the servers reach.
use satfarm.Prelude.{ℕ, ◌≡◌, refl, true, Option, none, some, and_true, arith}
use satfarm.Prelude.Int.{pos, leb_ℤ}
use satfarm.Text.{Text}
use satfarm.World.{no_rows, find, UserRow, ShardRow, FilePath, World}
use satfarm.World.Keeps.{Holds, Ends-Holds}
use satfarm.Ledger.Books.{HasBooks, total, no_rows-HasBooks}
use satfarm.Scheduler.{DratTrim}
use satfarm.Web.Auth.{Bcrypt}
use satfarm.Service.Steps.{
  empty_db, new_server, Step, connected, received, disconnected, ran, served, broken, Reach, here,
  after,
}
use satfarm.Sound.{IsSound, AreTrue}
use satfarm.Sound.Proofs.{DratSound}
use satfarm.Sound.Stays.{Stays-IsSound}
use satfarm.Sound.Shown.{Leaves-serve}
use satfarm.Sound.Tasks.{Safe-run_task, Safe-open_stream, Safe-disconnect, Safe-receive}

no_row : (k : ℕ) {R : Type 0} → find {R = R} k no_rows ≡ none
unfolding find
no_row k = ground arith

empty_db-IsSound : {promise : Type 0} (f : FilePath → Option Text) → IsSound promise f empty_db
empty_db-IsSound f = record {
  unsat_shard = λ k j c r e q z. absurd (cc);
  has_result = λ k s e c. let n : find {R = ShardRow} k no_rows ≡ none = no_row k in absurd (cc);
  covers = λ k j c v e. let e' = rw (no_row k) at e in absurd (cc);
  cubes = λ k j c e. let e' = rw (no_row k) at e in absurd (cc);
  unsat_outcome = λ j o e z. absurd (cc);
  sat_outcome = λ j o e z. absurd (cc);
  unused = λ k le. refl;
  books = no_rows-HasBooks;
}

-- The invariant, where the proof checker `d` may keep its promise or not.
abbrev Right : DratTrim → World → Type 0
Right d w = IsSound (DratSound d) w.files w.db

same : (d : DratTrim) (v : World) → Right d v → Holds v.files (IsSound (DratSound d) v.files) v
same d v s = record { files = refl; db_inv = s }

kept : (d : DratTrim) (v w : World) → Holds v.files (IsSound (DratSound d) v.files) w → Right d w
kept d v w h = let s = h.db_inv in rw (h.files) s

-- A step from a world whose tables are right for its files leads to another.
Step-IsSound :
    (drat_trim : DratTrim) (bcrypt : Bcrypt) {v w : World}
    → Step drat_trim bcrypt v w
    → Right drat_trim v
    → Right drat_trim w
Step-IsSound d b (connected md v) s =
    kept d v _ (Ends-Holds (Safe-open_stream v.files md v (same d v s)))
Step-IsSound d b (received worker msg v) s =
    kept d v _ (Ends-Holds (Safe-receive v.files d (λ x. x) worker msg v (same d v s)))
Step-IsSound d b (disconnected worker v) s =
    kept d v _ (Ends-Holds (Safe-disconnect v.files worker v (same d v s)))
Step-IsSound d b (ran before rest t v e) s =
    kept d v _ (Ends-Holds (Safe-run_task v.files t _ (record { files = refl; db_inv = s })))
Step-IsSound d b (served route draws r v new) s =
    let l =
      Leaves-serve draws.path (DratSound d) v.files b route draws.salt draws.bytes r v
        (record { others = λ p o. refl; sound = s }) in
    Stays-IsSound draws.path (DratSound d) v.files _ new l.at
Step-IsSound d b (broken faults v) s = s

Reach-Right :
    (drat_trim : DratTrim) (bcrypt : Bcrypt) (files : FilePath → Option Text) (w : World)
    → Reach drat_trim bcrypt (new_server files) w
    → Right drat_trim w
Reach-Right drat_trim bcrypt files w here = empty_db-IsSound files
Reach-Right drat_trim bcrypt files w (after {v} r s) =
    Step-IsSound drat_trim bcrypt s (Reach-Right drat_trim bcrypt files v r)

-- A file has one clause on a line if its characters are ASCII and each line is blank, a comment, a
-- header, or the literals of a clause, below 2 ^ 31 and in plain decimal, with a zero behind them; a
-- job's file may have end marks too. If `drat-trim` accepts proofs of unsatisfiable formulas only,
-- for files with one clause on a line, then in every world that the servers reach from empty tables,
-- whatever workers send and whatever the web server is asked, in whatever order, and whatever calls
-- fail, as long as a new file has a new name, the results are true of the files: where the job's file
-- has one clause on a line, a shard recorded as unsatisfiable has no model in its cube, and a job
-- recorded as unsatisfiable has none at all; for any file, a job recorded as satisfiable has a model
-- that extends the recorded assignment; a completed shard has a result; and a job's shards cover all
-- valuations, with cubes of the first variables, at most 20.
pub Reach-IsSound :
    (drat_trim : DratTrim) (bcrypt : Bcrypt) (files : FilePath → Option Text) (w : World)
    → DratSound drat_trim
    → Reach drat_trim bcrypt (new_server files) w
    → AreTrue w.files w.db
Reach-IsSound drat_trim bcrypt files w ds r =
    let s = Reach-Right drat_trim bcrypt files w r in
    record {
      unsat_shard = λ k job cube x t e f z read plain.
          let (t', read', no_model) = s.unsat_shard k job cube x e f z in
          let one : t' ≡ t = cc in rw one at (no_model ds (rw one plain));
      unsat_outcome = λ job o t f z read plain.
          let (t', read', no_model) = s.unsat_outcome job o f z in
          let one : t' ≡ t = cc in rw one at (no_model ds (rw one plain));
      sat_outcome = s.sat_outcome;
      has_result = s.has_result;
      covers = s.covers;
      cubes = s.cubes;
    }

pub Reach-HasBooks :
    (drat_trim : DratTrim) (bcrypt : Bcrypt) (files : FilePath → Option Text) (w : World)
    → Reach drat_trim bcrypt (new_server files) w
    → HasBooks w.db.users w.db.transactions
Reach-HasBooks drat_trim bcrypt files w r = (Reach-Right drat_trim bcrypt files w r).books

-- In every world that the servers reach from empty tables, whatever calls fail at whatever point, the
-- balance of every user is the sum of the user's transactions, and is not negative.
pub Reach-IsBalanced :
    (drat_trim : DratTrim) (bcrypt : Bcrypt) (files : FilePath → Option Text) (w : World) (user : ℕ)
    (row : UserRow)
    → Reach drat_trim bcrypt (new_server files) w
    → find user w.db.users ≡ some row
    → (row.balance_satc ≡ total user w.db.transactions) × (leb_ℤ (pos 0) row.balance_satc ≡ true)
Reach-IsBalanced drat_trim bcrypt files w user row r e =
    let books = Reach-HasBooks drat_trim bcrypt files w r in
    (books.balanced user row e, (and_true _ _ (books.solvent user row e)).0)
