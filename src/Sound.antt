-- ===== src/Sound.antt =====
-- What the tables of results say about the formulas of the jobs, and that every operation of the
-- server keeps it so.
pub mod Changes
pub mod Records
pub mod Covered
pub mod Commits
pub mod Models
pub mod Assigning
pub mod Operations
pub mod Results
pub mod Reports
pub mod Proofs
pub mod Added
pub mod Enqueued
pub mod Submitted
pub mod Tasks
pub mod Stays
pub mod Inserted
pub mod Visits
pub mod Accounts
pub mod Created
pub mod Shown
pub mod Reachable
mod Tests
use satfarm.Prelude.{ℕ, ◌≤◌, ◌≡◌, true, false, List, ◌++◌, Option, none, some}
use satfarm.Prelude.Int.{ℤ}
use satfarm.Text.{Text}
use satfarm.World.{find, is_completed, JobRow, ShardRow, ShardResult, JobOutcome, Db, FilePath}
use satfarm.Ledger.Books.{HasBooks}
use satfarm.Sat.Strict.{IsOnePerLine}
use satfarm.Sat.Cnf.{Clause, Valuation, cnf_holds, cube_holds, units, Unsat}
use satfarm.Sat.Meaning.{formula}
use satfarm.Sat.Cube.Bounds.{IsCubeOf}
use satfarm.Sat.Verify.{assign_all, empty_assign}
use satfarm.Sat.Verify.Sound.{Extends}

abbrev pub text_of : (FilePath → Option Text) → Option JobRow → Option Text
text_of f none = none
text_of f (some j) = f j.cnf_path

-- The text of a job's file.
abbrev pub job_text : (FilePath → Option Text) → Db → ℕ → Option Text
job_text f db job = text_of f (find job db.jobs)

abbrev pub shape : Option ShardRow → Option (ℕ × List ℤ)
shape none = none
shape (some r) = some (r.job_id, r.cube_literals)

-- The job and the cube of a shard.
abbrev pub shape_of : ℕ → Db → Option (ℕ × List ℤ)
shape_of k db = shape (find k db.shards)

-- Where the promise holds, and the file has one clause on a line, the clauses have no model.
abbrev pub Refutes : Type 0 → Text → List Clause → Type 0
Refutes promise t cs = promise → IsOnePerLine t → Unsat cs

-- The job's formula has no model in the cube.
abbrev pub IsRefuted : Type 0 → (FilePath → Option Text) → Db → ℕ → List ℤ → Type 0
IsRefuted promise f db job cube =
    (t : Text) × (job_text f db job ≡ some t) × Refutes promise t (formula t ++ units cube)

-- A model of the job's formula extends the stored assignment.
abbrev pub IsModelled : (FilePath → Option Text) → Db → ℕ → Option (List ℤ) → Type 0
IsModelled f db job assignment =
    (t : Text) × (a : List ℤ) × (v : Valuation) × (job_text f db job ≡ some t)
    × (assignment ≡ some a)
    × (cnf_holds v (formula t) ≡ true)
    × Extends (assign_all a empty_assign) v

abbrev pub IsCube : List ℤ → Type 0
IsCube c = (d : ℕ) × (d ≤ 20) × IsCubeOf d c

-- With the files `f`, and what is promised of the proof checker: a shard that is recorded as unsatisfiable is refuted, a completed shard has a
-- result, the shards of a job cover all valuations, what is recorded as the outcome of a job is
-- true of its formula, and the balances are those of the transactions.
pub record IsSound (promise : Type 0) (f : FilePath → Option Text) (db : Db) : Type 0 where
  pub unsat_shard :
      (k job : ℕ) (cube : List ℤ) (r : ShardResult)
      → shape_of k db ≡ some (job, cube)
      → db.shard_results k ≡ some r
      → r.is_sat ≡ false
      → IsRefuted promise f db job cube
  pub has_result :
      (k : ℕ) (s : ShardRow)
      → find k db.shards ≡ some s
      → is_completed s.status ≡ true
      → (r : ShardResult) × (db.shard_results k ≡ some r)
  pub covers :
      (k job : ℕ) (cube : List ℤ) (v : Valuation)
      → shape_of k db ≡ some (job, cube)
      → (j : ℕ) × (c : List ℤ) × (shape_of j db ≡ some (job, c)) × (cube_holds v c ≡ true)
  pub cubes : (k job : ℕ) (cube : List ℤ) → shape_of k db ≡ some (job, cube) → IsCube cube
  pub unsat_outcome :
      (job : ℕ) (o : JobOutcome)
      → db.job_results job ≡ some o
      → o.is_sat ≡ false
      → (t : Text) × (job_text f db job ≡ some t) × Refutes promise t (formula t)
  pub sat_outcome :
      (job : ℕ) (o : JobOutcome)
      → db.job_results job ≡ some o
      → o.is_sat ≡ true
      → IsModelled f db job o.assignment
  pub unused : (k : ℕ) → db.shards.next ≤ k → db.shard_results k ≡ none
  pub books : HasBooks db.users db.transactions

-- The results in the tables are true of the files.
pub record AreTrue (f : FilePath → Option Text) (db : Db) : Type 0 where
  pub unsat_shard :
      (k job : ℕ) (cube : List ℤ) (r : ShardResult) (t : Text)
      → shape_of k db ≡ some (job, cube)
      → db.shard_results k ≡ some r
      → r.is_sat ≡ false
      → job_text f db job ≡ some t
      → IsOnePerLine t
      → Unsat (formula t ++ units cube)
  pub unsat_outcome :
      (job : ℕ) (o : JobOutcome) (t : Text)
      → db.job_results job ≡ some o
      → o.is_sat ≡ false
      → job_text f db job ≡ some t
      → IsOnePerLine t
      → Unsat (formula t)
  pub sat_outcome :
      (job : ℕ) (o : JobOutcome)
      → db.job_results job ≡ some o
      → o.is_sat ≡ true
      → IsModelled f db job o.assignment
  pub has_result :
      (k : ℕ) (s : ShardRow)
      → find k db.shards ≡ some s
      → is_completed s.status ≡ true
      → (r : ShardResult) × (db.shard_results k ≡ some r)
  pub covers :
      (k job : ℕ) (cube : List ℤ) (v : Valuation)
      → shape_of k db ≡ some (job, cube)
      → (j : ℕ) × (c : List ℤ) × (shape_of j db ≡ some (job, c)) × (cube_holds v c ≡ true)
  pub cubes : (k job : ℕ) (cube : List ℤ) → shape_of k db ≡ some (job, cube) → IsCube cube
