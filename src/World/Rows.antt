-- ===== src/World/Rows.antt =====
-- The rows of the tables of db/schema.sql, without their timestamps and the sizes of files.
use satfarm.Prelude.{ℕ, Bool, true, false, List, Option, none, some, ◌==◌, if◌then◌else◌}
use satfarm.Prelude.Int.{ℤ}
use satfarm.Text.{Text}
use satfarm.World.Tables.{Table}

-- Files are named by numbers: the program compares and passes on their paths, and no more.
abbrev pub FilePath : Type 0
FilePath = ℕ

pub data Status : Type 0 where
  pending running completed failed : Status

abbrev pub is_completed : Status → Bool
is_completed completed = true
is_completed _ = false

pub record UserRow : Type 0 where
  pub username : Text
  pub email : Text
  pub password_hash : Text
  pub balance_satc : ℤ

-- A job with the file that it refers to: a row of `jobs` and its row of `cnf_files`.
pub record JobRow : Type 0 where
  pub user_id : ℕ
  pub original_name : Text
  pub cnf_path : FilePath
  pub max_workers : ℤ
  pub status : Status
  -- `started_at IS NOT NULL`
  pub started : Bool

pub record ShardRow : Type 0 where
  pub job_id : ℕ
  pub cube_literals : List ℤ
  pub status : Status
  pub worker_name : Text
  pub attempt_count : ℕ

-- A row of `shard_results`; its status is 'verified' in every row that the program writes.
pub record ShardResult : Type 0 where
  pub is_sat : Bool
  pub assignment : Option (List ℤ)
  pub drat_file_id : Option ℤ

pub record JobOutcome : Type 0 where
  pub is_sat : Bool
  pub assignment : Option (List ℤ)

-- The column `meta`: what the program marshals into it.
pub data Meta : Type 0 where
  no_meta : Meta
  penalty : (job_id shard_id : ℕ) → Text → Meta
  reward : (job_id shard_id worker_user client_user num_vars num_clauses : ℕ) → Meta
  upload : (filename : Text) (size_bytes : ℕ) → Meta

pub record Transaction : Type 0 where
  pub user_id : ℕ
  pub amount_satc : ℤ
  pub reason : Text
  pub details : Meta

pub record DratFile : Type 0 where
  pub user_id : ℕ
  pub original_name : Text
  pub storage_path : FilePath

pub record Token : Type 0 where
  pub user_id : ℕ
  pub label : Text
  pub secret : Text
  pub revoked : Bool

-- `shard_results` and `job_results` have a unique shard and job, which
-- are their keys here.
pub record Db : Type 0 where
  pub users : Table UserRow
  pub transactions : List Transaction
  pub jobs : Table JobRow
  pub shards : Table ShardRow
  pub shard_results : ℕ → Option ShardResult
  pub job_results : ℕ → Option JobOutcome
  pub drat_files : Table DratFile
  pub tokens : Table Token

abbrev pub upsert {ℓ} : {R : Type ℓ} → ℕ → R → (ℕ → Option R) → ℕ → Option R
upsert k r t j = if j == k then some r else t j

-- `ON CONFLICT DO NOTHING`
abbrev pub insert_new {ℓ} : {R : Type ℓ} → ℕ → R → (ℕ → Option R) → ℕ → Option R
insert_new k r t = elim (t k) [ none ↦ upsert k r t | some old ↦ t ]
