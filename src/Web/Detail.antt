-- ===== src/Web/Detail.antt =====
-- internal/web/handlers_job_json.go and internal/web/handlers_viewjob.go: a job, its result and its
-- shards, for its owner. Times, and the text of an array, are left out.
use satfarm.Prelude.{
  ℕ, ◌==◌, Bool, true, false, List, Option, none, some, is_some, map, if◌then◌else◌,
}
use satfarm.Prelude.Int.{ℤ, pos, leb_ℤ}
use satfarm.Text.{Text, codes, itoa, parse_int}
use satfarm.World.{
  find_id, select_where, key_of, Status, pending, running, completed, failed, JobRow, ShardRow,
  ShardResult, JobOutcome, Db,
}
use satfarm.World.Exec.{Exec, pure, gets, ◌>>=◌, query}
use satfarm.Web.{Request, Reply, redirected, refuse, answer, or_reply}
use satfarm.Web.Session.{signed_in_user}

abbrev pub status_text : Status → Text
status_text pending = codes "pending"
status_text running = codes "running"
status_text completed = codes "completed"
status_text failed = codes "failed"

pub record JobView : Type 0 where
  pub id : ℕ
  pub name : Text
  pub file_name : Text
  pub max_workers : ℤ
  pub status : Text

pub record JobResultView : Type 0 where
  pub has_result : Bool
  pub kind : Text
  pub assignment : Option (List ℤ)

pub record ShardView : Type 0 where
  pub id : ℕ
  pub cube : List ℤ
  pub shard_status : Text
  pub result_kind : Text
  pub result_status : Text
  pub assignment : Option (List ℤ)
  pub drat_file_label : Text

pub record JobDetail : Type 0 where
  pub job : JobView
  pub result : JobResultView
  pub shards : List ShardView

abbrev pub kind_text : Bool → Text
kind_text is_sat = if is_sat then codes "SAT" else codes "UNSAT"

abbrev pub job_view : ℕ → JobRow → JobView
job_view id j = record {
  id = id;
  name = j.original_name;
  file_name = j.original_name;
  max_workers = j.max_workers;
  status = status_text j.status;
}

abbrev pub result_view : Option JobOutcome → JobResultView
result_view none = record { has_result = false; kind = codes ""; assignment = none }
result_view (some o) = record {
  has_result = true;
  kind = kind_text o.is_sat;
  assignment = o.assignment;
}

abbrev pub drat_label : Option ℤ → Text
drat_label none = codes ""
drat_label (some id) = itoa id

-- A row of `job_shards LEFT JOIN shard_results`.
abbrev pub shard_view : ℕ × ShardRow → Option ShardResult → ShardView
shard_view (id, row) none = record {
  id = id;
  cube = row.cube_literals;
  shard_status = status_text row.status;
  result_kind = codes "";
  result_status = codes "";
  assignment = none;
  drat_file_label = codes "";
}
shard_view (id, row) (some r) = record {
  id = id;
  cube = row.cube_literals;
  shard_status = status_text row.status;
  result_kind = kind_text r.is_sat;
  result_status = codes "verified";
  assignment = r.assignment;
  drat_file_label = drat_label r.drat_file_id;
}

-- `WHERE j.id = $1 AND j.user_id = $2`
abbrev pub owned_by : ℕ → Option JobRow → Option JobRow
owned_by user none = none
owned_by user (some j) = if j.user_id == user then some j else none

unfoldable pub find_job_of : ℤ → ℕ → Db → Option JobRow
find_job_of id user db = owned_by user (find_id id db.jobs)

abbrev pub is_shard_of : ℕ → ℕ → ShardRow → Bool
is_shard_of job k r = r.job_id == job

unfoldable pub shards_of : ℕ → Db → List ShardView
shards_of job db =
    map (λ s. shard_view s (db.shard_results s.0)) (select_where (is_shard_of job) db.shards)

-- `strconv.ParseInt`, and `jobID <= 0`.
unfoldable pub positive_id : Text → Option ℤ
positive_id text = elim (parse_int text) [
  | none ↦ none
  | some n ↦ if leb_ℤ n (pos 0) then none else some n
]

-- The first query, with its left join.
abbrev pub with_outcome : Option JobOutcome → Option JobRow → Option (JobRow × Option JobOutcome)
with_outcome o none = none
with_outcome o (some j) = some (j, o)

abbrev pub job_with_result : ℤ → ℕ → Db → Option (JobRow × Option JobOutcome)
job_with_result id user db = with_outcome (db.job_results (key_of id)) (find_job_of id user db)

-- `HandleJobDetailJSON`
unfoldable pub handle_job_detail_json : Request → Exec (Reply JobDetail)
handle_job_detail_json r = do
  who ← gets (λ w. signed_in_user r.cookie w.sessions)
  elim who [
    | none ↦ refuse 401 (codes "unauthorized")
    | some user ↦ elim (positive_id (r.url_param (codes "jobID"))) [
      | none ↦ refuse 400 (codes "invalid job id")
      | some id ↦
          or_reply (query (job_with_result id user)) (λ e. refuse 500 (codes "internal error"))
            (λ row. elim row [
              | none ↦ refuse 404 (codes "job not found")
              | some found ↦
                  or_reply (query (shards_of (key_of id)))
                    (λ e. refuse 500 (codes "internal error"))
                    (λ shards. answer (record {
                      job = job_view (key_of id) found.0;
                      result = result_view found.1;
                      shards = shards;
                    }))
            ])
    ]
  ]

-- `HandleJobDetail`; the page holds the job's id.
unfoldable pub handle_job_detail : Request → Exec (Reply ℤ)
handle_job_detail r = do
  who ← gets (λ w. signed_in_user r.cookie w.sessions)
  elim who [
    | none ↦ pure (redirected (codes "/login"))
    | some user ↦ elim (positive_id (r.url_param (codes "jobID"))) [
      | none ↦ refuse 400 (codes "invalid job id")
      | some id ↦
          or_reply (query (λ db. is_some (find_job_of id user db)))
            (λ e. refuse 500 (codes "internal error"))
            (λ exists. if exists then answer id else refuse 404 (codes "job not found"))
    ]
  ]
