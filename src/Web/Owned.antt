-- ===== src/Web/Owned.antt =====
-- Who sees a job.
use mathlib.Core.List.{Memᴰ}
use mathlib.Core.List.Memᴰ
use satfarm.Prelude.{
  ◌↔◌, ℕ, ◌≡◌, refl, sym, ◌∙◌, ◌==◌, ==_iff, Option, some, ok, inl, inr, Bool-cases, Option-cases,
}
use satfarm.Prelude.Int.{ℤ, pos, negsuc}
use satfarm.Text.{codes}
use satfarm.World.{find, find_id, key_of, select_where, ShardRow, JobRow, JobOutcome, Db, World}
use satfarm.World.Listed.{select_where-row, select_where_all}
use satfarm.World.Gives.{Gives-query}
use satfarm.Web.{Request, answered}
use satfarm.Web.Session.{signed_in_user}
use satfarm.Web.Detail.{
  JobDetail, ShardView, shard_view, is_shard_of, job_view, result_view, find_job_of,
  job_with_result, shards_of, positive_id, handle_job_detail_json,
}
use satfarm.Web.Answers.{Answers, Answers-elim, Answers-Gives, of_answer}

-- A view is that of a shard of the job, with the recorded result of the shard.
abbrev pub IsShardView : Db → ℕ → ShardView → Type 0
IsShardView db job s =
    (k : ℕ) × (row : ShardRow) × (find k db.shards ≡ some row)
    × (row.job_id ≡ job)
    × (s ≡ shard_view (k, row) (db.shard_results k))

shards_of-views :
    (job : ℕ) (db : Db) (s : ShardView) → Memᴰ s (shards_of job db) ↔ IsShardView db job s
unfolding shards_of
shards_of-views job db s = (there, back)
  where
    view : ℕ × ShardRow → ShardView
    view x = shard_view x (db.shard_results x.0)

    there : Memᴰ s (shards_of job db) → IsShardView db job s
    there m =
        let ((k, row), listed, same) =
          Memᴰ.of_map view (select_where (is_shard_of job) db.shards) m in
        let (found, of_job) = select_where-row (is_shard_of job) db.shards k row listed in
        (k, row, found, (==_iff row.job_id job).0 of_job, sym same)

    back : IsShardView db job s → Memᴰ s (shards_of job db)
    back (k, row, found, of_job, same) = Memᴰ.cast same (
        Memᴰ.map view (
          select_where_all (is_shard_of job) db.shards k row found
            ((==_iff row.job_id job).1 of_job)))

-- The view is of a job of the user, with its result, and its shards are those in the tables.
abbrev pub IsShown : Request → World → JobDetail → World → Type 0
IsShown r w d w' =
    (user : ℕ) × (job : ℕ) × (row : JobRow) × (signed_in_user r.cookie w.sessions ≡ some user)
    × (find job w.db.jobs ≡ some row)
    × (row.user_id ≡ user)
    × (d.job ≡ job_view job row)
    × (d.result ≡ result_view (w.db.job_results job))
    × ((s : ShardView) → Memᴰ s d.shards ↔ IsShardView w.db job s)
    × (w'.db ≡ w.db)

find_id-key :
    (id : ℤ) (db : Db) {j : JobRow}
    → find_id id db.jobs ≡ some j
    → find (key_of id) db.jobs ≡ some j
find_id-key (pos n) db e = e
find_id-key (negsuc n) db e = absurd (cc)

found_job :
    (id : ℤ) (user : ℕ) (db : Db) (x : JobRow × Option JobOutcome)
    → job_with_result id user db ≡ some x
    → (find (key_of id) db.jobs ≡ some x.0)
      × (x.0.user_id ≡ user)
      × (x.1 ≡ db.job_results (key_of id))
unfolding find_job_of
found_job id user db x e = elim (Option-cases (find_id id db.jobs)) [
  | inl n ↦ let e' = rw n at e in absurd (cc)
  | inr (j, n) ↦
      let e1 = rw n at e in
      elim (Bool-cases (j.user_id == user)) [
        | inr other ↦ let e2 = rw other at e1 in absurd (cc)
        | inl mine ↦
            let e2 = rw mine at e1 in
            let same : (j, db.job_results (key_of id)) ≡ x = cc in
            rw (← same) (find_id-key id db n, (==_iff j.user_id user).0 mine, refl)
      ]
]

Answers-handle_job_detail_json :
    (r : Request) (w : World) → Answers (IsShown r w) (handle_job_detail_json r w)
unfolding handle_job_detail_json
Answers-handle_job_detail_json r w =
    Answers-elim (signed_in_user r.cookie w.sessions) _ _ w (record { at = tt })
      (λ user who.
        Answers-elim (positive_id (r.url_param (codes "jobID"))) _ _ w (record { at = tt })
          (λ id n.
            Answers-Gives (Gives-query (job_with_result id user) w) (λ e w1. record { at = tt })
              (λ found w1 p1.
                Answers-elim found _ _ w1 (record { at = tt })
                  (λ x got.
                    let (row, mine, out) = found_job id user w.db x (sym (p1.0) ∙ got) in
                    Answers-Gives (Gives-query (shards_of (key_of id)) w1)
                      (λ e w2. record { at = tt })
                      (λ shards w2 p2. record {
                        at = (
                          user,
                          key_of id,
                          x.0,
                          who,
                          row,
                          mine,
                          refl,
                          rw out refl,
                          (λ s. rw (p2.0, p1.1.db) (shards_of-views (key_of id) w.db s)),
                          p2.1.db ∙ p1.1.db,
                        );
                      })))))

-- Where `HandleJobDetailJSON` answers, what it shows is a job of the user who is signed in, with the
-- recorded result of that job; a shard is shown if and only if it is one of the job, and with the
-- recorded result of that shard; and the tables are as before.
pub handle_job_detail_json-owner :
    (r : Request) (w w' : World) (d : JobDetail)
    → handle_job_detail_json r w ≡ (ok (answered d), w')
    → IsShown r w d w'
handle_job_detail_json-owner r w w' d e = of_answer (Answers-handle_job_detail_json r w) e
