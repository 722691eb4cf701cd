-- ===== src/Sound/Models.antt =====
-- The transaction that records a model, and the invariant.
use satfarm.Prelude.{ℕ, ◌≡◌, refl, List, Option, some}
use satfarm.Prelude.Int.{ℤ}
use satfarm.Text.{Text}
use satfarm.World.{completed, Db, FilePath, World}
use satfarm.World.Exec.{update_db, ◌>>◌}
use satfarm.World.Keeps.{Holds, Ends, Ends-bind, Ends-update_db, Ends-transaction}
use satfarm.Scheduler.{
  set_result, set_outcome, complete_shard, complete_job, store_sat_shard_result, sat_result,
  sat_outcome,
}
use satfarm.Sound.{IsSound, IsModelled, shape_of}
use satfarm.Sound.Changes.{IsSound-jobs}
use satfarm.Sound.Records.{IsSound-set_result, IsSound-set_outcome, shape_of-lt}
use satfarm.Sound.Commits.{HasResult, set_result-HasResult, complete_shard-HasResult}

module _ (promise : Type 0) (f : FilePath → Option Text) (job shard : ℕ) (cube : List ℤ)
    (a : List ℤ) where
  abbrev pub Found : Db → Type 0
  Found db = (shape_of shard db ≡ some (job, cube)) × IsModelled f db job (some a)

  abbrev Stored : Db → Type 0
  Stored db = HasResult shard job cube db × IsModelled f db job (some a)

  Ends-outcome :
      (w : World)
      → Holds f (IsSound promise f) w
      → IsModelled f w.db job (some a)
      → Ends f
          (IsSound promise f)
          (λ _ _. Unit {0})
          ((do update_db (set_outcome job (sat_outcome a)); update_db (complete_job job)) w)
  Ends-outcome w h m =
      Ends-bind {P = λ _ _. Unit {0}}
        (Ends-update_db (set_outcome job (sat_outcome a)) w h
          (IsSound-set_outcome f w.db h.db_inv job (sat_outcome a) (λ wrong. absurd (cc)) (λ z. m))
          tt)
        (λ _ w1 h1 p1.
          Ends-update_db (complete_job job) w1 h1
            (IsSound-jobs f w1.db h1.db_inv job (λ r. record r { status = completed }) (λ r. refl))
            tt)

  -- Recording a model keeps the invariant.
  pub Ends-store_sat_shard_result :
      (w : World)
      → Holds f (IsSound promise f) w
      → Found w.db
      → Ends f (IsSound promise f) (λ _ _. Unit {0}) (store_sat_shard_result job shard a w)
  unfolding store_sat_shard_result
  Ends-store_sat_shard_result w h here =
      Ends-transaction {J = IsSound promise f} {P = λ _ _. Unit {0}} _ w h
        (λ w' files same.
          let here' = rw (← same) at here in
          let s' = rw (← same) at h.db_inv in
          Ends-bind {P = λ _. Stored}
            (Ends-update_db (set_result shard (sat_result a)) w'
              (record { files = files; db_inv = s' })
              (IsSound-set_result f w'.db s' shard (sat_result a) (shape_of-lt shard w'.db here'.0)
                (λ j c e wrong. absurd (cc)))
              (set_result-HasResult promise f job shard cube w'.db (sat_result a) here'.0, here'.1))
            (λ _ w1 h1 p1.
              let c = complete_shard-HasResult promise f job shard cube w1.db h1.db_inv p1.0 in
              Ends-bind {P = λ _. Stored}
                (Ends-update_db (complete_shard shard) w1 h1 c.0 (c.1, p1.1))
                (λ _ w2 h2 p2. Ends-outcome w2 h2 p2.1)))
        (λ a d j p. (j, tt))
