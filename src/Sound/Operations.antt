-- ===== src/Sound/Operations.antt =====
-- Penalties and the return of a shard to the queue keep the invariant.
use satfarm.Prelude.{ℕ, refl, Option, ◌==◌}
use satfarm.Prelude.Int.{ℤ, pos, ◌-ℤ◌}
use satfarm.Text.{Text, codes}
use satfarm.World.{pending, FilePath, World, Meta, penalty}
use satfarm.World.Exec.{no_rows}
use satfarm.World.Keeps.{
  Holds, Safe, Safe-bind, Safe-query, Ends-update_db, Ends-Holds, Ends-or_raise, Ends-if,
}
use satfarm.Ledger.Posting.{Safe-change_user_balance, Safe-transfer_user_balance}
use satfarm.Ledger.{
  transfer_user_balance, change_user_balance, penalize_worker, worker_penalty_satc,
}
use satfarm.Scheduler.{find_shard, reenqueue_shard, JobResult, reject}
use satfarm.Sound.{IsSound}
use satfarm.Sound.Changes.{IsSound-users, IsSound-shards}
use satfarm.Sound.Assigning.{Safe-nudge_all}

module _ {promise : Type 0} (f : FilePath → Option Text) where
  pub Safe-change :
      (user : ℕ) (delta : ℤ) (reason : Text) (details : Meta) (w : World)
      → Holds f (IsSound promise f) w
      → Safe f (IsSound promise f) (change_user_balance user delta reason details w)
  Safe-change user delta reason details w h =
      Safe-change_user_balance f (IsSound promise f) (λ db s. s.books) (IsSound-users f) user delta
        reason details w h

  pub Safe-transfer :
      (from to : ℕ) (amount : ℤ) (reason : Text) (details : Meta) (w : World)
      → Holds f (IsSound promise f) w
      → Safe f (IsSound promise f) (transfer_user_balance from to amount reason details w)
  Safe-transfer from to amount reason details w h =
      Safe-transfer_user_balance f (IsSound promise f) (λ db s. s.books) (IsSound-users f) from to
        amount reason details w h

  pub Safe-penalize_worker :
      (user job shard : ℕ) (why : Text) (w : World)
      → Holds f (IsSound promise f) w
      → Safe f (IsSound promise f) (penalize_worker user job shard why w)
  unfolding penalize_worker
  Safe-penalize_worker user job shard why w h =
      let c =
        Safe-change user (pos 0 -ℤ pos worker_penalty_satc) (codes "worker_penalty")
          (penalty job shard why) w h in
      Ends-if (user == 0) _ _ w (λ _. record { at = (h, tt) })
        (λ _. record { at = (Ends-Holds c, tt) })

  pub Safe-reenqueue_shard :
      (shard : ℕ) (w : World)
      → Holds f (IsSound promise f) w
      → Safe f (IsSound promise f) (reenqueue_shard shard w)
  unfolding reenqueue_shard
  Safe-reenqueue_shard shard w h = Safe-bind (Safe-query (find_shard shard) w h) (λ found w1 h1.
      Ends-or_raise found no_rows w1 _ h1 (λ row e.
        Safe-bind
          (Ends-update_db _ w1 h1
            (IsSound-shards f w1.db h1.db_inv shard (λ r. record r { status = pending }) (λ r. refl)
              (λ x wrong. absurd (cc)))
            tt)
          (λ _ w2 h2. Safe-nudge_all _ (record { files = h2.files; db_inv = h2.db_inv }))))

  pub Safe-reject :
      (user : ℕ) (res : JobResult) (why : Text) (w : World)
      → Holds f (IsSound promise f) w
      → Safe f (IsSound promise f) (reject user res why w)
  unfolding reject
  Safe-reject user res why w h =
      Safe-bind (Safe-penalize_worker user res.job_id res.shard_id why w h)
        (λ _ w1 h1. record { at = (Ends-Holds (Safe-reenqueue_shard res.shard_id w1 h1), tt) })
