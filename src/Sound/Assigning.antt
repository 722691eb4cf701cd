-- ===== src/Sound/Assigning.antt =====
-- Handing out work changes no table.
use satfarm.Prelude.{
  ℕ, not, List, [], ◌∷◌, Option, none, some, Result, ok, err, inl, inr, Option-cases, Result-cases,
  List-cases,
}
use satfarm.Text.{Text}
use satfarm.World.{find, Db, FilePath, Shard, ServerMessage, assign_job, World}
use satfarm.World.Exec.{Error, no_rows, Exec, put_world, gets, raise, attempt, ◌>>=◌, ◌>>◌}
use satfarm.World.Keeps.{
  Holds, Safe, Safe-bind, Safe-call, Safe-query, Ends-attempt, Ends-or_raise, Ends-if, Ends-Holds,
}
use satfarm.Ledger.{get_worker_user_id, worker_has_min_balance, conn_of}
use satfarm.Registry.{get_conn, ids}
use satfarm.Scheduler.{
  give_shard, send, open_shards, assign_to, maybe_assign_work, nudge, nudge_all,
}

module _ {f : FilePath → Option Text} {I : Db → Type 0} where
  pub Safe-get_worker_user_id :
      (worker : ℕ) (w : World) → Holds f I w → Safe f I (get_worker_user_id worker w)
  unfolding get_worker_user_id
  Safe-get_worker_user_id worker w h = elim (Option-cases (conn_of worker w.registry.conns)) [
    | inl e ↦ rw e (record { at = h })
    | inr (c, e) ↦ rw e (record { at = (h, tt) })
  ]

  Safe-worker_has_min_balance :
      (worker : ℕ) (w : World) → Holds f I w → Safe f I (worker_has_min_balance worker w)
  unfolding worker_has_min_balance
  Safe-worker_has_min_balance worker w h =
      Safe-bind (Safe-get_worker_user_id worker w h) (λ user w1 h1.
        Safe-bind (Safe-query (λ db. find user db.users) w1 h1)
          (λ row w2 h2. Ends-or_raise row no_rows w2 _ h2 (λ b e. record { at = (h2, tt) })))

  pub Safe-send :
      (worker : ℕ) (msg : ServerMessage) (w : World) → Holds f I w → Safe f I (send worker msg w)
  unfolding send
  Safe-send worker msg w h =
      Safe-bind (Safe-call w h)
        (λ _ w1 h1. record { at = ((record { files = h1.files; db_inv = h1.db_inv }), tt) })

  -- A change of what is in memory.
  pub Safe-put : (g : World → World) (w : World) → Holds f I (g w) → Safe f I (put_world g w)
  Safe-put g w h = record { at = (h, tt) }

  Safe-sent :
      (worker user : ℕ) (sh : Shard) (rest : List Shard) (r : Result Error (Unit {0})) (w : World)
      → Holds f I w
      → Safe f I (
          (elim r as (λ _. Exec (Unit {0})) [
            | err e ↦ put_world (λ w. record w { pending = sh ∷ rest }) >> raise e
            | ok _ ↦ put_world (give_shard worker user sh)
          ])
            w)
  Safe-sent worker user sh rest (err e) w h = record {
    at = record { files = h.files; db_inv = h.db_inv };
  }
  Safe-sent worker user sh rest (ok _) w h = record {
    at = ((record { files = h.files; db_inv = h.db_inv }), tt);
  }

  Safe-assign_to :
      (worker : ℕ) (sh : Shard) (rest : List Shard) (w : World)
      → Holds f I w
      → Safe f I (assign_to worker sh rest w)
  unfolding assign_to
  Safe-assign_to worker sh rest w h =
      let m = worker_has_min_balance worker w in
      let h1 : Holds f I m.1 = Ends-Holds (Safe-worker_has_min_balance worker w h) in
      elim (Result-cases m.0) [
        | inr (x, e) ↦
            rw e (record { at = ((record { files = h1.files; db_inv = h1.db_inv }), tt) })
        | inl (rich, e) ↦ rw e (
            Ends-if (not rich) _ _ m.1
              (λ poor. record { at = ((record { files = h1.files; db_inv = h1.db_inv }), tt) })
              (λ e. given m.1 h1))
      ]
    where
      given :
          (w : World)
          → Holds f I w
          → Safe f I (
              (do
                conn ← gets (λ w. get_conn worker w.registry)
                elim conn [
                  | none ↦ put_world (λ w. record w { pending = sh ∷ rest })
                  | some c ↦ do
                    r ← attempt (send worker (assign_job sh.job_id sh.shard_id sh.cube_lits))
                    elim r [
                      | err e ↦ put_world (λ w. record w { pending = sh ∷ rest }) >> raise e
                      | ok _ ↦ put_world (give_shard worker c.user_id sh)
                    ]
                ])
                w)
      given w h = elim (Option-cases (get_conn worker w.registry)) [
        | inl e ↦ rw e (record { at = ((record { files = h.files; db_inv = h.db_inv }), tt) })
        | inr (c, e) ↦ rw e (
            Safe-bind
              (Ends-attempt (send worker (assign_job sh.job_id sh.shard_id sh.cube_lits)) w
                (Safe-send worker _ w h))
              (λ r w1 h1. Safe-sent worker c.user_id sh rest r w1 h1))
      ]

  pub Safe-maybe_assign_work :
      (worker : ℕ) (w : World) → Holds f I w → Safe f I (maybe_assign_work worker w)
  unfolding maybe_assign_work
  Safe-maybe_assign_work worker w h = elim (Option-cases (w.worker_shard worker)) [
    | inr (sh, e) ↦ rw e (record { at = (h, tt) })
    | inl e ↦ rw e (elim (List-cases (open_shards w.completed_jobs w.pending)) [
      | inl n ↦ rw n (record { at = ((record { files = h.files; db_inv = h.db_inv }), tt) })
      | inr (sh, rest, n) ↦ rw n (
          Safe-assign_to worker sh rest (record w { pending = rest })
            (record { files = h.files; db_inv = h.db_inv }))
    ])
  ]

  Safe-nudge : (ks : List ℕ) (w : World) → Holds f I w → Safe f I (nudge ks w)
  unfolding nudge
  Safe-nudge [] w h = record { at = (h, tt) }
  Safe-nudge (k ∷ ks) w h =
      Safe-bind (Ends-attempt (maybe_assign_work k) w (Safe-maybe_assign_work k w h))
        (λ _ w1 h1. Safe-nudge ks w1 h1)

  pub Safe-nudge_all : (w : World) → Holds f I w → Safe f I (nudge_all w)
  unfolding nudge_all
  Safe-nudge_all w h = Safe-nudge (ids w.registry) w h
