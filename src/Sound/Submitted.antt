-- ===== src/Sound/Submitted.antt =====
-- `EnqueueJob` keeps the invariant.
use satfarm.Prelude.{
  ℕ, ◌≤◌, ◌≡◌, refl, ap, List, [], ◌∷◌, Option, ok, inl, inr, Option-cases, Result-cases, All,
  count,
}
use satfarm.Prelude.Int.{ℤ}
use satfarm.Text.{Text}
use satfarm.World.{find, failed, Db, FilePath, World}
use satfarm.World.Exec.{constraint, transaction}
use satfarm.World.Keeps.{
  Holds, Ends, Safe, Ends-bind, Safe-bind, Safe-call, Ends-call, Ends-Holds, Ends-or_raise,
  Ends-update_db, Ends-transaction,
}
use satfarm.Sat.Cnf.{Valuation, cube_holds}
use satfarm.Sat.Cube.{read_num_vars, cubes_for, generate_cubes}
use satfarm.Sat.Cube.Bounds.{IsCubeOf, cubes_for-IsCubeOf}
use satfarm.Sat.Cube.Partition.{count-cubes_for}
use satfarm.Sat.Dimacs.{validate_dimacs}
use satfarm.Scheduler.{
  insert_shard, insert_shards, read_file, validate_file, fail_job, split_job, enqueue_job,
}
use satfarm.Sound.{IsSound, IsCube}
use satfarm.Sound.Changes.{IsSound-jobs}
use satfarm.Sound.Added.{add_shard, add_shards}
use satfarm.Sound.Enqueued.{add_shards-IsSound}
use satfarm.Sound.Assigning.{Safe-nudge_all}

All-IsCube : (d : ℕ) → d ≤ 20 → (cs : List (List ℤ)) → All (IsCubeOf d) cs → All IsCube cs
All-IsCube d le [] a = tt
All-IsCube d le (c ∷ cs) a = ((d, le, a.0), All-IsCube d le cs a.1)

generate_cubes-cubes_for :
    (text : Text) (n : ℤ) {cubes : List (List ℤ)}
    → generate_cubes text n ≡ ok cubes
    → (z : ℤ) × (cubes ≡ cubes_for n z)
unfolding generate_cubes
generate_cubes-cubes_for text n e = elim (Result-cases (read_num_vars text)) [
  | inl (z, h) ↦ let e' = rw (h, generate_cubes) at e in (z, cc)
  | inr (x, h) ↦ let e' = rw (h, generate_cubes) at e in absurd (cc)
]

module _ (f : FilePath → Option Text) where
  abbrev Free : Db → Type 0
  Free db = Unit {0}

  Ends-insert_shard :
      (job : ℕ) (cube : List ℤ) (d : Db) (w : World)
      → Holds f Free w
      → w.db ≡ d
      → Ends f Free (λ _ db. db ≡ add_shard job cube d) (insert_shard job cube w)
  unfolding insert_shard
  Ends-insert_shard job cube d w h e = Ends-bind (Ends-call {P = λ db. db ≡ d} w h e) (λ _ w1 h1 e1.
      Ends-or_raise (find job w1.db.jobs) constraint w1 _ h1 (λ r found. record {
        at = ((record { files = h1.files; db_inv = tt }), ap (λ db. add_shard job cube db) e1);
      }))

  Ends-insert_shards :
      (job : ℕ) (cubes : List (List ℤ)) (d : Db) (w : World)
      → Holds f Free w
      → w.db ≡ d
      → Ends f Free (λ _ db. db ≡ add_shards job cubes d) (insert_shards job cubes w)
  unfolding insert_shards add_shards
  Ends-insert_shards job [] d w h e = record { at = (h, e) }
  Ends-insert_shards job (c ∷ cs) d w h e =
      Ends-bind (Ends-insert_shard job c d w h e) (λ id w1 h1 e1.
        Ends-bind (Ends-insert_shards job cs (add_shard job c d) w1 h1 e1)
          (λ rest w2 h2 e2. record { at = (h2, e2) }))

module _ {promise : Type 0} (f : FilePath → Option Text) where
  Safe-insert_shards :
      (job : ℕ) (cubes : List (List ℤ)) (w : World)
      → Holds f (IsSound promise f) w
      → All IsCube cubes
      → ((v : Valuation) → count (cube_holds v) cubes ≡ 1)
      → Safe f (IsSound promise f) (transaction (insert_shards job cubes) w)
  Safe-insert_shards job cubes w h a c =
      Ends-transaction {J = Free f} {P = λ _ db. db ≡ add_shards job cubes w.db}
        (insert_shards job cubes) w h
        (λ w' files same.
          Ends-insert_shards f job cubes w.db w' (record { files = files; db_inv = tt }) same)
        (λ x d j e. (rw e (add_shards-IsSound f w.db h.db_inv job cubes a c), tt))

  Safe-read_file :
      (path : FilePath) (w : World)
      → Holds f (IsSound promise f) w
      → Safe f (IsSound promise f) (read_file path w)
  unfolding read_file
  Safe-read_file path w h = Safe-bind (Safe-call w h) (λ _ w1 h1.
      elim (Option-cases (w1.files path)) [
        | inl e ↦ rw e (record { at = h1 })
        | inr (t, e) ↦ rw e (record { at = (h1, tt) })
      ])

  Safe-split_job :
      (job : ℕ) (path : FilePath) (n : ℤ) (w : World)
      → Holds f (IsSound promise f) w
      → Safe f (IsSound promise f) (split_job job path n w)
  unfolding split_job
  Safe-split_job job path n w h = Safe-bind (Safe-read_file path w h) (λ text w1 h1.
      elim (Result-cases (generate_cubes text n)) [
        | inr (x, e) ↦ rw e (record { at = h1 })
        | inl (cubes, e) ↦ rw e (
            let (z, same) = generate_cubes-cubes_for text n e in
            let (d, le, _, _, a) = cubes_for-IsCubeOf n z in
            Safe-bind
              (Safe-insert_shards job cubes w1 h1 (rw same (All-IsCube d le (cubes_for n z) a))
                (λ v. rw same (count-cubes_for n z v)))
              (λ new w2 h2. Safe-nudge_all _ (record { files = h2.files; db_inv = h2.db_inv })))
      ])

  Safe-fail_job :
      (job : ℕ) (w : World)
      → Holds f (IsSound promise f) w
      → Safe f (IsSound promise f) (fail_job job w)
  unfolding fail_job
  Safe-fail_job job w h =
      let e = Ends-Holds (
        Ends-update_db {f = f} {I = IsSound promise f} {P = λ _. Unit {0}} _ w h
          (IsSound-jobs f w.db h.db_inv job (λ r. record r { status = failed }) (λ r. refl)) tt) in
      record { at = ((record { files = e.files; db_inv = e.db_inv }), tt) }

  Safe-validate_file :
      (path : FilePath) (w : World)
      → Holds f (IsSound promise f) w
      → Safe f (IsSound promise f) (validate_file path w)
  unfolding validate_file
  Safe-validate_file path w h = Safe-bind (Safe-read_file path w h) (λ text w1 h1.
      elim (Result-cases (validate_dimacs text)) [
        | inr (x, e) ↦ rw e (record { at = h1 })
        | inl (u, e) ↦ rw e (record { at = (h1, tt) })
      ])

  pub Safe-enqueue_job :
      (job : ℕ) (path : FilePath) (n : ℤ) (w : World)
      → Holds f (IsSound promise f) w
      → Safe f (IsSound promise f) (enqueue_job job path n w)
  unfolding enqueue_job
  Safe-enqueue_job job path n w h =
      let m = validate_file path w in
      let h1 : Holds f (IsSound promise f) m.1 = Ends-Holds (Safe-validate_file path w h) in
      elim (Result-cases m.0) [
        | inr (x, e) ↦ rw e (Safe-fail_job job m.1 h1)
        | inl (u, e) ↦ rw e (record { at = (Ends-Holds (Safe-split_job job path _ m.1 h1), tt) })
      ]
