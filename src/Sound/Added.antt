-- ===== src/Sound/Added.antt =====
-- The shards of a new job.
use satfarm.Prelude.{
  ℕ, ◌≤◌, ◌≡◌, ◌⊎◌, refl, sym, ◌∙◌, true, List, [], ◌∷◌, Option, some, inl, inr, Bool-cases, ◌==◌,
  All, arith, count,
}
use satfarm.Prelude.Int.{ℤ}
use satfarm.Text.{Text}
use satfarm.World.{find, insert, find-insert, find-lt, pending, ShardRow, Db, FilePath}
use satfarm.Sat.Cnf.{Valuation, cube_holds}
use satfarm.Scheduler.{new_row}
use satfarm.Sound.{IsCube, shape_of}
use satfarm.Sound.Records.{shape_of-lt}

abbrev pub add_shard : ℕ → List ℤ → Db → Db
add_shard job cube db = record db { shards = insert (new_row job cube) db.shards }

-- What the loop over the cubes makes of the database.
unfoldable pub add_shards : ℕ → List (List ℤ) → Db → Db
add_shards job [] db = db
add_shards job (c ∷ cs) db = add_shards job cs (add_shard job c db)

-- The invariant without the cover, for a job whose shards are being inserted.
pub record IsPartly (f : FilePath → Option Text) (db0 : Db) (job : ℕ) (db : Db) : Type 0 where
  pub jobs : db.jobs ≡ db0.jobs
  pub users : db.users ≡ db0.users
  pub transactions : db.transactions ≡ db0.transactions
  pub results : db.shard_results ≡ db0.shard_results
  pub outcomes : db.job_results ≡ db0.job_results
  pub grown : db0.shards.next ≤ db.shards.next
  pub kept : (k : ℕ) (s : ShardRow) → find k db0.shards ≡ some s → find k db.shards ≡ some s
  pub fresh :
      (k : ℕ) (s : ShardRow)
      → find k db.shards ≡ some s
      → (find k db0.shards ≡ some s)
        ⊎ ((s.job_id ≡ job) × IsCube s.cube_literals × (s.status ≡ pending) × (db0.shards.next ≤ k))

module _ (f : FilePath → Option Text) (db0 : Db) (job : ℕ) where
  add_shard-IsPartly :
      (cube : List ℤ) (db : Db)
      → IsCube cube
      → IsPartly f db0 job db
      → IsPartly f db0 job (add_shard job cube db)
  unfolding insert
  add_shard-IsPartly cube db c p = record {
    jobs = p.jobs;
    users = p.users;
    transactions = p.transactions;
    results = p.results;
    outcomes = p.outcomes;
    grown = omega (arith, p.grown);
    kept = λ k s e.
        let e' = p.kept k s e in
        let lt = find-lt k db.shards e' in
        find-insert k (new_row job cube) db.shards ∙ ground arith;
    fresh = λ k s e.
        let e' = sym (find-insert k (new_row job cube) db.shards) ∙ e in
        elim (Bool-cases (k == db.shards.next)) [
          | inl here ↦
              let e2 = rw here at e' in
              let same : new_row job cube ≡ s = cc in
              inr (rw (← same) (refl, c, refl, (let g = p.grown in ground arith)))
          | inr away ↦ p.fresh k s (rw away at e')
        ];
  }

  pub add_shards-IsPartly :
      (cubes : List (List ℤ)) (db : Db)
      → All IsCube cubes
      → IsPartly f db0 job db
      → IsPartly f db0 job (add_shards job cubes db)
  unfolding add_shards
  add_shards-IsPartly [] db c p = p
  add_shards-IsPartly (x ∷ xs) db c p =
      add_shards-IsPartly xs (add_shard job x db) c.1 (add_shard-IsPartly x db c.0 p)

-- A row stays, and every cube gets one.
add_shards-kept :
    (job : ℕ) (cubes : List (List ℤ)) (db : Db) (k : ℕ) {x : ℕ × List ℤ}
    → shape_of k db ≡ some x
    → shape_of k (add_shards job cubes db) ≡ some x
unfolding add_shards
add_shards-kept job [] db k e = e
add_shards-kept job (c ∷ cs) db k e =
    add_shards-kept job cs (add_shard job c db) k
      (rw (find-insert k (new_row job c) db.shards) (let lt = shape_of-lt k db e in ground arith))

pub add_shards-covers :
    (job : ℕ) (cubes : List (List ℤ)) (db : Db) (v : Valuation)
    → 1 ≤ count (cube_holds v) cubes
    → (k : ℕ) × (c : List ℤ) × (shape_of k (add_shards job cubes db) ≡ some (job, c))
      × (cube_holds v c ≡ true)
unfolding add_shards
add_shards-covers job [] db v h = absurd (omega arith)
add_shards-covers job (c ∷ cs) db v h = elim (Bool-cases (cube_holds v c)) [
  | inl inside ↦ (
    db.shards.next,
    c,
    add_shards-kept job cs (add_shard job c db) db.shards.next
        (rw (find-insert db.shards.next (new_row job c) db.shards) (ground arith)),
    inside,
  )
  | inr outside ↦ add_shards-covers job cs (add_shard job c db) v (ground arith)
]
