-- ===== src/Sound/Enqueued.antt =====
-- `EnqueueJob` keeps the invariant.
use satfarm.Prelude.{
  ℕ, ◌≤◌, ◌≡◌, ◌⊎◌, refl, sym, ◌∙◌, List, Option, some, inl, inr, All, arith, count,
}
use satfarm.Prelude.Int.{ℤ}
use satfarm.Text.{Text}
use satfarm.World.{find, ShardRow, ShardResult, Db, FilePath}
use satfarm.Sat.Cnf.{Valuation, cube_holds}
use satfarm.Sound.{IsSound, IsCube, shape_of}
use satfarm.Sound.Covered.{row_of-shape}
use satfarm.Sound.Added.{add_shards, IsPartly, add_shards-IsPartly, add_shards-covers}

module _ {promise : Type 0} (f : FilePath → Option Text) (db : Db) (s : IsSound promise f db)
    (job : ℕ) (cubes : List (List ℤ)) (all : All IsCube cubes)
    (cover : (v : Valuation) → count (cube_holds v) cubes ≡ 1) where
  abbrev more : Db
  more = add_shards job cubes db

  start-IsPartly : IsPartly f db job db
  start-IsPartly = record {
    jobs = refl;
    users = refl;
    transactions = refl;
    results = refl;
    outcomes = refl;
    grown = omega arith;
    kept = λ k s e. e;
    fresh = λ k s e. inl e;
  }

  done-IsPartly : IsPartly f db job more
  done-IsPartly = add_shards-IsPartly f db job cubes db all start-IsPartly

  row-shape :
      (d : Db) (k j : ℕ) (c : List ℤ) (r : ShardRow)
      → find k d.shards ≡ some r
      → r.job_id ≡ j
      → r.cube_literals ≡ c
      → shape_of k d ≡ some (j, c)
  row-shape d k j c r e a b = rw e (rw (a, b) (refl))

  -- A shard is an old one, or one of the job's.
  old_or_new :
      (k j : ℕ) (c : List ℤ)
      → shape_of k more ≡ some (j, c)
      → (shape_of k db ≡ some (j, c)) ⊎ ((j ≡ job) × IsCube c × (db.shards.next ≤ k))
  old_or_new k j c e =
      let (r, found, of, lits) = row_of-shape k more e in
      elim (done-IsPartly.fresh k r found) [
        | inl old ↦ inl (row-shape db k j c r old of lits)
        | inr (mine, cube, _, high) ↦ inr (sym of ∙ mine, rw (← lits) cube, high)
      ]

  no_result : (k : ℕ) (r : ShardResult) → db.shards.next ≤ k → more.shard_results k ≡ some r → ⊥
  no_result k r high e =
      let e' = rw (done-IsPartly.results) at e in let free = s.unused k high in absurd (cc)

  pub add_shards-IsSound : IsSound promise f more
  add_shards-IsSound = record {
    unsat_shard = λ k j c r e q z. elim (old_or_new k j c e) [
      | inl old ↦
          rw (done-IsPartly.jobs) (s.unsat_shard k j c r old (rw (done-IsPartly.results) at q) z)
      | inr (mine, cube, high) ↦ absurd (no_result k r high q)
    ];
    has_result = λ k r e c. elim (done-IsPartly.fresh k r e) [
      | inl old ↦ rw (done-IsPartly.results) (s.has_result k r old c)
      | inr (mine, cube, waiting, high) ↦ let c' = rw waiting at c in absurd (cc)
    ];
    covers = λ k j c v e. elim (old_or_new k j c e) [
      | inl old ↦
          let (k', c', e', inside) = s.covers k j c v old in
          let (r, found, of, lits) = row_of-shape k' db e' in
          (k', c', row-shape more k' j c' r (done-IsPartly.kept k' r found) of lits, inside)
      | inr (mine, cube, high) ↦ rw mine (add_shards-covers job cubes db v (omega (arith, cover v)))
    ];
    cubes = λ k j c e. elim (old_or_new k j c e) [
      | inl old ↦ s.cubes k j c old
      | inr (mine, cube, high) ↦ cube
    ];
    unsat_outcome = λ j o e z.
        rw (done-IsPartly.jobs) (s.unsat_outcome j o (rw (done-IsPartly.outcomes) at e) z);
    sat_outcome =
        λ j o e z. rw (done-IsPartly.jobs) (s.sat_outcome j o (rw (done-IsPartly.outcomes) at e) z);
    unused = λ k le. rw (done-IsPartly.results) (s.unused k (omega (arith, done-IsPartly.grown)));
    books = rw (done-IsPartly.users, done-IsPartly.transactions) (s.books);
  }
