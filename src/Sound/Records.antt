-- ===== src/Sound/Records.antt =====
-- New results, outcomes and shards, and the invariant.
use satfarm.Prelude.{
  ℕ, ◌<◌, ◌≡◌, refl, sym, true, false, List, Option, some, ◌==◌, inl, inr, Bool-cases, Option-cases,
  arith, ==_iff,
}
use satfarm.Prelude.Int.{ℤ}
use satfarm.Text.{Text}
use satfarm.World.{find, find-lt, ShardResult, JobOutcome, Db, FilePath, upsert, insert_new}
use satfarm.Sat.Meaning.{formula}
use satfarm.Sound.{IsSound, Refutes, IsRefuted, IsModelled, job_text, shape_of}

abbrev Justified : Type 0 → (FilePath → Option Text) → Db → ShardResult → ℕ → Type 0
Justified promise f db r shard =
    (job : ℕ) (cube : List ℤ)
    → shape_of shard db ≡ some (job, cube)
    → r.is_sat ≡ false
    → IsRefuted promise f db job cube

pub shape_of-lt : (k : ℕ) (db : Db) {x : ℕ × List ℤ} → shape_of k db ≡ some x → k < db.shards.next
shape_of-lt k db e = elim (Option-cases (find k db.shards)) [
  | inl n ↦ let wrong = rw n at e in absurd (cc)
  | inr (r, n) ↦ find-lt k db.shards n
]

module _ {promise : Type 0} (f : FilePath → Option Text) (db : Db) (s : IsSound promise f db) where
  -- A justified result of a shard.
  pub IsSound-set_result :
      (shard : ℕ) (r : ShardResult)
      → shard < db.shards.next
      → Justified promise f db r shard
      → IsSound promise f (record db { shard_results = upsert shard r db.shard_results })
  IsSound-set_result shard r lt just = record {
    unsat_shard = λ k j q x e h z. elim (Bool-cases (k == shard)) [
      | inl here ↦
          let h' = rw here at h in
          just j q (rw (sym ((==_iff k shard).0 here)) e) (let same : r ≡ x = cc in rw same z)
      | inr away ↦ s.unsat_shard k j q x e (rw away at h) z
    ];
    has_result = λ k x e c. elim (Bool-cases (k == shard)) [
      | inl here ↦ (r, rw here (refl))
      | inr away ↦ rw away (s.has_result k x e c)
    ];
    covers = s.covers;
    cubes = s.cubes;
    unsat_outcome = s.unsat_outcome;
    sat_outcome = s.sat_outcome;
    unused = λ k le. elim (Bool-cases (k == shard)) [
      | inl here ↦ absurd (ground arith)
      | inr away ↦ rw away (s.unused k le)
    ];
    books = s.books;
  }

  -- A true outcome of a job.
  pub IsSound-set_outcome :
      (job : ℕ) (o : JobOutcome)
      → (o.is_sat ≡ false
          → (t : Text) × (job_text f db job ≡ some t) × Refutes promise t (formula t))
      → (o.is_sat ≡ true → IsModelled f db job o.assignment)
      → IsSound promise f (record db { job_results = insert_new job o db.job_results })
  IsSound-set_outcome job o un sat = elim (Option-cases (db.job_results job)) [
    | inr (old, e) ↦ rw (e, insert_new) (s)
    | inl e ↦
        rw (e, insert_new)
          (record {
            unsat_shard = s.unsat_shard;
            has_result = s.has_result;
            covers = s.covers;
            cubes = s.cubes;
            unsat_outcome = λ k x h z. elim (Bool-cases (k == job)) [
              | inl here ↦
                  let h' = rw here at h in
                  rw ((==_iff k job).0 here) (un (let same : o ≡ x = cc in rw same z))
              | inr away ↦ s.unsat_outcome k x (rw away at h) z
            ];
            sat_outcome = λ k x h z. elim (Bool-cases (k == job)) [
              | inl here ↦
                  let h' = rw here at h in
                  let same : o ≡ x = cc in
                  rw (← same) (rw ((==_iff k job).0 here) (sat (rw same z)))
              | inr away ↦ s.sat_outcome k x (rw away at h) z
            ];
            unused = s.unused;
            books = s.books;
          })
  ]
