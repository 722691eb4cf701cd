-- ===== src/Sound/Covered.antt =====
-- A job whose shards are all completed, and none with a model: its formula is unsatisfiable.
use satfarm.Prelude.{
  ℕ, ◌≡◌, true, false, List, Option, some, ◌==◌, inl, inr, Option-cases, arith, and_true, ==_iff,
}
use satfarm.Prelude.Int.{ℤ}
use satfarm.Text.{Text}
use satfarm.World.{find, count_where, count_where-all, count_where-zero, ShardRow, Db, FilePath}
use satfarm.Sat.Meaning.{formula}
use satfarm.Sat.Cube.Cover.{cnf_holds-cube}
use satfarm.Scheduler.{of_job, completed_of, sat_of}
use satfarm.Sound.{IsSound, Refutes, IsRefuted, job_text, shape_of}

pub row_of-shape :
    (k : ℕ) (db : Db) {job : ℕ} {cube : List ℤ}
    → shape_of k db ≡ some (job, cube)
    → (r : ShardRow) × (find k db.shards ≡ some r) × (r.job_id ≡ job) × (r.cube_literals ≡ cube)
row_of-shape k db e = elim (Option-cases (find k db.shards)) [
  | inl n ↦ let wrong = rw n at e in absurd (cc)
  | inr (r, n) ↦ let e' = rw n at e in (r, n, cc, cc)
]

module _ {promise : Type 0} (f : FilePath → Option Text) (db : Db) (s : IsSound promise f db)
    (job : ℕ) (done : count_where (completed_of job) db.shards ≡ count_where (of_job job) db.shards)
    (sat : count_where (sat_of db job) db.shards ≡ 0) where
  shard-IsRefuted :
      (k : ℕ) (cube : List ℤ) → shape_of k db ≡ some (job, cube) → IsRefuted promise f db job cube
  shard-IsRefuted k cube e =
      let (row, found, of, _) = row_of-shape k db e in
      let mine : (row.job_id == job) ≡ true = (==_iff row.job_id job).1 of in
      let fin =
        count_where-all (of_job job) (completed_of job) db.shards (λ j x h. (and_true _ _ h).0) done
          k row found mine in
      let (r, here) = s.has_result k row found (and_true _ _ fin).1 in
      let zero : sat_of db job k row ≡ false =
        count_where-zero (sat_of db job) db.shards sat k row found in
      let none_sat = rw (mine, here) at zero in s.unsat_shard k job cube r e here none_sat

  pub covered-Unsat :
      (k : ℕ) (cube : List ℤ)
      → shape_of k db ≡ some (job, cube)
      → (t : Text) × (job_text f db job ≡ some t) × Refutes promise t (formula t)
  covered-Unsat k cube e =
      let (t, x, u) = shard-IsRefuted k cube e in
      (
        t,
        x,
        λ kept plain v.
            let (j, c, e', inside) = s.covers k job cube v e in
            let (t', x', u') = shard-IsRefuted j c e' in
            let same : t' ≡ t = cc in
            let h = rw same at (u' kept (rw same plain)) v in
            let split = cnf_holds-cube v (formula t) c in ground (arith, split, h),
      )
