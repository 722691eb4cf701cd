-- ===== src/Sound/Inserted.antt =====
-- The rows that the web server inserts, and the invariant.
use satfarm.Prelude.{ℕ, ◌≡◌, ◌∙◌, Option, some, inl, inr, Option-cases, arith}
use satfarm.Text.{Text}
use satfarm.World.{Table, find, insert, find-insert, find-lt, JobRow, DratFile, Token, Db, FilePath}
use satfarm.Sound.{IsSound, job_text, text_of}

module _ (f : FilePath → Option Text) where
  job_text-insert :
      (row : JobRow) (db : Db) (job : ℕ) {t : Text}
      → job_text f db job ≡ some t
      → text_of f (find job (insert row db.jobs)) ≡ some t
  job_text-insert row db job e = elim (Option-cases (find job db.jobs)) [
    | inl n ↦ let e' = rw n at e in absurd (cc)
    | inr (j, n) ↦
        let lt = find-lt job db.jobs n in
        let same : find job (insert row db.jobs) ≡ find job db.jobs =
          find-insert job row db.jobs ∙ ground arith in
        rw same e
  ]

module _ {promise : Type 0} (f : FilePath → Option Text) where
  pub IsSound-insert_job :
      (row : JobRow) (db : Db)
      → IsSound promise f db
      → IsSound promise f (record db { jobs = insert row db.jobs })
  IsSound-insert_job row db s = record {
    unsat_shard = λ k j c r e q z.
        let (t, x, u) = s.unsat_shard k j c r e q z in (t, job_text-insert f row db j x, u);
    has_result = s.has_result;
    covers = s.covers;
    cubes = s.cubes;
    unsat_outcome =
        λ j o e z. let (t, x, u) = s.unsat_outcome j o e z in (t, job_text-insert f row db j x, u);
    sat_outcome = λ j o e z.
        let (t, a, v, x, y, m, u) = s.sat_outcome j o e z in
        (t, a, v, job_text-insert f row db j x, y, m, u);
    unused = s.unused;
    books = s.books;
  }

  pub IsSound-drat_files :
      (proofs : Table DratFile) (db : Db)
      → IsSound promise f db
      → IsSound promise f (record db { drat_files = proofs })
  IsSound-drat_files proofs db s = record {
    unsat_shard = s.unsat_shard;
    has_result = s.has_result;
    covers = s.covers;
    cubes = s.cubes;
    unsat_outcome = s.unsat_outcome;
    sat_outcome = s.sat_outcome;
    unused = s.unused;
    books = s.books;
  }

  pub IsSound-tokens :
      (toks : Table Token) (db : Db)
      → IsSound promise f db
      → IsSound promise f (record db { tokens = toks })
  IsSound-tokens toks db s = record {
    unsat_shard = s.unsat_shard;
    has_result = s.has_result;
    covers = s.covers;
    cubes = s.cubes;
    unsat_outcome = s.unsat_outcome;
    sat_outcome = s.sat_outcome;
    unused = s.unused;
    books = s.books;
  }
