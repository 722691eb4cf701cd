-- ===== src/Sound/Proofs.antt =====
-- A reported proof, and `HandleJobResult` as a whole.
use satfarm.Prelude.{
  ℕ, ◌≡◌, sym, ◌∙◌, true, List, Option, none, some, if◌then◌else◌, inl, inr, Option-cases, is_empty,
  ◌==◌,
}
use satfarm.Prelude.Int.{ℤ}
use satfarm.Text.{Text, codes, trim_space, parse_int}
use satfarm.World.{find_id, Db, FilePath, World}
use satfarm.World.Exec.{no_rows}
use satfarm.World.Keeps.{
  Holds, Safe, Ends-bind, Ends-query, Safe-bind, Safe-query, Ends-Holds, Ends-or_raise, Ends-if,
}
use satfarm.Sat.Cnf.{Unsat}
use satfarm.Sat.Meaning.{formula}
use satfarm.Sat.Strict.{IsStrict}
use satfarm.Scheduler.{
  DratTrim, user_of, find_shard_of, JobResult, verify_unsat_shard, handle_unsat, handle_job_result,
}
use satfarm.Sound.{IsSound, IsRefuted, job_text, shape_of}
use satfarm.Sound.Operations.{Safe-penalize_worker, Safe-reenqueue_shard, Safe-reject}
use satfarm.Sound.Commits.{Ends-commit_unsat}
use satfarm.Sound.Results.{find_shard_of-shape}
use satfarm.Sound.Reports.{Safe-handle_sat, Posed, Ends-solve_cnf}

-- What drat-trim promises: where a file has one clause on a line, so that it stands for the formula
-- that every reader of DIMACS finds in it, a proof that is accepted is one of an unsatisfiable formula.
abbrev pub DratSound : DratTrim → Type 0
DratSound drat_trim =
    (cnf : Text) (proof : Option Text)
    → IsStrict cnf
    → drat_trim cnf proof ≡ true
    → Unsat (formula cnf)

module _ {promise : Type 0} (f : FilePath → Option Text) (drat_trim : DratTrim)
    (ds : promise → DratSound drat_trim) where
  Posed-IsRefuted :
      (db : Db) (job : ℕ) (path : FilePath) (cube : List ℤ) (cnf : Text) (proof : Option Text)
      → job_text f db job ≡ f path
      → Posed f path cube cnf
      → drat_trim cnf proof ≡ true
      → IsRefuted promise f db job cube
  Posed-IsRefuted db job path cube cnf proof e (t, read, same, strict) ok =
      (t, e ∙ read, λ kept plain. rw (← same) (ds kept cnf proof (strict plain) ok))

  Safe-verify_unsat_shard :
      (job shard : ℕ) (drat : ℤ) (user : ℕ) (drat_path : FilePath) (w : World)
      → Holds f (IsSound promise f) w
      → Safe f (IsSound promise f) (verify_unsat_shard drat_trim job shard drat user drat_path w)
  unfolding verify_unsat_shard
  Safe-verify_unsat_shard job shard drat user drat_path w h =
      Ends-bind (Ends-query {P = λ _. Unit {0}} (find_shard_of job shard) w h tt) (λ found w1 h1 p1.
        Ends-or_raise found no_rows w1 _ h1 (λ (path, cube) got.
          let (here, file) = find_shard_of-shape f job shard w1.db (sym p1.0.is_value ∙ got) in
          Ends-bind
            (Ends-solve_cnf f
              {P = λ db. (shape_of shard db ≡ some (job, cube)) × (job_text f db job ≡ f path)} path
              cube w1 h1 (here, file) (h1.db_inv.cubes shard job cube here))
            (λ cnf w2 h2 p2.
              Ends-if (drat_trim cnf (w2.files drat_path)) _ _ w2
                (λ ok. Ends-commit_unsat promise f job shard cube drat w2 h2 (
                  p2.0.0,
                  Posed-IsRefuted w2.db job path cube cnf (w2.files drat_path) p2.0.1 p2.1 ok,
                ))
                (λ bad.
                  Safe-bind
                    (Safe-penalize_worker f user job shard (codes "invalid_drat_proof") w2 h2)
                    (λ _ w3 h3. record { at = Ends-Holds (Safe-reenqueue_shard f shard w3 h3) })))))

  Safe-handle_unsat :
      (worker user : ℕ) (res : JobResult) (w : World)
      → Holds f (IsSound promise f) w
      → Safe f (IsSound promise f) (handle_unsat drat_trim worker user res w)
  unfolding handle_unsat
  Safe-handle_unsat worker user res w h =
      let text = trim_space res.model_or_core_info in
      Ends-if (is_empty text) _ _ w
        (λ _. Safe-reject f user res (codes "unsat_missing_drat_id") w h)
        (λ _. elim (Option-cases (parse_int text)) [
          | inl e ↦ rw e (Safe-reject f user res (codes "unsat_invalid_drat_id") w h)
          | inr (drat, e) ↦ rw e (
              Safe-bind (Safe-query (λ db. find_id drat db.drat_files) w h) (λ found w1 h1.
                elim (Option-cases found) [
                  | inl n ↦ rw n (Safe-reject f user res (codes "unsat_drat_file_not_found") w1 h1)
                  | inr (row, n) ↦ rw n (
                      Safe-bind
                        (Safe-verify_unsat_shard res.job_id res.shard_id drat user row.storage_path
                          w1 h1)
                        (λ _ w2 h2. record {
                          at = ((record { files = h2.files; db_inv = h2.db_inv }), tt);
                        }))
                ]))
        ])

  pub Safe-handle_job_result :
      (worker : ℕ) (res : JobResult) (w : World)
      → Holds f (IsSound promise f) w
      → Safe f (IsSound promise f) (handle_job_result drat_trim worker res w)
  unfolding handle_job_result
  Safe-handle_job_result worker res w h =
      let user = user_of (w.worker_shard worker) in
      let w0 = record w { worker_shard = λ k. if k == worker then none else w.worker_shard k } in
      let h0 : Holds f (IsSound promise f) w0 = record { files = h.files; db_inv = h.db_inv } in
      record {
        at = (
          Ends-Holds (
              Ends-if res.sat _ _ w0 (λ _. Safe-handle_sat f worker user res w0 h0)
                (λ _. Safe-handle_unsat worker user res w0 h0)),
          tt,
        );
      }
