-- ===== src/Sound/Reports.antt =====
-- A reported model, and the formula that is given to `drat-trim`.
use satfarm.Prelude.{
  ℕ, ◌≡◌, ◌⊎◌, refl, sym, ◌∙◌, ap, List, [], ◌∷◌, ◌++◌, Option, none, some, inl, inr, Option-cases,
  Result-cases,
}
use satfarm.Prelude.Int.{ℤ}
use satfarm.Text.{Text, codes}
use satfarm.World.{Db, FilePath, World, cancel_job}
use satfarm.World.Exec.{call, outcome, no_rows}
use satfarm.World.Keeps.{
  Holds, Ends, Safe, Ends-bind, Ends-query, Safe-bind, Ends-call, Ends-Holds, Ends-or_raise,
}
use satfarm.Sat.Cnf.{units}
use satfarm.Sat.Meaning.{formula}
use satfarm.Sat.Strict.{IsOnePerLine, IsStrict}
use satfarm.Sat.Apply.Kept.{solve_cnf-IsStrict}
use satfarm.Sat.Apply.{apply_cube}
use satfarm.Sat.Apply.Cubed.{apply_cube_correct}
use satfarm.Sat.Dimacs.{prepare_cnf}
use satfarm.Sat.Dimacs.Prepared.{prepare_cnf_correct}
use satfarm.Sat.Verify.{verify_sat_assignment}
use satfarm.Scheduler.{
  find_shard_of, JobResult, open_file, solve_cnf, read_file, accept_model, handle_sat,
  parse_assignment, cancel_targets, send_cancels, mark_job_completed_and_cancel_others,
  mark_job_completed,
}
use satfarm.Registry.{ids}
use satfarm.Sound.{IsSound, IsCube, job_text, shape_of}
use satfarm.Sound.Assigning.{Safe-send}
use satfarm.Sound.Operations.{Safe-reject}
use satfarm.Sound.Models.{Found, Ends-store_sat_shard_result}
use satfarm.Sound.Results.{
  IsCube-IsLiteral, IsCube-IsSmall, find_shard_of-shape, verified-IsModelled,
}

-- What the solver's file stands for.
abbrev pub Posed : (FilePath → Option Text) → FilePath → List ℤ → Text → Type 0
Posed f path cube cnf =
    (t : Text) × (f path ≡ some t)
    × (formula cnf ≡ formula t ++ units cube)
    × (IsOnePerLine t → IsStrict cnf)

module _ {promise : Type 0} (f : FilePath → Option Text) where
  Safe-send_cancels :
      (job : ℕ) (ks : List ℕ) (w : World)
      → Holds f (IsSound promise f) w
      → Safe f (IsSound promise f) (send_cancels job ks w)
  unfolding send_cancels
  Safe-send_cancels job [] w h = record { at = (h, tt) }
  Safe-send_cancels job (k ∷ ks) w h =
      Safe-send_cancels job ks _ (Ends-Holds (Safe-send k (cancel_job job) w h))

  Safe-mark_job_completed_and_cancel_others :
      (job winner : ℕ) (w : World)
      → Holds f (IsSound promise f) w
      → Safe f (IsSound promise f) (mark_job_completed_and_cancel_others job winner w)
  unfolding mark_job_completed_and_cancel_others mark_job_completed
  Safe-mark_job_completed_and_cancel_others job winner w h =
      Safe-send_cancels job (cancel_targets w.worker_shard job winner (ids w.registry))
        (mark_job_completed job w) (record { files = h.files; db_inv = h.db_inv })

  Safe-accept_model :
      (worker : ℕ) (res : JobResult) (cube a : List ℤ) (w : World)
      → Holds f (IsSound promise f) w
      → Found promise f res.job_id res.shard_id cube a w.db
      → Safe f (IsSound promise f) (accept_model worker res a w)
  unfolding accept_model
  Safe-accept_model worker res cube a w h m =
      Safe-bind (Ends-store_sat_shard_result promise f res.job_id res.shard_id cube a w h m)
        (λ _ w1 h1.
          Safe-bind (Safe-mark_job_completed_and_cancel_others res.job_id worker w1 h1)
            (λ _ w2 h2. record { at = ((record { files = h2.files; db_inv = h2.db_inv }), tt) }))

  Ends-open_file :
      {P : Db → Type 0} (path : FilePath) (w : World)
      → Holds f (IsSound promise f) w
      → P w.db
      → Ends f
          (IsSound promise f)
          (λ file db. P db × ((file ≡ none) ⊎ (file ≡ f path)))
          (open_file path w)
  unfolding open_file call
  Ends-open_file path w h p = elim (Result-cases (outcome w.faults)) [
    | inl (x, e) ↦ rw e (record {
      at = ((record { files = h.files; db_inv = h.db_inv }), (p, inr (ap (λ g. g path) h.files)));
    })
    | inr (x, e) ↦
        rw e (record { at = ((record { files = h.files; db_inv = h.db_inv }), (p, inl refl)) })
  ]

  pub Safe-handle_sat :
      (worker user : ℕ) (res : JobResult) (w : World)
      → Holds f (IsSound promise f) w
      → Safe f (IsSound promise f) (handle_sat worker user res w)
  unfolding handle_sat
  Safe-handle_sat worker user res w h =
      elim (Option-cases (parse_assignment res.model_or_core_info)) [
        | inl e ↦
            rw (e, handle_sat) (Safe-reject f user res (codes "invalid_sat_assignment_parse") w h)
        | inr (a, e) ↦
            rw (e, handle_sat)
              (Ends-bind
                (Ends-query {P = λ _. Unit {0}} (find_shard_of res.job_id res.shard_id) w h tt)
                (λ found w1 h1 p1. Ends-or_raise found no_rows w1 _ h1 (λ (path, cube) got.
                  let (here, file) =
                    find_shard_of-shape f res.job_id res.shard_id w1.db (sym p1.0.is_value ∙ got) in
                  Ends-bind
                    (Ends-open_file
                      {P = λ db.
                        (shape_of res.shard_id db ≡ some (res.job_id, cube))
                        × (job_text f db res.job_id ≡ f path)}
                      path w1 h1 (here, file))
                    (λ text w2 h2 p2. elim (Result-cases (verify_sat_assignment text cube a)) [
                      | inr (x, e) ↦ rw e (
                          Safe-reject f user res (codes "invalid_sat_assignment_unsatisfied") w2 h2)
                      | inl (u, e) ↦ rw e (
                          Safe-accept_model worker res cube a w2 h2 (
                            p2.0.0,
                            verified-IsModelled f w2.db res.job_id path text cube a
                                (h2.db_inv.cubes res.shard_id res.job_id cube p2.0.0) p2.0.1 p2.1 e,
                          ))
                    ]))))
      ]

  Ends-read_file :
      {P : Db → Type 0} (path : FilePath) (w : World)
      → Holds f (IsSound promise f) w
      → P w.db
      → Ends f (IsSound promise f) (λ t db. P db × (f path ≡ some t)) (read_file path w)
  unfolding read_file
  Ends-read_file {P} path w h p = Ends-bind {P = λ _. P} (Ends-call w h p) (λ _ w1 h1 p1.
      elim (Option-cases (w1.files path)) [
        | inl e ↦ rw e (record { at = h1 })
        | inr (t, e) ↦ rw e (record { at = (h1, (p1, sym (ap (λ g. g path) h1.files) ∙ e)) })
      ])

  pub Ends-solve_cnf :
      {P : Db → Type 0} (path : FilePath) (cube : List ℤ) (w : World)
      → Holds f (IsSound promise f) w
      → P w.db
      → IsCube cube
      → Ends f (IsSound promise f) (λ cnf db. P db × Posed f path cube cnf) (solve_cnf path cube w)
  unfolding solve_cnf
  Ends-solve_cnf {P} path cube w h p c =
      Ends-bind (Ends-read_file {P = P} path w h p) (λ t w1 h1 p1.
        elim (Option-cases (apply_cube t cube)) [
          | inl e ↦ rw e (record { at = h1 })
          | inr (cubed, e) ↦ rw e (
              Ends-bind {P = λ _. P} (Ends-call w1 h1 p1.0) (λ _ w2 h2 p2.
                elim (Option-cases (prepare_cnf cubed)) [
                  | inl e2 ↦ rw e2 (record { at = h2 })
                  | inr (out, e2) ↦ rw e2 (record {
                    at = (
                      h2,
                      (
                        p2,
                        (
                          t,
                          p1.1,
                          prepare_cnf_correct cubed out e2
                              ∙ apply_cube_correct t cube cubed e (IsCube-IsLiteral cube c),
                          solve_cnf-IsStrict t cubed out cube e e2 (IsCube-IsSmall cube c),
                        ),
                      ),
                    );
                  })
                ]))
        ])
