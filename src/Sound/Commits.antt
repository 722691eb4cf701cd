-- ===== src/Sound/Commits.antt =====
-- The two transactions that record a verified result.
use satfarm.Prelude.{
  ℕ, ◌≡◌, refl, sym, ◌∙◌, true, List, Option, some, inl, inr, Bool-cases, arith, ==_refl,
  if◌then◌else◌,
}
use satfarm.Prelude.Int.{ℤ}
use satfarm.Text.{Text}
use satfarm.World.{count_where, completed, ShardResult, Db, FilePath, World}
use satfarm.World.Exec.{update_db, put_world, query, gets, pure, ◌>>=◌, ◌>>◌}
use satfarm.World.Keeps.{
  Holds, Ends, IsValue, Ends-bind, Ends-query, Ends-update_db, Ends-transaction,
}
use satfarm.Sat.Meaning.{formula}
use satfarm.Scheduler.{
  of_job, completed_of, sat_of, is_fully_unsat, commit_unsat, set_result, set_outcome,
  complete_shard, complete_job, unsat_result, unsat_outcome, mark_job_completed,
}
use satfarm.Sound.{IsSound, Refutes, IsRefuted, job_text, shape_of}
use satfarm.Sound.Changes.{IsSound-jobs, IsSound-shards, shape_of-modify}
use satfarm.Sound.Records.{IsSound-set_result, IsSound-set_outcome, shape_of-lt}
use satfarm.Sound.Covered.{covered-Unsat}

-- The shard is there, and has a result.
abbrev pub HasResult : ℕ → ℕ → List ℤ → Db → Type 0
HasResult shard job cube db =
    (shape_of shard db ≡ some (job, cube)) × (r : ShardResult) × (db.shard_results shard ≡ some r)

module _ (promise : Type 0) (f : FilePath → Option Text) (job shard : ℕ) (cube : List ℤ) where
  abbrev pub Here : Db → Type 0
  Here db = (shape_of shard db ≡ some (job, cube)) × IsRefuted promise f db job cube

  same_refutation :
      (db : Db)
      → Here db
      → (j : ℕ) (c : List ℤ) → shape_of shard db ≡ some (j, c)
      → IsRefuted promise f db j c
  same_refutation db h j c e =
      let same : some (job, cube) ≡ some (j, c) = sym h.0 ∙ e in
      let one : job ≡ j = cc in let two : cube ≡ c = cc in rw (← one, ← two) (h.1)

  Ends-counted :
      (w : World)
      → Holds f (IsSound promise f) w
      → HasResult shard job cube w.db
      → (total done sat : ℕ) → IsValue (λ db. count_where (of_job job) db.shards) total w.db
      → (done ≡ count_where (completed_of job) w.db.shards)
      → IsValue (λ db. count_where (sat_of db job) db.shards) sat w.db
      → is_fully_unsat total done sat ≡ true
      → (t : Text) × (job_text f w.db job ≡ some t) × Refutes promise t (formula t)
  Ends-counted w h here total done sat vt vd vs full =
      let same : done ≡ total = ground arith in
      let zero : sat ≡ 0 = ground arith in
      covered-Unsat f w.db h.db_inv job (sym vd ∙ same ∙ vt.is_value) (sym vs.is_value ∙ zero) shard
        cube here.0

  pub set_result-HasResult :
      (db : Db) (r : ShardResult)
      → shape_of shard db ≡ some (job, cube)
      → HasResult shard job cube (set_result shard r db)
  set_result-HasResult db r e = (e, r, rw (==_refl shard) (refl))

  pub complete_shard-HasResult :
      (db : Db)
      → IsSound promise f db
      → HasResult shard job cube db
      → IsSound promise f (complete_shard shard db)
        × HasResult shard job cube (complete_shard shard db)
  complete_shard-HasResult db s (e, r, g) = (
    IsSound-shards f db s shard (λ x. record x { status = completed }) (λ x. refl) (λ x c. (r, g)),
    (
      shape_of-modify f db s shard shard (λ x. record x { status = completed }) (λ x. refl) ∙ e,
      r,
      g,
    ),
  )

  set_unsat-IsSound :
      (db : Db) (drat : ℤ)
      → IsSound promise f db
      → Here db
      → IsSound promise f (set_result shard (unsat_result drat) db)
  set_unsat-IsSound db drat s h =
      IsSound-set_result f db s shard (unsat_result drat) (shape_of-lt shard db h.0)
        (λ j c e z. same_refutation db h j c e)

  -- The end of the transaction, where the job is found to be unsatisfiable.
  Ends-finish :
      (w : World)
      → Holds f (IsSound promise f) w
      → (t : Text) × (job_text f w.db job ≡ some t) × Refutes promise t (formula t)
      → Ends f
          (IsSound promise f)
          (λ _ _. Unit {0})
          ((do
            update_db (set_outcome job unsat_outcome)
            update_db (complete_job job)
            put_world (mark_job_completed job))
            w)
  unfolding mark_job_completed
  Ends-finish w h u =
      Ends-bind {P = λ _ _. Unit {0}}
        (Ends-update_db (set_outcome job unsat_outcome) w h
          (IsSound-set_outcome f w.db h.db_inv job unsat_outcome (λ z. u) (λ wrong. absurd (cc)))
          tt)
        (λ _ w1 h1 p1.
          Ends-bind {P = λ _ _. Unit {0}}
            (Ends-update_db (complete_job job) w1 h1
              (IsSound-jobs f w1.db h1.db_inv job (λ r. record r { status = completed })
                (λ r. refl))
              tt)
            (λ _ w2 h2 p2. record { at = ((record { files = h2.files; db_inv = h2.db_inv }), tt) }))

  -- The counts, and what they decide.
  Ends-count :
      (w : World)
      → Holds f (IsSound promise f) w
      → HasResult shard job cube w.db
      → Ends f
          (IsSound promise f)
          (λ _ _. Unit {0})
          ((do
            total ← query (λ db. count_where (of_job job) db.shards)
            done ← gets (λ w. count_where (completed_of job) w.db.shards)
            sat ← query (λ db. count_where (sat_of db job) db.shards)
            if is_fully_unsat total done sat
                then (do
                  update_db (set_outcome job unsat_outcome)
                  update_db (complete_job job)
                  put_world (mark_job_completed job))
                else pure tt)
            w)
  Ends-count w h p =
      Ends-bind (Ends-query (λ db. count_where (of_job job) db.shards) w h p) (λ total w1 h1 p1.
        let done = count_where (completed_of job) w1.db.shards in
        Ends-bind
          (Ends-query
            {P = λ db.
              IsValue (λ db. count_where (of_job job) db.shards) total db
              × (done ≡ count_where (completed_of job) db.shards)
              × HasResult shard job cube db}
            (λ db. count_where (sat_of db job) db.shards) w1 h1 (p1.0, refl, p1.1))
          (λ sat w2 h2 p2. elim (Bool-cases (is_fully_unsat total done sat)) [
            | inl full ↦ rw full (
                Ends-finish w2 h2
                  (Ends-counted w2 h2 p2.1.2 total done sat p2.1.0 p2.1.1 p2.0 full))
            | inr more ↦ rw more (record { at = (h2, tt) })
          ]))

  -- Recording a refuted shard keeps the invariant.
  pub Ends-commit_unsat :
      (drat : ℤ) (w : World)
      → Holds f (IsSound promise f) w
      → Here w.db
      → Ends f (IsSound promise f) (λ _ _. Unit {0}) (commit_unsat job shard drat w)
  unfolding commit_unsat
  Ends-commit_unsat drat w h here =
      Ends-transaction {J = IsSound promise f} {P = λ _ _. Unit {0}} _ w h
        (λ w' files same.
          let here' = rw (← same) at here in
          let s' = rw (← same) at h.db_inv in
          Ends-bind {P = λ _. HasResult shard job cube}
            (Ends-update_db (set_result shard (unsat_result drat)) w'
              (record { files = files; db_inv = s' }) (set_unsat-IsSound w'.db drat s' here')
              (set_result-HasResult w'.db (unsat_result drat) here'.0))
            (λ _ w1 h1 p1.
              let c = complete_shard-HasResult w1.db h1.db_inv p1 in
              Ends-bind {P = λ _. HasResult shard job cube}
                (Ends-update_db (complete_shard shard) w1 h1 c.0 c.1)
                (λ _ w2 h2 p2. Ends-count w2 h2 p2)))
        (λ a d j p. (j, tt))
