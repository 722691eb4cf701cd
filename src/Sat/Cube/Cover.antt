-- ===== src/Sat/Cube/Cover.antt =====
-- What the split is for: a formula that is refuted under each of its cubes is unsatisfiable.
use satfarm.Prelude.{
  ◌<◌, ◌≡◌, refl, inl, inr, false, ◌&&◌, List, [], ◌∷◌, ◌++◌, arith, Bool-cases, All, count,
  all-append,
}
use satfarm.Prelude.Int.{ℤ}
use satfarm.Sat.Cnf.{Clause, Valuation, clause_holds, cnf_holds, cube_holds, Unsat, units}
use satfarm.Sat.Cube.{cubes_for}
use satfarm.Sat.Cube.Partition.{count-cubes_for}

pub cnf_holds-units : (v : Valuation) (c : List ℤ) → cnf_holds v (units c) ≡ cube_holds v c
cnf_holds-units v [] = refl
cnf_holds-units v (l ∷ c) = ground (arith, cnf_holds-units v c)

-- A valuation satisfies the formula under a cube if it satisfies the formula and lies in the cube.
pub cnf_holds-cube :
    (v : Valuation) (f : List Clause) (c : List ℤ)
    → cnf_holds v (f ++ units c) ≡ (cnf_holds v f && cube_holds v c)
cnf_holds-cube v f c = rw (all-append (clause_holds v) f (units c), cnf_holds-units v c)

refuted_everywhere :
    (v : Valuation) (f : List Clause) (cs : List (List ℤ))
    → All (λ c. Unsat (f ++ units c)) cs
    → 0 < count (cube_holds v) cs
    → cnf_holds v f ≡ false
refuted_everywhere v f [] h e = absurd (omega arith)
refuted_everywhere v f (c ∷ cs) h e = elim (Bool-cases (cube_holds v c)) [
  | inl inside ↦ ground (arith, cnf_holds-cube v f c, h.0 v)
  | inr outside ↦ refuted_everywhere v f cs h.1 (ground arith)
]

-- If the formula is unsatisfiable together with each cube of a job, it is unsatisfiable.
pub cubes_for-Unsat :
    (max_workers num_vars : ℤ) (f : List Clause)
    → All (λ c. Unsat (f ++ units c)) (cubes_for max_workers num_vars)
    → Unsat f
cubes_for-Unsat w n f h v =
    refuted_everywhere v f (cubes_for w n) h (omega (arith, count-cubes_for w n v))
