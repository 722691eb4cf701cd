-- ===== src/Sat/Cube/Bounds.antt =====
-- The literals of the cubes: the variables 1 to the depth, once each, all of them in the formula.
use satfarm.Prelude.{
  ℕ, zero, suc, ◌+◌, ◌^◌, ◌≤◌, ◌<◌, ◌≡◌, refl, inl, inr, Bool, true, false, ◌||◌, List, [], ◌∷◌,
  arith, ◌==◌, if◌then◌else◌, Bool-cases, All, length, ap,
}
use satfarm.Prelude.Int.{ℤ, pos, leb_ℤ, eqb_ℤ, pos_part, neg_part, neg32}
use satfarm.Sat.Cube.{bit_set, cube_from, cubes_from, cubes_for, choose_depth_ceil, max_depth}
use satfarm.Sat.Cube.Depth.{choose_depth_ceil-IsCeil}
use satfarm.Sat.Cube.Partition.{neg32_pos}

abbrev pub var_of : ℤ → ℕ
var_of z = pos_part z + neg_part z

-- A literal of a variable from 1 to `n`.
abbrev pub Within : ℕ → ℤ → Type 0
Within n z = (1 ≤ var_of z) × (var_of z ≤ n)

-- The variables are `i`, `i + 1` and so on.
abbrev pub Numbered : ℕ → List ℤ → Type 0
Numbered i [] = Unit
Numbered i (l ∷ ls) = (var_of l ≡ i) × Numbered (i + 1) ls

cube_from-Numbered : (n i mask : ℕ) → i + n < 2 ^ 31 → Numbered (i + 1) (cube_from n i mask)
unfolding cube_from
cube_from-Numbered zero i mask h = tt
cube_from-Numbered (suc n) i mask h =
    (literal (bit_set mask i), cube_from-Numbered n (i + 1) mask (omega arith))
  where
    literal : (b : Bool) → var_of (if b then pos (i + 1) else neg32 (pos (i + 1))) ≡ i + 1
    literal true = omega arith
    literal false = rw (neg32_pos i (omega arith)) (omega arith)

length-cube_from : (n i mask : ℕ) → length (cube_from n i mask) ≡ n
unfolding cube_from
length-cube_from zero i mask = refl
length-cube_from (suc n) i mask = ap suc (length-cube_from n (i + 1) mask)

-- A cube for the variables 1 to `depth`, one literal of each, in order.
abbrev pub IsCubeOf : ℕ → List ℤ → Type 0
IsCubeOf depth c = Numbered 1 c × (length c ≡ depth)

cubes_from-IsCubeOf :
    (n mask depth : ℕ) → depth < 2 ^ 31 → All (IsCubeOf depth) (cubes_from n mask depth)
unfolding cubes_from
cubes_from-IsCubeOf zero mask depth h = tt
cubes_from-IsCubeOf (suc n) mask depth h = (
  (cube_from-Numbered depth 0 mask (omega arith), length-cube_from depth 0 mask),
  cubes_from-IsCubeOf n (mask + 1) depth h,
)

length-cubes_from : (n mask depth : ℕ) → length (cubes_from n mask depth) ≡ n
unfolding cubes_from
length-cubes_from zero mask depth = refl
length-cubes_from (suc n) mask depth = ap suc (length-cubes_from n (mask + 1) depth)

-- There is a depth, of at most 20 and at most the number of variables, such that the cubes are
-- two to that depth in number, and each assigns the variables 1 to that depth, once each.
pub cubes_for-IsCubeOf :
    (max_workers num_vars : ℤ)
    → (depth : ℕ) × (depth ≤ 20)
      × (depth ≤ pos_part num_vars)
      × (length (cubes_for max_workers num_vars) ≡ 2 ^ depth)
      × All (IsCubeOf depth) (cubes_for max_workers num_vars)
unfolding cubes_for
cubes_for-IsCubeOf w n = elim (Bool-cases (leb_ℤ w (pos 1) || eqb_ℤ n (pos 0))) [
  | inl single ↦ (0, omega arith, omega arith, rw single (refl), rw single ((tt, refl), tt))
  | inr many ↦
      let d = choose_depth_ceil w n max_depth in
      let c = choose_depth_ceil-IsCeil w n max_depth (omega arith) in
      elim (Bool-cases (d == 0)) [
        | inl flat ↦
            (0, omega arith, omega arith, rw (many, flat) (refl), rw (many, flat) ((tt, refl), tt))
        | inr deep ↦ (
          d,
          c.within_cap,
          c.within_vars,
          rw (many, deep) (length-cubes_from (2 ^ d) 0 d),
          rw (many, deep) (cubes_from-IsCubeOf (2 ^ d) 0 d (below c.within_cap)),
        )
      ]
]
  where
    below : {d : ℕ} → d ≤ 20 → d < 2 ^ 31
    below h = omega arith
