-- ===== src/Sat/Cube/Partition.antt =====
-- The cubes of a job split the space of valuations: each valuation lies in exactly one of them.
use native.Mathlib.Nat.{div-div-eq-div-mul, div-one, pow-suc}
use native.Mathlib.Numerals.{add-one}
use satfarm.Prelude.{
  ℕ, zero, suc, ◌+◌, ◌*◌, ◌/◌, ◌%◌, ◌^◌, ◌≤◌, ◌<◌, ◌≡◌, refl, inl, inr, not, ◌&&◌, ◌||◌, arith, leb,
  ltb, ◌==◌, if◌then◌else◌, Bool-cases, sym, ◌∙◌, count,
}
use satfarm.Prelude.Int.{ℤ, pos, negsuc, leb_ℤ, eqb_ℤ, neg32, neg_int, ◌-ℤ◌}
use satfarm.Sat.Cnf.{Valuation, lit_holds, cube_holds}
use satfarm.Sat.Cube.{cube_from, cubes_from, cubes_for, choose_depth_ceil, max_depth}
use satfarm.Sat.Cube.Depth.{choose_depth_ceil-IsCeil, pow_step}

pub neg32_pos : (i : ℕ) → i + 1 < 2 ^ 31 → neg32 (pos (i + 1)) ≡ negsuc i
unfolding neg_int ◌-ℤ◌
neg32_pos i h = ground arith

-- The mask that spells the values of the variables `i + 1` to `i + n`.
mask_of : Valuation → ℕ → ℕ → ℕ
mask_of v zero i = 0
mask_of v (suc n) i = (if v (i + 1) then 1 else 0) + 2 * mask_of v n (i + 1)

mask_of-lt : (v : Valuation) (n i : ℕ) → mask_of v n i < 2 ^ n
unfolding mask_of
mask_of-lt v zero i = omega arith
mask_of-lt v (suc n) i = rw (pow-suc 2 n) (ground (arith, mask_of-lt v n (i + 1)))

shifted : (mask i : ℕ) → mask / 2 ^ (i + 1) ≡ mask / 2 ^ i / 2
shifted mask i = rw pow_step (sym (div-div-eq-div-mul mask (2 ^ i) 2))

first_literal :
    (v : Valuation) (i m e : ℕ)
    → i + 1 < 2 ^ 31
    → (lit_holds v (if not (m % 2 == 0) then pos (i + 1) else neg32 (pos (i + 1))) && (m / 2 == e))
      ≡ (m == (if v (i + 1) then 1 else 0) + 2 * e)
first_literal v i m e h = rw (neg32_pos i h) (
    rw (add-one i) (elim (Bool-cases (m % 2 == 0)) [
      | inl even ↦ rw even (ground arith)
      | inr odd ↦ rw odd (ground arith)
    ]))

-- A cube holds just under the valuations that spell its mask.
cube_from-holds :
    (v : Valuation) (n i mask m : ℕ)
    → i + n < 2 ^ 31
    → mask / 2 ^ i ≡ m
    → m < 2 ^ n
    → cube_holds v (cube_from n i mask) ≡ (m == mask_of v n i)
unfolding cube_from mask_of
cube_from-holds v zero i mask m b e h = ground arith
cube_from-holds v (suc n) i mask m b e h =
    rw
      (
        e,
        cube_from-holds v n (i + 1) mask (m / 2) (omega arith) (rw (shifted mask i) (rw e))
            (omega (arith, pow-suc 2 n)),
      )
      (first_literal v i m (mask_of v n (i + 1)) (omega arith))

-- Of the cubes for a run of masks, those hold whose mask the valuation spells.
count_cubes :
    (v : Valuation) (n mask depth : ℕ)
    → depth < 2 ^ 31
    → mask + n ≤ 2 ^ depth
    → count (cube_holds v) (cubes_from n mask depth)
      ≡ (if leb mask (mask_of v depth 0) && ltb (mask_of v depth 0) (mask + n) then 1 else 0)
unfolding cubes_from
count_cubes v zero mask depth b h = ground arith
count_cubes v (suc n) mask depth b h =
    rw (cube_from-holds v depth 0 mask mask (omega arith) (div-one mask) (omega arith))
      (ground (arith, count_cubes v n (mask + 1) depth b (omega arith)))

depth_small : (w n : ℤ) → choose_depth_ceil w n max_depth ≤ 20
depth_small w n = let r = choose_depth_ceil-IsCeil w n max_depth (omega arith) in r.within_cap

-- Every valuation satisfies exactly one of the cubes of a job, whatever the number of workers and
-- of variables.
pub count-cubes_for :
    (max_workers num_vars : ℤ) (v : Valuation)
    → count (cube_holds v) (cubes_for max_workers num_vars) ≡ 1
unfolding cubes_for
count-cubes_for w n v =
    let d = choose_depth_ceil w n max_depth in
    elim (Bool-cases (leb_ℤ w (pos 1) || eqb_ℤ n (pos 0))) [
      | inl single ↦ rw single (refl)
      | inr many ↦ rw many (elim (Bool-cases (d == 0)) [
        | inl flat ↦ rw flat (refl)
        | inr deep ↦ rw deep (
            count_cubes v (2 ^ d) 0 d (omega (arith, depth_small w n)) (omega arith)
            ∙ ground (arith, mask_of-lt v d 0))
      ])
    ]
