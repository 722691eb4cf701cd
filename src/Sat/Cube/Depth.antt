-- ===== src/Sat/Cube/Depth.antt =====
-- The depth that `chooseDepthCeil` picks: its loop counts the powers of two below the workers.
use native.Mathlib.Nat.{pow-suc, pow-le-pow_right}
use native.Mathlib.Numerals.{add-one}
use satfarm.Prelude.{
  ℕ, zero, suc, ◌+◌, ◌-◌, ◌*◌, ◌%◌, ◌^◌, ◌≤◌, ◌<◌, ◌≡◌, refl, ◌⊎◌, inl, inr, true, ◌||◌, arith, ltb,
  leb, Bool-cases,
}
use satfarm.Prelude.Int.{ℤ, pos, leb_ℤ, pos_part, ◌≤ℤ◌}
use satfarm.Sat.Cube.{depth_loop, choose_depth_ceil, default_cap}

-- `d` is the least depth whose cubes are as many as the workers, cut off at the variables and at
-- the cap.
pub record IsCeil (max_workers num_vars cap d : ℕ) : Type 0 where
  pub within_vars : d ≤ num_vars
  pub within_cap : d ≤ cap
  pub minimal : (d ≡ 0) ⊎ (2 ^ (d - 1) < max_workers)
  pub enough : (d ≡ num_vars) ⊎ (d ≡ cap) ⊎ (max_workers ≤ 2 ^ d)

pub pow_step : (d : ℕ) → 2 ^ (d + 1) ≡ 2 ^ d * 2
pow_step d = rw add-one (pow-suc 2 d)

pow_bound : (d : ℕ) → d ≤ 62 → 2 ^ d ≤ 2 ^ 62
pow_bound d h = pow-le-pow_right (omega arith) h

-- Below the cap of 62 the variable `shards` holds a power of two, and its shift does not overflow.
shift_pow : (d : ℕ) → d < 62 → 2 ^ d * 2 % 2 ^ 64 ≡ 2 ^ (d + 1)
shift_pow d h = rw pow_step (omega (arith, pow_bound d (omega arith)))

last_shift : (d : ℕ) → d + 1 - 1 ≡ d
last_shift d = omega arith

loop-IsCeil :
    (fuel max_workers num_vars cap d shards : ℕ)
    → cap ≤ 62
    → shards ≡ 2 ^ d
    → d ≤ num_vars
    → d ≤ cap
    → cap < fuel + d
    → (d ≡ 0) ⊎ (2 ^ (d - 1) < max_workers)
    → IsCeil max_workers num_vars cap (depth_loop fuel max_workers num_vars cap d shards)
unfolding depth_loop
loop-IsCeil zero mw nv cap d shards c sh dv dc fu below = absurd (omega arith)
loop-IsCeil (suc fuel) mw nv cap d shards c sh dv dc fu below =
    elim (Bool-cases (ltb shards mw || leb (2 ^ 63) shards)) [
      | inl more ↦ rw more (elim (Bool-cases (ltb nv (d + 1))) [
        | inl no_vars ↦ rw no_vars (stop (inl (ground arith)))
        | inr vars ↦ rw vars (elim (Bool-cases (ltb cap (d + 1))) [
          | inl at_cap ↦ rw at_cap (stop (inr (inl (ground arith))))
          | inr room ↦ rw room (
              loop-IsCeil fuel mw nv cap (d + 1) (shards * 2 % 2 ^ 64) c
                (rw sh (shift_pow d (ground arith))) (ground arith) (ground arith) (omega arith)
                (inr (rw (last_shift d) (ground (arith, pow_bound d (omega arith))))))
        ])
      ])
      | inr done ↦ rw done (stop (inr (inr (ground arith))))
    ]
  where
    stop : (d ≡ nv) ⊎ (d ≡ cap) ⊎ (mw ≤ 2 ^ d) → IsCeil mw nv cap d
    stop e = record { within_vars = dv; within_cap = dc; minimal = below; enough = e }

-- Whatever the workers and the variables are, the depth is the least one that gives each worker a
-- cube, as far as the variables and the cap allow; the cap is at most 62, or 30 if it is not
-- positive.
pub choose_depth_ceil-IsCeil :
    (max_workers num_vars max_depth_cap : ℤ)
    → max_depth_cap ≤ℤ pos 62
    → IsCeil
        (pos_part max_workers)
        (pos_part num_vars)
        (default_cap max_depth_cap)
        (choose_depth_ceil max_workers num_vars max_depth_cap)
unfolding choose_depth_ceil
choose_depth_ceil-IsCeil mw nv cap h = elim (Bool-cases (leb_ℤ mw (pos 1) || leb_ℤ nv (pos 0))) [
  | inl few ↦ rw few (record {
    within_vars = omega arith;
    within_cap = omega arith;
    minimal = inl refl;
    enough = no_branching few;
  })
  | inr many ↦ rw many (
      loop-IsCeil (suc (default_cap cap)) (pos_part mw) (pos_part nv) (default_cap cap) 0 1
        (ground arith) refl (omega arith) (omega arith) (omega arith) (inl refl))
]
  where
    no_branching :
        (leb_ℤ mw (pos 1) || leb_ℤ nv (pos 0)) ≡ true
        → (0 ≡ pos_part nv) ⊎ (0 ≡ default_cap cap) ⊎ (pos_part mw ≤ 2 ^ 0)
    no_branching e = ground arith
