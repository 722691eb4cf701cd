-- ===== src/Sat/Cube.antt =====
-- internal/sat/cube.go: how many variables to branch on, and the cubes.
pub mod Depth
pub mod Partition
pub mod Bounds
pub mod Cover
use satfarm.Prelude.{
  ℕ, zero, suc, ◌+◌, ◌*◌, ◌/◌, ◌%◌, ◌^◌, Bool, not, ◌||◌, List, [], ◌∷◌, none, some, Result, ok,
  err, ltb, leb, ◌==◌, if◌then◌else◌,
}
use satfarm.Prelude.Int.{ℤ, pos, leb_ℤ, eqb_ℤ, pos_part, neg32}
use satfarm.Text.{Text, codes, trim_space, fields, has_prefix, parse_int, scan_lines, default_limit}

pub data CubeError : Type 0 where
  malformed_p_line : Text → CubeError
  bad_number : Text → CubeError
  too_long no_p_line : CubeError

-- `strconv.Atoi(fields[2])`, where there are four fields or more.
abbrev pub num_vars_of : List Text → Text → Result CubeError ℤ
num_vars_of (a ∷ b ∷ c ∷ d ∷ _) line = elim (parse_int c) [
  | none ↦ err (bad_number c)
  | some n ↦ ok n
]
num_vars_of _ line = err (malformed_p_line line)

-- The loop of `readNumVars` over the lines, and what stands behind it.
unfoldable pub num_vars_loop : List Text → Bool → Result CubeError ℤ
num_vars_loop [] long = if long then err too_long else err no_p_line
num_vars_loop (l ∷ ls) long =
    let line = trim_space l in
    let rest = num_vars_loop ls long in
    if has_prefix line (codes "p") then num_vars_of (fields line) line else rest

unfoldable pub read_num_vars : Text → Result CubeError ℤ
unfolding num_vars_loop
read_num_vars file = let s = scan_lines default_limit file in num_vars_loop s.lines s.too_long

-- The loop of `chooseDepthCeil`. `shards` is the 64-bit pattern of the Go variable: from 2^63 on it
-- is negative, and so below `max_workers`. Each round adds one to `depth`, which `cap` bounds.
unfoldable pub depth_loop : ℕ → ℕ → ℕ → ℕ → ℕ → ℕ → ℕ
depth_loop zero max_workers num_vars cap depth shards = depth
depth_loop (suc fuel) max_workers num_vars cap depth shards =
    let next = depth_loop fuel max_workers num_vars cap (depth + 1) (shards * 2 % 2 ^ 64) in
    if ltb shards max_workers || leb (2 ^ 63) shards
    then if ltb num_vars (depth + 1) then depth else if ltb cap (depth + 1) then depth else next
    else depth

abbrev pub default_cap : ℤ → ℕ
default_cap max_depth_cap = if leb_ℤ max_depth_cap (pos 0) then 30 else pos_part max_depth_cap

unfoldable pub choose_depth_ceil : ℤ → ℤ → ℤ → ℕ
unfolding depth_loop
choose_depth_ceil max_workers num_vars max_depth_cap =
    if leb_ℤ max_workers (pos 1) || leb_ℤ num_vars (pos 0)
    then 0
    else let cap = default_cap max_depth_cap in
      depth_loop (suc cap) (pos_part max_workers) (pos_part num_vars) cap 0 1

-- `(mask & (1 << i)) != 0`
abbrev pub bit_set : ℕ → ℕ → Bool
bit_set mask i = not (mask / 2 ^ i % 2 == 0)

-- The literals for the variables `i + 1` to `i + n`.
unfoldable pub cube_from : ℕ → ℕ → ℕ → List ℤ
cube_from zero i mask = []
cube_from (suc n) i mask =
    (if bit_set mask i then pos (i + 1) else neg32 (pos (i + 1))) ∷ cube_from n (i + 1) mask

-- The cubes for the masks from `mask` on, `count` of them.
unfoldable pub cubes_from : ℕ → ℕ → ℕ → List (List ℤ)
unfolding cube_from
cubes_from zero mask depth = []
cubes_from (suc count) mask depth = cube_from depth 0 mask ∷ cubes_from count (mask + 1) depth

abbrev pub max_depth : ℤ
max_depth = pos 20

-- What follows on `readNumVars` in `GenerateCubesForMaxWorkersCeil`.
unfoldable pub cubes_for : ℤ → ℤ → List (List ℤ)
unfolding cubes_from
cubes_for max_workers num_vars =
    if leb_ℤ max_workers (pos 1) || eqb_ℤ num_vars (pos 0)
    then [] ∷ []
    else let depth = choose_depth_ceil max_workers num_vars max_depth in
      if depth == 0 then [] ∷ [] else cubes_from (2 ^ depth) 0 depth

unfoldable pub generate_cubes : Text → ℤ → Result CubeError (List (List ℤ))
unfolding cubes_for
generate_cubes file max_workers = elim (read_num_vars file) [
  | ok num_vars ↦ ok (cubes_for max_workers num_vars)
  | err e ↦ err e
]
