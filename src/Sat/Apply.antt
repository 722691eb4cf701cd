-- ===== src/Sat/Apply.antt =====
-- internal/sat/cubeapply.go: the formula of a shard, which is the job's formula with the cube as
-- unit clauses behind it and a header that counts them.
pub mod Tokens
pub mod Formula
pub mod Cubed
pub mod Kept
use satfarm.Prelude.{
  ℕ, ◌+◌, Bool, false, not, ◌&&◌, List, [], ◌∷◌, ◌++◌, map, Option, none, some, is_empty, length,
  set, if◌then◌else◌,
}
use satfarm.Prelude.Int.{ℤ, pos, ltb_ℤ}
use satfarm.Text.{
  Text, codes, trim_space, fields, has_prefix, text_eq, parse_int, itoa, scan_lines, unlines,
  default_limit,
}

-- The variables of the first pass. `header_index` is `none` where the program has -1.
pub record Pass : Type 0 where
  pub lines : List Text
  pub header_index : Option ℕ
  pub header_num_vars : ℤ
  pub actual_clauses : ℕ

abbrev pub no_lines : Pass
no_lines = record { lines = []; header_index = none; header_num_vars = pos 0; actual_clauses = 0 }

-- `Atoi(fields[2])` if the words are those of a header.
abbrev pub header_vars : List Text → Option Text
header_vars (p ∷ cnf ∷ vars ∷ clauses ∷ []) =
    if text_eq p (codes "p") && text_eq cnf (codes "cnf") then some vars else none
header_vars _ = none

abbrev num_vars_or : ℤ → Text → ℤ
num_vars_or old vars = elim (parse_int vars) [ none ↦ old | some v ↦ v ]

-- `if headerIndex == -1 { … }`
unfoldable pub detect_header : Pass → Text → Pass
detect_header p trim = elim p.header_index [
  | some i ↦ p
  | none ↦ elim (header_vars (fields trim)) [
    | none ↦ p
    | some vars ↦ record p {
      header_index = some (length p.lines);
      header_num_vars = num_vars_or p.header_num_vars vars;
    }
  ]
]

-- `len(fields) > 0 && fields[len(fields)-1] == "0"`
abbrev pub last_is_zero : List Text → Bool
last_is_zero [] = false
last_is_zero (w ∷ ws) = if is_empty ws then text_eq w (codes "0") else last_is_zero ws

abbrev pub counts_as_clause : Text → Bool
counts_as_clause trim =
    not (is_empty trim)
    && not (has_prefix trim (codes "c"))
    && last_is_zero (fields trim)
    && not (has_prefix trim (codes "p "))

abbrev count_clause : Pass → Text → Pass
count_clause p trim =
    if counts_as_clause trim then record p { actual_clauses = p.actual_clauses + 1 } else p

abbrev append_line : Pass → Text → Pass
append_line p line = record p { lines = p.lines ++ line ∷ [] }

-- One round of the loop, behind the test for '%'.
unfoldable pub read_line : Pass → Text → Pass
unfolding detect_header
read_line p line =
    let trim = trim_space line in append_line (count_clause (detect_header p trim) trim) line

-- The first pass; `none` is a scanner error.
unfoldable pub first_pass : Pass → List Text → Bool → Option Pass
unfolding read_line
first_pass p [] long = if long then none else some p
first_pass p (l ∷ ls) long =
    let rest = first_pass (read_line p l) ls long in
    if has_prefix (trim_space l) (codes "%") then some p else rest

-- `Sprintf("p cnf %d %d", headerNumVars, newClauseCount)`
abbrev pub header_text : ℤ → ℕ → Text
header_text num_vars clauses = codes "p cnf " ++ (itoa num_vars ++ (b' ' ∷ itoa (pos clauses)))

unfoldable pub fix_header : Pass → List ℤ → List Text
fix_header p cube = elim p.header_index [
  | none ↦ p.lines
  | some i ↦
      if ltb_ℤ (pos 0) p.header_num_vars
      then set p.lines i (header_text p.header_num_vars (p.actual_clauses + length cube))
      else p.lines
]

-- `Sprintf("%d 0", lit)`
abbrev pub unit_line : ℤ → Text
unit_line lit = itoa lit ++ codes " 0"

-- The lines that `ApplyCube` writes.
unfoldable pub cubed_lines : Pass → List ℤ → List Text
unfolding fix_header
cubed_lines p cube = fix_header p cube ++ map unit_line cube

-- The contents of the file that `ApplyCube` writes.
unfoldable pub apply_cube : Text → List ℤ → Option Text
unfolding first_pass cubed_lines
apply_cube file cube =
    let s = scan_lines default_limit file in
    elim (first_pass no_lines s.lines s.too_long) [
      | none ↦ none
      | some p ↦ some (unlines (cubed_lines p cube))
    ]
