-- ===== src/Sat/Dimacs.antt =====
-- internal/sat/dimacs.go: the validator, the preprocessing of a file, and the reader of its header.
pub mod Spec
pub mod Tokens
pub mod Body
pub mod Header
pub mod Loop
pub mod Valid
pub mod Agree
pub mod Prepared
use satfarm.Prelude.{
  ℕ, ◌+◌, ◌*◌, Bool, true, false, not, ◌&&◌, ◌||◌, List, [], ◌∷◌, Option, none, some, Result, ok,
  err, is_empty, ltb, leb, if◌then◌else◌,
}
use satfarm.Prelude.Int.{ℤ, pos, leb_ℤ, ltb_ℤ, eqb_ℤ, pos_part, neg64}
use satfarm.Text.{
  Text, codes, trim_space, fields, has_prefix, text_eq, parse_int, scan_lines, unlines,
  default_limit,
}

pub data DimacsError : Type 0 where
  expected_header bad_num_vars bad_num_clauses non_integer : ℕ → Text → DimacsError
  extra_tokens no_terminator : ℕ → DimacsError
  out_of_range : ℕ → ℤ → ℕ → DimacsError
  too_long missing_header : DimacsError
  clause_mismatch : ℕ → ℕ → DimacsError

-- The variables of `ValidateDIMACS`. What it reads as `numVars` and `numClauses` is never negative.
pub record Checker : Type 0 where
  pub seen_header : Bool
  pub num_vars : ℕ
  pub num_clauses : ℕ
  pub seen_clauses : ℕ
  pub line_no : ℕ

abbrev pub start : Checker
start = record { seen_header = false; num_vars = 0; num_clauses = 0; seen_clauses = 0; line_no = 0 }

-- `line == "" || HasPrefix(line, "c") || HasPrefix(line, "%")`
abbrev pub is_skipped : Text → Bool
is_skipped line = is_empty line || has_prefix line (codes "c") || has_prefix line (codes "%")

-- A `num_vars` field: an integer of at least `least`.
abbrev pub count_field : ℕ → Text → Option ℕ
count_field least tok = elim (parse_int tok) [
  | none ↦ none
  | some n ↦ if leb_ℤ (pos least) n then some (pos_part n) else none
]

abbrev pub header_counts : ℕ → Text → Text → Result DimacsError (ℕ × ℕ)
header_counts line_no vars clauses = elim (count_field 1 vars) [
  | none ↦ err (bad_num_vars line_no vars)
  | some n ↦ elim (count_field 0 clauses) [
    | none ↦ err (bad_num_clauses line_no clauses)
    | some m ↦ ok (n, m)
  ]
]

-- `p cnf <vars> <clauses>`
unfoldable pub parse_header : ℕ → Text → List Text → Result DimacsError (ℕ × ℕ)
parse_header line_no line (p ∷ cnf ∷ vars ∷ clauses ∷ []) =
    if text_eq p (codes "p") && text_eq cnf (codes "cnf")
    then header_counts line_no vars clauses
    else err (expected_header line_no line)
parse_header line_no line _ = err (expected_header line_no line)

-- `if val < 0 { val = -val }`
abbrev pub abs_int : ℤ → ℤ
abs_int z = if ltb_ℤ z (pos 0) then neg64 z else z

-- The loop over the tokens of a clause line; the result is `hasTerminator`.
unfoldable pub check_tokens : ℕ → ℕ → List Text → Result DimacsError Bool
check_tokens num_vars line_no [] = ok false
check_tokens num_vars line_no (tok ∷ toks) =
    let more = check_tokens num_vars line_no toks in
    elim (parse_int tok) [
      | none ↦ err (non_integer line_no tok)
      | some val ↦
          if eqb_ℤ val (pos 0)
          then if is_empty toks then ok true else err (extra_tokens line_no)
          else if ltb_ℤ (abs_int val) (pos 1) || ltb_ℤ (pos num_vars) (abs_int val)
          then err (out_of_range line_no (abs_int val) num_vars)
          else more
    ]

abbrev with_header : Checker → Result DimacsError (ℕ × ℕ) → Result DimacsError Checker
with_header c (ok (n, m)) = ok (record c { seen_header = true; num_vars = n; num_clauses = m })
with_header c (err e) = err e

abbrev with_clause : Checker → Result DimacsError Bool → Result DimacsError Checker
with_clause c (ok true) = ok (record c { seen_clauses = c.seen_clauses + 1 })
with_clause c (ok false) = err (no_terminator c.line_no)
with_clause c (err e) = err e

-- The clause lines of the header's count have been read: `numClauses > 0 && seenClauses >= numClauses`.
abbrev pub is_full : Checker → Bool
is_full c = ltb 0 c.num_clauses && leb c.num_clauses c.seen_clauses

-- A trimmed line that is not skipped.
unfoldable pub check_content : Checker → Text → Result DimacsError Checker
unfolding parse_header check_tokens
check_content c line =
    if not c.seen_header
    then with_header c (parse_header c.line_no line (fields line))
    else if is_full c
    then ok c
    else if is_empty (fields line)
    then ok c
    else with_clause c (check_tokens c.num_vars c.line_no (fields line))

-- One round of the loop.
unfoldable pub check_line : Checker → Text → Result DimacsError Checker
unfolding check_content
check_line c0 l =
    let c = record c0 { line_no = c0.line_no + 1 } in
    if is_skipped (trim_space l) then ok c else check_content c (trim_space l)

-- What `ValidateDIMACS` tests behind the loop.
unfoldable pub finish : Checker → Bool → Result DimacsError (Unit {0})
finish c long =
    if long
    then err too_long
    else if not c.seen_header
    then err missing_header
    else if ltb 0 c.num_clauses && ltb c.seen_clauses c.num_clauses
    then err (clause_mismatch c.num_clauses c.seen_clauses)
    else ok tt

unfoldable pub check_lines : Checker → List Text → Bool → Result DimacsError (Unit {0})
unfolding check_line finish
check_lines c [] long = finish c long
check_lines c (l ∷ ls) long = elim (check_line c l) [
  | ok c' ↦ check_lines c' ls long
  | err e ↦ err e
]

-- The limit that the validator sets on a line.
abbrev pub long_limit : ℕ
long_limit = 1024 * 1024

unfoldable pub validate_dimacs : Text → Result DimacsError (Unit {0})
unfolding check_lines
validate_dimacs file = let s = scan_lines long_limit file in check_lines start s.lines s.too_long

-- `PrepareCNFForSolving`: the lines up to the first that begins with '%', as they stand. `none` is
-- a line that is too long for the scanner; a '%' line before it ends the loop without that error.
unfoldable pub prepare_lines : List Text → Bool → Option (List Text)
prepare_lines [] long = if long then none else some []
prepare_lines (l ∷ ls) long =
    let rest = prepare_lines ls long in
    if has_prefix (trim_space l) (codes "%")
    then some []
    else elim rest [ none ↦ none | some out ↦ some (l ∷ out) ]

unfoldable pub prepare_cnf : Text → Option Text
unfolding prepare_lines
prepare_cnf file =
    let s = scan_lines default_limit file in
    elim (prepare_lines s.lines s.too_long) [ none ↦ none | some out ↦ some (unlines out) ]

-- `ReadDimacsHeader`: the first line that begins with a 'p'.
unfoldable pub header_loop : ℕ → List Text → Bool → Result DimacsError (ℕ × ℕ)
unfolding parse_header
header_loop line_no [] long = if long then err too_long else err missing_header
header_loop line_no (l ∷ ls) long =
    let line = trim_space l in
    let rest = header_loop (line_no + 1) ls long in
    if is_empty line || has_prefix line (codes "c")
    then rest
    else if has_prefix line (codes "p")
    then parse_header (line_no + 1) line (fields line)
    else rest

unfoldable pub read_dimacs_header : Text → Result DimacsError (ℕ × ℕ)
unfolding header_loop
read_dimacs_header file = let s = scan_lines long_limit file in header_loop 0 s.lines s.too_long
