-- ===== src/Sat/Strict.antt =====
-- Files with one clause on a line, which every reader of DIMACS reads alike. The program reads a file
-- line by line, and a line up to its first zero; a reader that goes by words finds other clauses where
-- a line holds several, or part of one.
use satfarm.Prelude.{
  ℕ, ◌^◌, ◌<◌, ◌≡◌, true, false, Bool, ◌&&◌, ◌||◌, List, [], ◌∷◌, none, some, is_empty, ltb,
  if◌then◌else◌, All, ◌==◌,
}
use satfarm.Prelude.Int.{pos, eqb_ℤ}
use satfarm.Text.{Text, trim_space, fields, parse_int, itoa, text_eq, split_lines}
use satfarm.Sat.Cube.Bounds.{var_of}
use satfarm.Sat.Meaning.{no_clause, is_end}

-- Literals below 2 ^ 31 in plain decimal, and one zero at the end.
unfoldable pub is_clause_words : List Text → Bool
is_clause_words [] = false
is_clause_words (tok ∷ toks) =
    let rest = is_clause_words toks in
    elim (parse_int tok) [
      | none ↦ false
      | some z ↦
          text_eq tok (itoa z)
          && (if eqb_ℤ z (pos 0) then is_empty toks else ltb (var_of z) (2 ^ 31) && rest)
    ]

-- A blank line, a comment, a header, or a clause.
abbrev pub is_strict : Text → Bool
is_strict line = no_clause line || is_clause_words (fields line)

-- The characters of a line are ASCII, and none is a newline.
abbrev pub IsLineChar : ℕ → Type 0
IsLineChar c = ((c == b'\n') ≡ false) × (c < 128)

abbrev pub IsStrictLine : Text → Type 0
IsStrictLine l = All IsLineChar l × (is_strict (trim_space l) ≡ true)

-- Each line of the file is such a line.
abbrev pub IsStrict : Text → Type 0
IsStrict file = All IsStrictLine (split_lines file)

-- The same, where lines that begin with '%' are let pass.
abbrev pub IsJobLine : Text → Type 0
IsJobLine l = All IsLineChar l × ((is_end (trim_space l) || is_strict (trim_space l)) ≡ true)

abbrev pub IsOnePerLine : Text → Type 0
IsOnePerLine file = All IsJobLine (split_lines file)
