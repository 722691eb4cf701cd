-- ===== src/Sat/Meaning.antt =====
-- The formula that a DIMACS file stands for, read line by line, up to a line that begins with '%'.
pub mod Scanned
use satfarm.Prelude.{zero, Bool, ◌||◌, List, [], ◌∷◌, none, some, any, is_empty, if◌then◌else◌}
use satfarm.Prelude.Int.{ℤ, pos}
use satfarm.Text.{Text, codes, trim_space, fields, has_prefix, parse_int, split_lines}
use satfarm.Sat.Cnf.{Clause}

-- A literal in front of a clause; a zero ends it.
abbrev pub add_literal : ℤ → Clause → Clause
add_literal (pos zero) c = []
add_literal z c = z ∷ c

-- The literals of a clause line: the integers up to a zero.
unfoldable pub literals : List Text → Clause
literals [] = []
literals (tok ∷ toks) =
    let c = literals toks in elim (parse_int tok) [ none ↦ [] | some z ↦ add_literal z c ]

-- Blank lines, comments, and the header hold no clause.
abbrev pub no_clause : Text → Bool
no_clause line = is_empty line || has_prefix line (codes "c") || has_prefix line (codes "p")

abbrev pub is_end : Text → Bool
is_end line = has_prefix line (codes "%")

-- Does a line end the formula?
abbrev pub has_end : List Text → Bool
has_end = any (λ l. is_end (trim_space l))

-- The clauses of lines.
unfoldable pub line_clauses : List Text → List Clause
unfolding literals
line_clauses [] = []
line_clauses (l ∷ ls) =
    let line = trim_space l in
    let rest = line_clauses ls in
    if no_clause line then rest else if is_end line then [] else literals (fields line) ∷ rest

-- The formula of a file.
unfoldable pub formula : Text → List Clause
unfolding line_clauses
formula file = line_clauses (split_lines file)
