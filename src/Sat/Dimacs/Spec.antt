-- ===== src/Sat/Dimacs/Spec.antt =====
-- What a file of the accepted format is, with no reference to the loop that checks it.
use satfarm.Prelude.{
  ℕ, ◌+◌, ◌-◌, ◌≤◌, ◌≡◌, false, List, [], ◌∷◌, some, length, take, ◌==◌, if◌then◌else◌, All,
}
use satfarm.Prelude.Int.{ℤ, pos}
use satfarm.Text.{Text, codes, trim_space, fields, parse_int, scan_lines}
use satfarm.Sat.Dimacs.{is_skipped, long_limit}
use satfarm.Sat.Cube.Bounds.{Within}

-- The tokens of a clause line: literals of the variables 1 to `n`, and a zero at the end.
pub data IsClause (n : ℕ) : List Text → Type 0 where
  final : {tok : Text} → parse_int tok ≡ some (pos 0) → IsClause n (tok ∷ [])
  literal :
      {tok : Text} {toks : List Text} (z : ℤ)
      → parse_int tok ≡ some z
      → Within n z
      → IsClause n toks
      → IsClause n (tok ∷ toks)

-- The trimmed lines that are no comments.
unfoldable pub content : List Text → List Text
content [] = []
content (l ∷ ls) = if is_skipped (trim_space l) then content ls else trim_space l ∷ content ls

-- The lines that the header's count asks for: all of them, if the count is zero.
abbrev pub needed : ℕ → ℕ → List Text → List Text
needed m seen ls = if m == 0 then ls else take (m - seen) ls

-- With `seen` clauses read, what the lines behind them must be.
pub record IsBody (n m seen : ℕ) (ls : List Text) : Type 0 where
  pub clauses : All (λ l. IsClause n (fields l)) (needed m seen ls)
  pub complete : m ≤ seen + length ls

pub record IsHeader (n m : ℕ) (line : Text) : Type 0 where
  pub vars : Text
  pub count : Text
  pub words : fields line ≡ codes "p" ∷ codes "cnf" ∷ vars ∷ count ∷ []
  pub vars_read : parse_int vars ≡ some (pos n)
  pub count_read : parse_int count ≡ some (pos m)
  pub positive : 1 ≤ n

-- Contents that are a header and the clauses that it announces.
pub record Splits (n m : ℕ) (ls : List Text) : Type 0 where
  pub header : Text
  pub body : List Text
  pub splits : ls ≡ header ∷ body
  pub header_line : IsHeader n m header
  pub clause_lines : IsBody n m 0 body

-- A file with `n` variables and `m` clauses.
pub record IsDimacs (n m : ℕ) (file : Text) : Type 0 where
  pub fits : (scan_lines long_limit file).too_long ≡ false
  pub split : Splits n m (content (scan_lines long_limit file).lines)
