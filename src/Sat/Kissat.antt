-- ===== src/Sat/Kissat.antt =====
-- internal/sat/kissat.go: what the solver's output is read as.
pub mod Printed
use satfarm.Prelude.{List, [], ◌∷◌, ◌++◌, map, Option, none, some, if◌then◌else◌}
use satfarm.Prelude.Int.{ℤ, pos, eqb_ℤ}
use satfarm.Text.{
  Text, codes, trim_space, fields, has_prefix, parse_int, itoa, contains, split_on, join,
}

pub data Status : Type 0 where
  unknown sat unsat : Status

-- The variables of the loop.
pub record Output : Type 0 where
  pub status : Status
  pub model_lits : List ℤ

abbrev status_line : Status → Text → Status
status_line old line =
    if contains (codes "UNSAT") line
    then unsat
    else if contains (codes "SAT") line
    then sat
    else old

-- The literals of a "v " line: the words behind the first that are integers other than zero.
unfoldable pub value_lits : List Text → List ℤ
value_lits [] = []
value_lits (w ∷ ws) =
    let rest = value_lits ws in
    elim (parse_int w) [ none ↦ rest | some n ↦ if eqb_ℤ n (pos 0) then rest else n ∷ rest ]

abbrev rest_of : List Text → List Text
rest_of [] = []
rest_of (w ∷ ws) = ws

-- One round of the loop.
unfoldable pub read_output_line : Output → Text → Output
unfolding value_lits
read_output_line o l =
    let line = trim_space l in
    record {
      status = if has_prefix line (codes "s ") then status_line o.status line else o.status;
      model_lits =
          if has_prefix line (codes "v ")
          then o.model_lits ++ value_lits (rest_of (fields line))
          else o.model_lits;
    }

unfoldable pub read_output : Output → List Text → Output
unfolding read_output_line
read_output o [] = o
read_output o (l ∷ ls) = read_output (read_output_line o l) ls

-- What `ParseKissatOutput` returns: `none` is its error, and the model is a text.
abbrev pub report : Output → Option (Status × Text)
report o = elim o.status [
  | unknown ↦ none
  | sat ↦ some (sat, join (map itoa o.model_lits))
  | unsat ↦ some (unsat, [])
]

unfoldable pub parse_kissat_output : Text → Option (Status × Text)
unfolding read_output
parse_kissat_output out =
    report (read_output (record { status = unknown; model_lits = [] }) (split_on b'\n' out))
