-- ===== src/Ledger/Header.antt =====
-- The header reader of internal/grpc/balance.go, which wants a blank behind the 'p'.
use satfarm.Prelude.{ℕ, ◌+◌, Bool, ◌||◌, List, [], ◌∷◌, Result, err, is_empty, if◌then◌else◌}
use satfarm.Text.{Text, codes, trim_space, fields, has_prefix, scan_lines}
use satfarm.Sat.Dimacs.{DimacsError, too_long, missing_header, parse_header, long_limit}

unfoldable pub scan_header : ℕ → List Text → Bool → Result DimacsError (ℕ × ℕ)
scan_header line_no [] long = if long then err too_long else err missing_header
scan_header line_no (l ∷ ls) long =
    let line = trim_space l in
    let rest = scan_header (line_no + 1) ls long in
    if is_empty line || has_prefix line (codes "c")
    then rest
    else if has_prefix line (codes "p ")
    then parse_header (line_no + 1) line (fields line)
    else rest

unfoldable pub read_header : Text → Result DimacsError (ℕ × ℕ)
unfolding scan_header
read_header file = let s = scan_lines long_limit file in scan_header 0 s.lines s.too_long
