-- ===== src/Scheduler/Reported.antt =====
-- The model that `ParseKissatOutput` writes is the one that `parseAssignment` reads.
use satfarm.Prelude.{◌≡◌, refl, false, List, [], ◌∷◌, map, some, is_empty, All, arith}
use satfarm.Prelude.Int.{ℤ, pos, negsuc, Fits, to_int32}
use satfarm.Text.{Text, join, parse_int, itoa}
use satfarm.Text.Digits.{parse_int-itoa}
use satfarm.Text.Joined.{line_of, fields-line_of, first_of, last_of}
use satfarm.Text.Lines.{NoNewline}
use satfarm.Sat.Kissat.{sat, parse_kissat_output}
use satfarm.Sat.Kissat.Printed.{
  Line, printed, IsPrinted, printed_lits, printed_lits-Fits, parse_kissat_output-printed,
}
use satfarm.Text.Blanks.{trim_space_within}
use satfarm.Scheduler.{parse_literals, parse_assignment}

to_int32-Fits : (z : ℤ) → Fits 32 z → to_int32 z ≡ z
unfolding to_int32
to_int32-Fits (pos n) h = ground arith
to_int32-Fits (negsuc n) h = ground arith

parse_literals-cons :
    (p : Text) (ps : List Text) (n : ℤ) (ns : List ℤ)
    → parse_int p ≡ some n
    → parse_literals ps ≡ some ns
    → to_int32 n ≡ n
    → parse_literals (p ∷ ps) ≡ some (n ∷ ns)
unfolding parse_literals
parse_literals-cons p ps n ns e es same = cc

parse_literals-itoa :
    (lits : List ℤ) → All (Fits 32) lits → parse_literals (map itoa lits) ≡ some lits
unfolding parse_literals
parse_literals-itoa [] h = refl
parse_literals-itoa (z ∷ zs) h =
    let wide : Fits 64 z = (omega (arith, h.0.0), omega (arith, h.0.1)) in
    parse_literals-cons (itoa z) (map itoa zs) z zs (parse_int-itoa z wide)
      (parse_literals-itoa zs h.1) (to_int32-Fits z h.0)

pub parse_assignment-join :
    (z : ℤ) (zs : List ℤ)
    → All (Fits 32) (z ∷ zs)
    → parse_assignment (join (map itoa (z ∷ zs))) ≡ some (z ∷ zs)
unfolding parse_assignment
parse_assignment-join z zs fits =
    let (c, back, first, start) = first_of z zs in
    let (front, d, final, stop) = last_of z zs in
    let trimmed = trim_space_within (line_of (z ∷ zs)) front back c d first final start stop in
    let full : is_empty (line_of (z ∷ zs)) ≡ false = rw first refl in
    rw (trimmed, full, fields-line_of z zs) (parse_literals-itoa (z ∷ zs) fits)

-- A solver prints comments, the line `s SATISFIABLE`, and lines of 32-bit values, with comments among
-- them, and there is a literal among the values. Then `ParseKissatOutput` answers `sat` with a text
-- that `parseAssignment` reads as all these literals, in their order, without the zeros.
pub parse_assignment-printed :
    (before : List Text) (ls : List Line)
    → All NoNewline before
    → All IsPrinted ls
    → is_empty (printed_lits ls) ≡ false
    → (text : Text) × (parse_kissat_output (printed before ls) ≡ some (sat, text))
      × (parse_assignment text ≡ some (printed_lits ls))
parse_assignment-printed before ls h k some_lit = (
  join (map itoa (printed_lits ls)),
  parse_kissat_output-printed before ls h k,
  read_back (printed_lits ls) some_lit (printed_lits-Fits ls k),
)
  where
    read_back :
        (zs : List ℤ)
        → is_empty zs ≡ false
        → All (Fits 32) zs
        → parse_assignment (join (map itoa zs)) ≡ some zs
    read_back [] e f = absurd (cc)
    read_back (z ∷ zs) e f = parse_assignment-join z zs f
