-- ===== src/Sat/Kissat/Printed.antt =====
-- What a solver prints of a model, and what `ParseKissatOutput` makes of it.
use satfarm.Prelude.{
  ◌≡◌, refl, ap, ◌∙◌, List, [], ◌∷◌, ◌++◌, append_assoc, append-nil, map, some, All, All-append,
  Bool-cases, inl, inr, if◌then◌else◌, arith,
}
use satfarm.Prelude.Int.{ℤ, pos, eqb_ℤ, Fits}
use satfarm.Text.{
  Text, codes, join, itoa, unlines, split_on, trim_space, fields, has_prefix, is_space,
}
use satfarm.Text.Digits.{parse_int-itoa}
use satfarm.Text.Lines.{NoNewline}
use satfarm.Text.Plain.{trim_space_head}
use satfarm.Text.Blanks.{trim_space_within}
use satfarm.Text.Joined.{line_of, fields-line_of, last_of, line_of-NoNewline}
use satfarm.Sat.Kissat.{
  Output, unknown, sat, value_lits, read_output_line, read_output, report, parse_kissat_output,
}

-- A line of the output behind the status: a comment, or values.
pub data Line : Type 0 where
  comment : Text → Line
  values : ℤ → List ℤ → Line

abbrev pub line_text : Line → Text
line_text (comment t) = b'c' ∷ t
line_text (values z zs) = codes "v " ++ line_of (z ∷ zs)

abbrev pub comment_text : Text → Text
comment_text t = b'c' ∷ t

-- Comments, the line `s SATISFIABLE`, and lines of values between comments.
abbrev pub printed : List Text → List Line → Text
printed before ls = unlines (map comment_text before ++ codes "s SATISFIABLE" ∷ map line_text ls)

-- A comment is one line, and a value is a 32-bit integer.
abbrev pub IsPrinted : Line → Type 0
IsPrinted (comment t) = NoNewline t
IsPrinted (values z zs) = All (Fits 32) (z ∷ zs)

abbrev pub non_zero : List ℤ → List ℤ
non_zero [] = []
non_zero (z ∷ zs) = if eqb_ℤ z (pos 0) then non_zero zs else z ∷ non_zero zs

-- The literals of all value lines, in their order; a zero is none.
abbrev pub printed_lits : List Line → List ℤ
printed_lits [] = []
printed_lits (comment t ∷ ls) = printed_lits ls
printed_lits (values z zs ∷ ls) = non_zero (z ∷ zs) ++ printed_lits ls

value_lits-itoa : (zs : List ℤ) → All (Fits 32) zs → value_lits (map itoa zs) ≡ non_zero zs
unfolding value_lits
value_lits-itoa [] h = refl
value_lits-itoa (z ∷ zs) h =
    let wide : Fits 64 z = (omega (arith, h.0.0), omega (arith, h.0.1)) in
    rw (parse_int-itoa z wide, value_lits) (rw (value_lits-itoa zs h.1) refl)

read_comment : (o : Output) (t : Text) → read_output_line o (b'c' ∷ t) ≡ o
unfolding read_output_line has_prefix
read_comment o t = let (s, e) = trim_space_head b'c' t (unfold is_space in refl) in rw e refl

read_values :
    (o : Output) (z : ℤ) (zs : List ℤ)
    → All (Fits 32) (z ∷ zs)
    → read_output_line o (codes "v " ++ line_of (z ∷ zs))
      ≡ record o { model_lits = o.model_lits ++ non_zero (z ∷ zs) }
unfolding read_output_line has_prefix
read_values o z zs fits =
    let line = line_of (z ∷ zs) in
    let (front, d, final, stop) = last_of z zs in
    let trimmed : trim_space (codes "v " ++ line) ≡ codes "v " ++ line =
      trim_space_within (codes "v " ++ line) (codes "v " ++ front) (b' ' ∷ line) b'v' d refl
        (ap (λ x. codes "v " ++ x) final) (unfold is_space in refl) stop in
    let words : fields (codes "v " ++ line) ≡ codes "v" ∷ map itoa (z ∷ zs) =
      unfold fields is_space in ap (λ ws. codes "v" ∷ ws) (fields-line_of z zs) in
    rw (trimmed, words, value_lits-itoa (z ∷ zs) fits) refl

split_line :
    (l rest : Text) → NoNewline l → split_on b'\n' (l ++ (b'\n' ∷ rest)) ≡ l ∷ split_on b'\n' rest
unfolding split_on
split_line [] rest h = refl
split_line (c ∷ l) rest h = rw (h.0, split_line l rest h.1) refl

split_lines_printed :
    (ls : List Text) → All NoNewline ls → split_on b'\n' (unlines ls) ≡ ls ++ [] ∷ []
unfolding unlines split_on
split_lines_printed [] h = refl
split_lines_printed (l ∷ ls) h =
    split_line l (unlines ls) h.0 ∙ ap (λ r. l ∷ r) (split_lines_printed ls h.1)

read_last : (o : Output) → read_output o ([] ∷ []) ≡ o
unfolding read_output read_output_line has_prefix trim_space satfarm.Text.trim_left
    satfarm.Text.trim_right
read_last o = refl

-- What is read of the lines behind the status.
read_output-lines :
    (o : Output) (ls : List Line)
    → All IsPrinted ls
    → read_output o (map line_text ls ++ [] ∷ [])
      ≡ record o { model_lits = o.model_lits ++ printed_lits ls }
unfolding read_output
read_output-lines o [] h = read_last o ∙ rw (append-nil o.model_lits) refl
read_output-lines o (comment t ∷ ls) h =
    ap (λ x. read_output x (map line_text ls ++ [] ∷ [])) (read_comment o t)
    ∙ read_output-lines o ls h.1
read_output-lines o (values z zs ∷ ls) h =
    ap (λ x. read_output x (map line_text ls ++ [] ∷ [])) (read_values o z zs h.0)
    ∙ read_output-lines (record o { model_lits = o.model_lits ++ non_zero (z ∷ zs) }) ls h.1
    ∙ (rw (append_assoc o.model_lits (non_zero (z ∷ zs)) (printed_lits ls)) refl)

read_status : (o : Output) → read_output_line o (codes "s SATISFIABLE") ≡ record o { status = sat }
unfolding read_output_line has_prefix trim_space satfarm.Text.trim_left satfarm.Text.trim_right
    is_space satfarm.Text.contains
read_status o = refl

read_output-comments :
    (o : Output) (before rest : List Text)
    → read_output o (map comment_text before ++ rest) ≡ read_output o rest
unfolding read_output
read_output-comments o [] rest = refl
read_output-comments o (t ∷ ts) rest =
    ap (λ x. read_output x (map comment_text ts ++ rest)) (read_comment o t)
    ∙ read_output-comments o ts rest

line_text-NoNewline : (ls : List Line) → All IsPrinted ls → All NoNewline (map line_text ls)
line_text-NoNewline [] h = tt
line_text-NoNewline (comment t ∷ ls) h = ((refl, h.0), line_text-NoNewline ls h.1)
line_text-NoNewline (values z zs ∷ ls) h =
    ((refl, (refl, line_of-NoNewline z zs)), line_text-NoNewline ls h.1)

comment_text-NoNewline : (ts : List Text) → All NoNewline ts → All NoNewline (map comment_text ts)
comment_text-NoNewline [] h = tt
comment_text-NoNewline (t ∷ ts) h = ((refl, h.0), comment_text-NoNewline ts h.1)

status-NoNewline : NoNewline (codes "s SATISFIABLE")
status-NoNewline = (
  refl,
  (
    refl,
    (refl, (refl, (refl, (refl, (refl, (refl, (refl, (refl, (refl, (refl, (refl, tt))))))))))),
  ),
)

-- What `ParseKissatOutput` makes of the output for a model: all its literals, in a text.
pub parse_kissat_output-printed :
    (before : List Text) (ls : List Line)
    → All NoNewline before
    → All IsPrinted ls
    → parse_kissat_output (printed before ls) ≡ some (sat, join (map itoa (printed_lits ls)))
unfolding parse_kissat_output read_output
parse_kissat_output-printed before ls h k =
    let all =
      All-append NoNewline (map comment_text before) (codes "s SATISFIABLE" ∷ map line_text ls)
        (comment_text-NoNewline before h) (status-NoNewline, line_text-NoNewline ls k) in
    let start : Output = record { status = unknown; model_lits = [] } in
    ap (λ x. report (read_output start x))
      (split_lines_printed _ all
        ∙ append_assoc (map comment_text before) (codes "s SATISFIABLE" ∷ map line_text ls)
            ([] ∷ []))
    ∙ ap report (
        read_output-comments start before _
        ∙ ap (λ x. read_output x (map line_text ls ++ [] ∷ [])) (read_status start)
        ∙ read_output-lines _ ls k)

non_zero-Fits : (zs : List ℤ) → All (Fits 32) zs → All (Fits 32) (non_zero zs)
non_zero-Fits [] h = tt
non_zero-Fits (z ∷ zs) h = elim (Bool-cases (eqb_ℤ z (pos 0))) [
  | inl zero_here ↦ rw zero_here (non_zero-Fits zs h.1)
  | inr other ↦ rw other (h.0, non_zero-Fits zs h.1)
]

pub printed_lits-Fits : (ls : List Line) → All IsPrinted ls → All (Fits 32) (printed_lits ls)
printed_lits-Fits [] h = tt
printed_lits-Fits (comment t ∷ ls) h = printed_lits-Fits ls h.1
printed_lits-Fits (values z zs ∷ ls) h =
    All-append (Fits 32) (non_zero (z ∷ zs)) (printed_lits ls) (non_zero-Fits (z ∷ zs) h.0)
      (printed_lits-Fits ls h.1)
