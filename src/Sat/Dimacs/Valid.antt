-- ===== src/Sat/Dimacs/Valid.antt =====
-- `ValidateDIMACS` accepts just the files of the format.
use satfarm.Prelude.{
  ℕ, ◌+◌, ◌≡◌, refl, ◌↔◌, inl, inr, Bool, true, false, List, [], ◌∷◌, ok, Result-cases, arith,
  Bool-cases, sym, ◌∙◌,
}
use satfarm.Text.{Text, trim_space, fields, scan_lines}
use satfarm.Sat.Dimacs.{
  Checker, start, is_skipped, parse_header, check_content, check_lines, long_limit, validate_dimacs,
}
use satfarm.Sat.Dimacs.Header.{parse_header-IsHeader, IsHeader-parse_header}
use satfarm.Sat.Dimacs.Tokens.{parse_int-Fits}
use satfarm.Sat.Dimacs.Loop.{
  check_lines-cons, check_line_skipped, check_line-check_content, next_line, ok-injective,
  check_lines-IsBody, IsBody-check_lines, check_lines_step,
}
use satfarm.Sat.Dimacs.Spec.{content, Splits, IsDimacs}

abbrev with_counts : ℕ → ℕ → Checker → Checker
with_counts n m c = record c { seen_header = true; num_vars = n; num_clauses = m }

-- What the loop does of a line before the header.
before_header :
    (c : Checker) (line : Text) {c' : Checker}
    → c.seen_header ≡ false
    → check_content c line ≡ ok c'
    → (n : ℕ) × (m : ℕ) × (parse_header c.line_no line (fields line) ≡ ok (n, m))
      × (c' ≡ with_counts n m c)
unfolding check_content
before_header c line s h = elim (Result-cases (parse_header c.line_no line (fields line))) [
  | inl ((n, m), e) ↦ (n, m, e, ground (arith, e))
  | inr (x, e) ↦ ground (arith, e)
]

header_content :
    (c : Checker) (line : Text) {n m : ℕ}
    → c.seen_header ≡ false
    → parse_header c.line_no line (fields line) ≡ ok (n, m)
    → check_content c line ≡ ok (with_counts n m c)
unfolding check_content
header_content c line s e = ground (arith, e)

check_lines-Splits :
    (ls : List Text) (c : Checker) (long : Bool)
    → c.seen_header ≡ false
    → c.seen_clauses ≡ 0
    → check_lines c ls long ≡ ok tt
    → (n : ℕ) × (m : ℕ) × Splits n m (content ls) × (long ≡ false)
unfolding content
check_lines-Splits [] c long s z h = unfold check_lines in ground arith
check_lines-Splits (l ∷ ls) c long s z h =
    let (c', e, later) = check_lines-cons c l ls long h in
    elim (Bool-cases (is_skipped (trim_space l))) [
      | inl skip ↦
          let same = ok-injective c' (next_line c) (sym e ∙ check_line_skipped c l skip) in
          rw skip (check_lines-Splits ls (next_line c) long s z (rw same at later))
      | inr line ↦
          let t = trim_space l in
          let e' = sym (check_line-check_content c l line) ∙ e in
          let (n, m, read, same) = before_header (next_line c) t s e' in
          let (hdr, small) = parse_header-IsHeader (c.line_no + 1) t (fields t) refl read in
          let d = with_counts n m (next_line c) in
          let (body, fits) = check_lines-IsBody ls d long refl small (rw same at later) in
          (
            n,
            m,
            record {
              header = t;
              body = content ls;
              splits = rw line;
              header_line = hdr;
              clause_lines = rw z at body;
            },
            fits,
          )
    ]

Splits-check_lines :
    (n m : ℕ) (ls : List Text) (c : Checker)
    → c.seen_header ≡ false
    → c.seen_clauses ≡ 0
    → Splits n m (content ls)
    → check_lines c ls false ≡ ok tt
unfolding content
Splits-check_lines n m [] c s z f = absurd (let e = f.splits in ground arith)
Splits-check_lines n m (l ∷ ls) c s z f = elim (Bool-cases (is_skipped (trim_space l))) [
  | inl skip ↦
      check_lines_step c l ls (next_line c) (check_line_skipped c l skip)
        (Splits-check_lines n m ls (next_line c) s z (rw skip at f))
  | inr line ↦
      let t = trim_space l in
      let e = rw line at f.splits in
      let same : f.header ≡ t = cc in
      let rest : f.body ≡ content ls = cc in
      let hdr = rw same at f.header_line in
      let read = IsHeader-parse_header (c.line_no + 1) t hdr in
      let small = parse_int-Fits hdr.vars hdr.vars_read in
      let d = with_counts n m (next_line c) in
      check_lines_step c l ls d
        (check_line-check_content c l line ∙ header_content (next_line c) t s read)
        (IsBody-check_lines ls d refl small.0 (rw (← z) at (rw rest at f.clause_lines)))
]

-- The validator accepts a file exactly when it is a file of the format, with the counts that its
-- header gives.
pub validate_dimacs-IsDimacs :
    (file : Text) → (validate_dimacs file ≡ ok tt) ↔ ((n : ℕ) × (m : ℕ) × IsDimacs n m file)
unfolding validate_dimacs
validate_dimacs-IsDimacs file =
    let s = scan_lines long_limit file in
    (
      λ h.
          let (n, m, f, fits) = check_lines-Splits s.lines start s.too_long refl refl h in
          (n, m, record { fits = fits; split = f }),
      λ (n, m, f). rw f.fits (Splits-check_lines n m s.lines start refl refl f.split),
    )
