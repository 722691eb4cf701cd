-- ===== src/Sat/Dimacs/Agree.antt =====
-- The three readers of the header agree on a file that the validator accepts.
use satfarm.Prelude.{
  ℕ, ◌+◌, ◌≡◌, refl, inl, inr, Bool, true, false, ◌||◌, List, [], ◌∷◌, ok, is_empty, arith,
  Bool-cases, ◌∙◌,
}
use satfarm.Prelude.Int.{ℤ, pos}
use satfarm.Text.{
  Text, codes, trim_space, fields, has_prefix, scan_within, split_lines, scan_lines, default_limit,
}
use satfarm.Text.Spaces.{trim_space_first}
use satfarm.Text.Lines.{scan_within_mono}
use satfarm.Sat.Cube.{num_vars_of, num_vars_loop, read_num_vars, generate_cubes, cubes_for}
use satfarm.Sat.Dimacs.{
  is_skipped, parse_header, header_loop, read_dimacs_header, long_limit, validate_dimacs,
}
use satfarm.Sat.Dimacs.Header.{IsHeader-parse_header}
use satfarm.Sat.Dimacs.Valid.{validate_dimacs-IsDimacs}
use satfarm.Sat.Dimacs.Spec.{content, Splits, IsHeader, IsDimacs}

-- A trimmed line whose first word is "p" begins with a 'p'.
p_line :
    (l : Text) (ws : List Text)
    → fields (trim_space l) ≡ codes "p" ∷ ws
    → (t : Text) × (trim_space l ≡ b'p' ∷ t)
p_line l ws h = trim_space_first l b'p' [] ws h

skipped_no_p : (s : Text) → is_skipped s ≡ true → has_prefix s (codes "p") ≡ false
unfolding has_prefix
skipped_no_p [] h = refl
skipped_no_p (c ∷ s) h = ground arith

header_loop_skipped :
    (k : ℕ) (l : Text) (ls : List Text) (long : Bool)
    → has_prefix (trim_space l) (codes "p") ≡ false
    → header_loop k (l ∷ ls) long ≡ header_loop (k + 1) ls long
unfolding header_loop
header_loop_skipped k l ls long h =
    rw h (elim (Bool-cases (is_empty (trim_space l) || has_prefix (trim_space l) (codes "c"))) [
      | inl e ↦ rw e
      | inr e ↦ rw e
    ])

header_loop_header :
    (k : ℕ) (l : Text) (ls : List Text) (long : Bool) (t : Text)
    → trim_space l ≡ b'p' ∷ t
    → header_loop k (l ∷ ls) long ≡ parse_header (k + 1) (trim_space l) (fields (trim_space l))
unfolding header_loop has_prefix
header_loop_header k l ls long t e = rw (e, header_loop)

module _ (n m : ℕ) (long : Bool) where
  header_loop-content :
      (k : ℕ) (ls : List Text) → Splits n m (content ls) → header_loop k ls long ≡ ok (n, m)
  unfolding header_loop content
  header_loop-content k [] f = absurd (let e = f.splits in ground arith)
  header_loop-content k (l ∷ ls) f = elim (Bool-cases (is_skipped (trim_space l))) [
    | inl skip ↦
        header_loop_skipped k l ls long (skipped_no_p (trim_space l) skip)
        ∙ header_loop-content (k + 1) ls (rw skip at f)
    | inr line ↦
        let e = rw line at f.splits in
        let same : f.header ≡ trim_space l = cc in
        let hdr = rw same at f.header_line in
        let (t, p) = p_line l _ hdr.words in
        header_loop_header k l ls long t p ∙ IsHeader-parse_header (k + 1) (trim_space l) hdr
  ]

-- `ReadDimacsHeader` returns the counts of a file that the validator accepts.
pub read_dimacs_header-validate :
    (file : Text)
    → validate_dimacs file ≡ ok tt
    → (n : ℕ) × (m : ℕ) × IsDimacs n m file × (read_dimacs_header file ≡ ok (n, m))
unfolding read_dimacs_header
read_dimacs_header-validate file h =
    let (n, m, d) = (validate_dimacs-IsDimacs file).0 h in
    let s = scan_lines long_limit file in
    (n, m, d, header_loop-content n m s.too_long 0 s.lines d.split)

num_vars_loop_skipped :
    (l : Text) (ls : List Text) (long : Bool)
    → has_prefix (trim_space l) (codes "p") ≡ false
    → num_vars_loop (l ∷ ls) long ≡ num_vars_loop ls long
unfolding num_vars_loop
num_vars_loop_skipped l ls long h = rw h

num_vars_loop_header :
    (l : Text) (ls : List Text) (long : Bool) (t : Text)
    → trim_space l ≡ b'p' ∷ t
    → num_vars_loop (l ∷ ls) long ≡ num_vars_of (fields (trim_space l)) (trim_space l)
unfolding num_vars_loop has_prefix
num_vars_loop_header l ls long t e = rw (e, num_vars_loop)

num_vars_of-IsHeader :
    {n m : ℕ} (line : Text) → IsHeader n m line → num_vars_of (fields line) line ≡ ok (pos n)
num_vars_of-IsHeader line h = rw h.words (rw (h.vars_read, num_vars_of))

num_vars_loop-content :
    (n m : ℕ) (ls : List Text) (long : Bool)
    → Splits n m (content ls)
    → num_vars_loop ls long ≡ ok (pos n)
unfolding content
num_vars_loop-content n m [] long f = absurd (let e = f.splits in ground arith)
num_vars_loop-content n m (l ∷ ls) long f = elim (Bool-cases (is_skipped (trim_space l))) [
  | inl skip ↦
      num_vars_loop_skipped l ls long (skipped_no_p (trim_space l) skip)
      ∙ num_vars_loop-content n m ls long (rw skip at f)
  | inr line ↦
      let e = rw line at f.splits in
      let same : f.header ≡ trim_space l = cc in
      let hdr = rw same at f.header_line in
      let (t, p) = p_line l _ hdr.words in
      num_vars_loop_header l ls long t p ∙ num_vars_of-IsHeader (trim_space l) hdr
]

generate_cubes_read :
    (file : Text) (max_workers : ℤ) {z : ℤ}
    → read_num_vars file ≡ ok z
    → generate_cubes file max_workers ≡ ok (cubes_for max_workers z)
unfolding generate_cubes
generate_cubes_read file w e = rw (e, generate_cubes)

-- For an accepted file with no line of 64 KiB or more, `GenerateCubesForMaxWorkersCeil` succeeds,
-- and splits on the variables that `ReadDimacsHeader` reports.
pub generate_cubes-validate :
    (file : Text) (max_workers : ℤ)
    → validate_dimacs file ≡ ok tt
    → (scan_lines default_limit file).too_long ≡ false
    → (n : ℕ) × (m : ℕ) × (read_dimacs_header file ≡ ok (n, m))
      × (generate_cubes file max_workers ≡ ok (cubes_for max_workers (pos n)))
unfolding read_num_vars scan_lines
generate_cubes-validate file w h short =
    let (n, m, d, hdr) = read_dimacs_header-validate file h in
    let same = scan_within_mono default_limit long_limit (split_lines file) (omega arith) short in
    let f = rw same at d.split in
    let s = scan_within default_limit (split_lines file) in
    (n, m, hdr, generate_cubes_read file w (num_vars_loop-content n m s.lines s.too_long f))
