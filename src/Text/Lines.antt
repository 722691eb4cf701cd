-- ===== src/Text/Lines.antt =====
-- Lines that are read, and lines that are written and read again.
use satfarm.Prelude.{
  ℕ, ◌≤◌, ◌≡◌, refl, inl, inr, true, false, ◌&&◌, List, [], ◌∷◌, ◌++◌, is_empty, arith, ltb, ◌==◌,
  Bool-cases, ap, ◌∙◌, All,
}
use satfarm.Text.Words.{Text, is_space, trim_left, trim_right, trim_space}
use satfarm.Text.Scanner.{
  byte_len, extend_line, split_lines, drop_cr, Scan, scan_within, scan_lines, unlines,
}

-- A scanner with more room reads the same lines, if none was too long.
pub scan_within_mono :
    (a b : ℕ) (ls : List Text)
    → a ≤ b
    → (scan_within a ls).too_long ≡ false
    → scan_within b ls ≡ scan_within a ls
unfolding scan_within
scan_within_mono a b [] le h = refl
scan_within_mono a b (l ∷ ls) le h = elim (Bool-cases (ltb (byte_len l) a)) [
  | inl fits ↦
      let wider : ltb (byte_len l) b ≡ true = ground arith in
      rw (fits, wider)
        (ap (λ (s : Scan). record { lines = drop_cr l ∷ s.lines; too_long = s.too_long })
          (scan_within_mono a b ls le (rw fits at h)))
  | inr long ↦ ground arith
]

abbrev pub NoNewline : Text → Type 0
NoNewline = All (λ c. (c == b'\n') ≡ false)

split_lines_line :
    (l rest : Text) → NoNewline l → split_lines (l ++ (b'\n' ∷ rest)) ≡ l ∷ split_lines rest
unfolding split_lines
split_lines_line [] rest h = refl
split_lines_line (c ∷ l) rest h = rw (h.0, split_lines_line l rest h.1)

-- The lines that `Fprintln` writes are the lines of the file.
pub split_lines-unlines : (ls : List Text) → All NoNewline ls → split_lines (unlines ls) ≡ ls
unfolding unlines
split_lines-unlines [] h = unfold split_lines in refl
split_lines-unlines (l ∷ ls) h =
    split_lines_line l (unlines ls) h.0 ∙ ap (λ r. l ∷ r) (split_lines-unlines ls h.1)

extend_line-NoNewline :
    (c : ℕ) (ls : List Text)
    → (c == b'\n') ≡ false
    → All NoNewline ls
    → All NoNewline (extend_line c ls)
extend_line-NoNewline c [] n h = ((n, tt), tt)
extend_line-NoNewline c (l ∷ ls) n h = ((n, h.0), h.1)

-- A line that is read holds no newline.
pub split_lines-NoNewline : (s : Text) → All NoNewline (split_lines s)
unfolding split_lines
split_lines-NoNewline [] = tt
split_lines-NoNewline (c ∷ s) = elim (Bool-cases (c == b'\n')) [
  | inl e ↦ rw e (tt, split_lines-NoNewline s)
  | inr e ↦ rw e (extend_line-NoNewline c (split_lines s) e (split_lines-NoNewline s))
]

trim_right-drop_cr : (s : Text) → trim_right (drop_cr s) ≡ trim_right s
unfolding drop_cr trim_right
trim_right-drop_cr [] = refl
trim_right-drop_cr (c ∷ s) = elim (Bool-cases (c == b'\r' && is_empty s)) [
  | inl e ↦ rw e (dropped c s e)
  | inr e ↦ rw e (rw (trim_right-drop_cr s))
]
  where
    dropped : (c : ℕ) (s : Text) → (c == b'\r' && is_empty s) ≡ true → [] ≡ trim_right (c ∷ s)
    dropped c [] e = let r : c ≡ 13 = ground arith in unfold is_space in rw r
    dropped c (d ∷ s) e = ground arith

-- A carriage return at the end of a line is white space to the code that reads the line.
pub trim_space-drop_cr : (s : Text) → trim_space (drop_cr s) ≡ trim_space s
unfolding trim_space
trim_space-drop_cr s = ap trim_left (trim_right-drop_cr s)

drop_cr-NoNewline : (l : Text) → NoNewline l → NoNewline (drop_cr l)
unfolding drop_cr
drop_cr-NoNewline [] h = tt
drop_cr-NoNewline (c ∷ l) h = elim (Bool-cases (c == b'\r' && is_empty l)) [
  | inl e ↦ rw e tt
  | inr e ↦ rw e (h.0, drop_cr-NoNewline l h.1)
]

scan_within-NoNewline :
    (limit : ℕ) (ls : List Text) → All NoNewline ls → All NoNewline (scan_within limit ls).lines
unfolding scan_within
scan_within-NoNewline limit [] h = tt
scan_within-NoNewline limit (l ∷ ls) h = elim (Bool-cases (ltb (byte_len l) limit)) [
  | inl e ↦ rw e (drop_cr-NoNewline l h.0, scan_within-NoNewline limit ls h.1)
  | inr e ↦ rw e tt
]

pub scan_lines-NoNewline : (limit : ℕ) (s : Text) → All NoNewline (scan_lines limit s).lines
unfolding scan_lines
scan_lines-NoNewline limit s = scan_within-NoNewline limit (split_lines s) (split_lines-NoNewline s)
