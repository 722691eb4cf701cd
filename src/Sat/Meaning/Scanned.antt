-- ===== src/Sat/Meaning/Scanned.antt =====
-- The lines that a scanner hands out stand for the same formula as the file.
use satfarm.Prelude.{
  ℕ, ◌≡◌, refl, ◌⊎◌, inl, inr, Bool, true, false, List, [], ◌∷◌, arith, ltb, if◌then◌else◌,
  Bool-cases, ap, All,
}
use satfarm.Text.{
  Text, trim_space, fields, has_prefix, scan_within, scan_lines, split_lines, unlines, drop_cr,
  byte_len,
}
use satfarm.Text.Lines.{NoNewline, trim_space-drop_cr, split_lines-unlines}
use satfarm.Sat.Cnf.{Clause}
use satfarm.Sat.Meaning.{no_clause, is_end, has_end, literals, line_clauses, formula}

-- The lines that `sc.Scan()` handed out are all lines, or an end mark stands among them.
abbrev pub IsRead : List Text → Bool → Type 0
IsRead ls long = (long ≡ false) ⊎ (has_end ls ≡ true)

-- A line counts by what is left when it is trimmed.
line_clauses_trim :
    (k l : Text) (ks ls : List Text)
    → trim_space k ≡ trim_space l
    → (is_end (trim_space l) ≡ true) ⊎ (line_clauses ks ≡ line_clauses ls)
    → line_clauses (k ∷ ks) ≡ line_clauses (l ∷ ls)
unfolding line_clauses has_prefix
line_clauses_trim k l ks ls e (inr same) = rw (e, same)
line_clauses_trim k l ks ls e (inl stop) =
    rw e (ended (trim_space l) (line_clauses ks) (line_clauses ls) stop)
  where
    ended :
        (t : Text) (a b : List Clause)
        → is_end t ≡ true
        → (if no_clause t then a else if is_end t then [] else literals (fields t) ∷ a)
          ≡ (if no_clause t then b else if is_end t then [] else literals (fields t) ∷ b)
    ended [] a b h = cc
    ended (c ∷ t) a b h = ground arith

-- An end mark hides all that follows.
pub line_clauses_end :
    (l : Text) (ls : List Text) → is_end (trim_space l) ≡ true → line_clauses (l ∷ ls) ≡ []
unfolding line_clauses has_prefix
line_clauses_end l ls h = ended (trim_space l) h
  where
    ended :
        (t : Text)
        → is_end t ≡ true
        → (if no_clause t
            then line_clauses ls
            else if is_end t
            then []
            else literals (fields t) ∷ line_clauses ls)
          ≡ []
    ended [] h = cc
    ended (c ∷ t) h = ground arith

scan_within-line_clauses :
    (limit : ℕ) (ls : List Text)
    → IsRead (scan_within limit ls).lines (scan_within limit ls).too_long
    → line_clauses (scan_within limit ls).lines ≡ line_clauses ls
unfolding scan_within
scan_within-line_clauses limit [] h = refl
scan_within-line_clauses limit (l ∷ ls) h = elim (Bool-cases (ltb (byte_len l) limit)) [
  | inr long ↦ ground (arith, h)
  | inl fits ↦ rw fits (elim (Bool-cases (is_end (trim_space l))) [
    | inl stop ↦ line_clauses_trim (drop_cr l) l _ ls (trim_space-drop_cr l) (inl stop)
    | inr go_on ↦
        line_clauses_trim (drop_cr l) l _ ls (trim_space-drop_cr l)
          (inr (scan_within-line_clauses limit ls (later _ _ go_on (rw fits at h))))
  ])
]
  where
    later :
        (long : Bool) (ks : List Text)
        → is_end (trim_space l) ≡ false
        → IsRead (drop_cr l ∷ ks) long
        → IsRead ks long
    later long ks no_end (inl e) = inl e
    later long ks no_end (inr e) = inr (rw (trim_space-drop_cr l, no_end) at e)

-- What a loop over the scanner reads to the end, or to an end mark, is the formula of the file.
pub scan_lines-formula :
    (limit : ℕ) (file : Text)
    → IsRead (scan_lines limit file).lines (scan_lines limit file).too_long
    → line_clauses (scan_lines limit file).lines ≡ formula file
unfolding scan_lines formula
scan_lines-formula limit file h = scan_within-line_clauses limit (split_lines file) h

-- Lines that are written stand for the clauses that they hold.
pub formula-unlines : (ls : List Text) → All NoNewline ls → formula (unlines ls) ≡ line_clauses ls
unfolding formula
formula-unlines ls h = ap line_clauses (split_lines-unlines ls h)
