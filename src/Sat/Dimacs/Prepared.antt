-- ===== src/Sat/Dimacs/Prepared.antt =====
-- What `PrepareCNFForSolving` writes: the same formula, with no end mark in it.
use satfarm.Prelude.{
  Bool, true, Option-cases, ◌≡◌, refl, inl, inr, false, List, [], ◌∷◌, some, Bool-cases, ◌∙◌, sym,
  All,
}
use satfarm.Text.{Text, trim_space, scan_lines, split_lines, unlines, default_limit}
use satfarm.Text.Lines.{NoNewline, split_lines-unlines, scan_lines-NoNewline}
use satfarm.Sat.Dimacs.{prepare_lines, prepare_cnf}
use satfarm.Sat.Meaning.{is_end, has_end, line_clauses, formula}
use satfarm.Sat.Meaning.Scanned.{IsRead, scan_lines-formula, line_clauses_end, formula-unlines}

line_clauses_nil : line_clauses [] ≡ []
unfolding line_clauses
line_clauses_nil = refl

line_clauses_cong :
    (l : Text) (ks ls : List Text)
    → line_clauses ks ≡ line_clauses ls
    → line_clauses (l ∷ ks) ≡ line_clauses (l ∷ ls)
unfolding line_clauses
line_clauses_cong l ks ls e = rw e

-- The lines that are kept, where the scanner reads them all.
prepare_lines-clauses :
    (ls : List Text)
    → All NoNewline ls
    → (out : List Text) × (prepare_lines ls false ≡ some out)
      × All NoNewline out
      × (has_end out ≡ false)
      × (line_clauses out ≡ line_clauses ls)
unfolding prepare_lines
prepare_lines-clauses [] n = ([], refl, tt, refl, refl)
prepare_lines-clauses (l ∷ ls) n = elim (Bool-cases (is_end (trim_space l))) [
  | inl stop ↦ ([], rw stop, tt, refl, line_clauses_nil ∙ sym (line_clauses_end l ls stop))
  | inr go_on ↦
      let (out, e, m, no_end, c) = prepare_lines-clauses ls n.1 in
      (l ∷ out, rw go_on (rw e), (n.0, m), rw go_on no_end, line_clauses_cong l out ls c)
]

prepare_cnf_lines :
    (file : Text) {out : List Text}
    → (scan_lines default_limit file).too_long ≡ false
    → prepare_lines (scan_lines default_limit file).lines false ≡ some out
    → prepare_cnf file ≡ some (unlines out)
unfolding prepare_cnf
prepare_cnf_lines file fits e = rw (fits, prepare_cnf) (rw e)

-- If its lines fit the scanner, a file is prepared, and what is written has the same formula, and no
-- line of it begins with an end mark.
pub prepare_cnf-formula :
    (file : Text)
    → (scan_lines default_limit file).too_long ≡ false
    → (out : Text) × (prepare_cnf file ≡ some out)
      × (formula out ≡ formula file)
      × (has_end (split_lines out) ≡ false)
prepare_cnf-formula file fits =
    let s = scan_lines default_limit file in
    let (out, e, n, no_end, c) =
      prepare_lines-clauses s.lines (scan_lines-NoNewline default_limit file) in
    (
      unlines out,
      prepare_cnf_lines file fits e,
      formula-unlines out n ∙ c ∙ scan_lines-formula default_limit file (inl fits),
      rw (split_lines-unlines out n) no_end,
    )

prepare_lines-IsRead :
    (ls : List Text) (long : Bool) {out : List Text}
    → prepare_lines ls long ≡ some out
    → (prepare_lines ls false ≡ some out) × IsRead ls long
unfolding prepare_lines
prepare_lines-IsRead [] true h = absurd (cc)
prepare_lines-IsRead [] false h = (h, inl refl)
prepare_lines-IsRead (l ∷ ls) long h = elim (Bool-cases (is_end (trim_space l))) [
  | inl stop ↦ let h' = rw stop at h in (rw stop h', inr (rw stop (refl)))
  | inr go_on ↦ elim (Option-cases (prepare_lines ls long)) [
    | inl wrong ↦ let h' = rw (go_on, wrong) at h in absurd (cc)
    | inr (rest, e) ↦
        let h' = rw (go_on, e) at h in
        let (e', r) = prepare_lines-IsRead ls long e in
        (rw go_on (rw e' h'), elim r [ inl x ↦ inl x | inr x ↦ inr (rw go_on x) ])
  ]
]

-- Whenever a file is prepared, what is written has the same formula.
pub prepare_cnf_correct :
    (file out : Text) → prepare_cnf file ≡ some out → formula out ≡ formula file
unfolding prepare_cnf
prepare_cnf_correct file out h =
    let s = scan_lines default_limit file in
    elim (Option-cases (prepare_lines s.lines s.too_long)) [
      | inl wrong ↦ let h' = rw (wrong, prepare_cnf) at h in absurd (cc)
      | inr (ls, e) ↦
          let h' = rw (e, prepare_cnf) at h in
          let same : unlines ls ≡ out = cc in
          let (whole, read) = prepare_lines-IsRead s.lines s.too_long e in
          let (ls', e', n', no_end, c') =
            prepare_lines-clauses s.lines (scan_lines-NoNewline default_limit file) in
          let one : ls' ≡ ls = cc in
          let n = rw one at n' in
          let c = rw one at c' in
          rw (← same) (formula-unlines ls n ∙ c ∙ scan_lines-formula default_limit file read)
    ]
