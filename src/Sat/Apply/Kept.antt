-- ===== src/Sat/Apply/Kept.antt =====
-- A file with one clause on a line stays one when it gets a cube and is prepared.
use satfarm.Prelude.{
  ℕ, ◌^◌, ◌<◌, ◌≡◌, ◌≢◌, refl, inl, inr, true, false, Bool, List, [], ◌∷◌, ◌++◌, map, some,
  Bool-cases, Option-cases, All, All-append, All-set, arith, ltb, lt→ltb, ◌+◌, length,
}
use satfarm.Prelude.Int.{ℤ, pos, ltb_ℤ, eqb_ℤ, eqb_ℤ_iff}
use satfarm.Text.{
  Text, codes, trim_space, scan_lines, scan_within, split_lines, unlines, drop_cr, itoa, parse_int,
  default_limit, byte_len, text_eq,
}
use satfarm.Text.Digits.{parse_int-itoa}
use satfarm.Text.Spaces.{text_eq_refl}
use satfarm.Text.Plain.{itoa-IsPlain, IsPlain}
use satfarm.Text.Lines.{NoNewline, trim_space-drop_cr, split_lines-unlines}
use satfarm.Sat.Cube.Bounds.{var_of}
use satfarm.Sat.Meaning.{is_end}
use satfarm.Sat.Dimacs.{prepare_lines, prepare_cnf}
use satfarm.Sat.Apply.{
  Pass, no_lines, read_line, first_pass, header_text, fix_header, unit_line, cubed_lines,
  apply_cube,
}
use satfarm.Sat.Apply.Tokens.{
  IsLiteral, trim_space-unit_line, fields-unit_line, header_text-no_clause,
}
use satfarm.Sat.Apply.Cubed.{read_line-lines}
use satfarm.Sat.Strict.{
  is_clause_words, IsLineChar, IsStrictLine, IsStrict, IsJobLine, IsOnePerLine,
}

drop_cr-All : (P : ℕ → Type 0) (s : Text) → All P s → All P (drop_cr s)
unfolding drop_cr
drop_cr-All P [] h = tt
drop_cr-All P (c ∷ s) h = ground (arith, drop_cr-All P s h.1)

scan_within-All :
    (limit : ℕ) (ls : List Text) → All IsJobLine ls → All IsJobLine (scan_within limit ls).lines
unfolding scan_within
scan_within-All limit [] h = tt
scan_within-All limit (l ∷ ls) h = elim (Bool-cases (ltb (byte_len l) limit)) [
  | inr long ↦ rw long tt
  | inl fits ↦ rw fits (
    (drop_cr-All IsLineChar l h.0.0, rw (trim_space-drop_cr l) (h.0.1)),
    scan_within-All limit ls h.1,
  )
]

first_pass-All :
    (ls : List Text) (p : Pass) (long : Bool) {q : Pass}
    → All IsJobLine p.lines
    → All IsJobLine ls
    → first_pass p ls long ≡ some q
    → All IsJobLine q.lines
unfolding first_pass
first_pass-All [] p true {q} hp h e = absurd (cc)
first_pass-All [] p false {q} hp h e = let same : p ≡ q = cc in rw (← same) hp
first_pass-All (l ∷ ls) p long {q} hp h e = elim (Bool-cases (is_end (trim_space l))) [
  | inl stop ↦ let e' = rw stop at e in let same : p ≡ q = cc in rw (← same) hp
  | inr go_on ↦
      first_pass-All ls (read_line p l) long
        (rw (read_line-lines p l) (All-append IsJobLine p.lines (l ∷ []) hp (h.0, tt))) h.1
        (rw go_on at e)
]

plain_chars : (s : Text) → All IsPlain s → All IsLineChar s
plain_chars [] h = tt
plain_chars (c ∷ s) h = ((ground arith, omega arith), plain_chars s h.1)

itoa-IsLineChar : (z : ℤ) → All IsLineChar (itoa z)
itoa-IsLineChar z = plain_chars (itoa z) (itoa-IsPlain z)

header_text-IsJobLine : (n : ℤ) (m : ℕ) → IsJobLine (header_text n m)
header_text-IsJobLine n m =
    let (blank, open_end) = header_text-no_clause n m in
    (
      All-append IsLineChar (codes "p cnf ") _
          (
            (refl, omega arith),
            (
              (refl, omega arith),
              (
                (refl, omega arith),
                ((refl, omega arith), ((refl, omega arith), ((refl, omega arith), tt))),
              ),
            ),
          )
          (All-append IsLineChar (itoa n) (b' ' ∷ itoa (pos m)) (itoa-IsLineChar n)
            ((refl, omega arith), itoa-IsLineChar (pos m))),
      rw (blank, open_end) refl,
    )

fix_header-All :
    (p : Pass) (cube : List ℤ) → All IsJobLine p.lines → All IsJobLine (fix_header p cube)
unfolding fix_header
fix_header-All p cube h = elim (Option-cases p.header_index) [
  | inl unseen ↦ rw (unseen, fix_header) h
  | inr (i, e) ↦ elim (Bool-cases (ltb_ℤ (pos 0) p.header_num_vars)) [
    | inr bad ↦ rw (e, fix_header) (rw bad h)
    | inl good ↦
        rw (e, fix_header)
          (rw good (
            All-set IsJobLine p.lines i
              (header_text p.header_num_vars (p.actual_clauses + length cube))
              (header_text-IsJobLine p.header_num_vars (p.actual_clauses + length cube)) h))
  ]
]

-- A literal of a cube, below 2 ^ 31.
abbrev pub IsSmall : ℤ → Type 0
IsSmall z = IsLiteral z × (var_of z < 2 ^ 31)

unit_words : (z : ℤ) → IsSmall z → is_clause_words (itoa z ∷ codes "0" ∷ []) ≡ true
unfolding is_clause_words
unit_words z h =
    rw (parse_int-itoa z h.0.1, is_clause_words)
      (rw (text_eq_refl (itoa z), other z h.0.0, lt→ltb (var_of z) (2 ^ 31) h.1) last_zero)
  where
    other : (z : ℤ) → z ≢ pos 0 → eqb_ℤ z (pos 0) ≡ false
    other z ne = elim (Bool-cases (eqb_ℤ z (pos 0))) [
      | inl same ↦ absurd (ne ((eqb_ℤ_iff z (pos 0)).0 same))
      | inr away ↦ away
    ]

    last_zero : is_clause_words (codes "0" ∷ []) ≡ true
    last_zero = unfold parse_int itoa text_eq in refl

unit_line-IsJobLine : (z : ℤ) → IsSmall z → IsJobLine (unit_line z)
unit_line-IsJobLine z h = (
  All-append IsLineChar (itoa z) (codes " 0") (itoa-IsLineChar z)
      ((refl, omega arith), ((refl, omega arith), tt)),
  rw (trim_space-unit_line z, fields-unit_line z, unit_words z h) (ground arith),
)

units-All : (cube : List ℤ) → All IsSmall cube → All IsJobLine (map unit_line cube)
units-All [] h = tt
units-All (z ∷ cube) h = (unit_line-IsJobLine z h.0, units-All cube h.1)

strict_line : (l : Text) → IsJobLine l → is_end (trim_space l) ≡ false → IsStrictLine l
strict_line l h go_on = (h.0, rw go_on at h.1)

prepare_lines-All :
    (ls : List Text) (long : Bool) {out : List Text}
    → All IsJobLine ls
    → prepare_lines ls long ≡ some out
    → All IsStrictLine out
unfolding prepare_lines
prepare_lines-All [] true {out} h e = absurd (cc)
prepare_lines-All [] false {out} h e = let same : [] ≡ out = cc in rw (← same) tt
prepare_lines-All (l ∷ ls) long {out} h e = elim (Bool-cases (is_end (trim_space l))) [
  | inl stop ↦ let e' = rw stop at e in let same : [] ≡ out = cc in rw (← same) tt
  | inr go_on ↦
      let e1 = rw go_on at e in
      elim (Option-cases (prepare_lines ls long)) [
        | inl wrong ↦ let e' = rw wrong at e1 in absurd (cc)
        | inr (rest, found) ↦
            let e' = rw found at e1 in
            let same : l ∷ rest ≡ out = cc in
            rw (← same) (strict_line l h.0 go_on, prepare_lines-All ls long h.1 found)
      ]
]

NoNewline-lines :
    {P : Text → Type 0}
    → ((l : Text) → P l → All IsLineChar l)
    → (ls : List Text) → All P ls
    → All NoNewline ls
NoNewline-lines chars [] h = tt
NoNewline-lines chars (l ∷ ls) h = (plain l (chars l h.0), NoNewline-lines chars ls h.1)
  where
    plain : (s : Text) → All IsLineChar s → NoNewline s
    plain [] h = tt
    plain (c ∷ s) h = (h.0.0, plain s h.1)

cubed-IsOnePerLine :
    (file out : Text) (cube : List ℤ)
    → apply_cube file cube ≡ some out
    → All IsSmall cube
    → IsOnePerLine file
    → IsOnePerLine out
unfolding apply_cube cubed_lines
cubed-IsOnePerLine file out cube e small h =
    let s = scan_lines default_limit file in
    elim (Option-cases (first_pass no_lines s.lines s.too_long)) [
      | inl wrong ↦ let e' = rw (wrong, apply_cube) at e in absurd (cc)
      | inr (q, found) ↦
          let e' = rw (found, apply_cube) at e in
          let same : unlines (fix_header q cube ++ map unit_line cube) ≡ out = cc in
          let kept =
            first_pass-All s.lines no_lines s.too_long tt
              (unfold scan_lines in scan_within-All default_limit (split_lines file) h) found in
          let all =
            All-append IsJobLine (fix_header q cube) (map unit_line cube)
              (fix_header-All q cube kept) (units-All cube small) in
          let plain = NoNewline-lines {P = IsJobLine} (λ l p. p.0) _ all in
          rw (← same, split_lines-unlines _ plain) all
    ]

prepared-IsStrict :
    (file out : Text) → prepare_cnf file ≡ some out → IsOnePerLine file → IsStrict out
unfolding prepare_cnf
prepared-IsStrict file out e h =
    let s = scan_lines default_limit file in
    elim (Option-cases (prepare_lines s.lines s.too_long)) [
      | inl wrong ↦ let e' = rw (wrong, prepare_cnf) at e in absurd (cc)
      | inr (ls, found) ↦
          let e' = rw (found, prepare_cnf) at e in
          let same : unlines ls ≡ out = cc in
          let all =
            prepare_lines-All s.lines s.too_long
              (unfold scan_lines in scan_within-All default_limit (split_lines file) h) found in
          let plain = NoNewline-lines {P = IsStrictLine} (λ l p. p.0) ls all in
          rw (← same, split_lines-unlines ls plain) all
    ]

-- The solver's file is one that every reader of DIMACS reads alike.
pub solve_cnf-IsStrict :
    (file cubed cnf : Text) (cube : List ℤ)
    → apply_cube file cube ≡ some cubed
    → prepare_cnf cubed ≡ some cnf
    → All IsSmall cube
    → IsOnePerLine file
    → IsStrict cnf
solve_cnf-IsStrict file cubed cnf cube e1 e2 small h =
    prepared-IsStrict cubed cnf e2 (cubed-IsOnePerLine file cubed cube e1 small h)
