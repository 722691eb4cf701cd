-- ===== src/Sat/Apply/Cubed.antt =====
-- What the first pass keeps, and the file that `ApplyCube` writes.
use satfarm.Prelude.{
  ℕ, ◌+◌, ◌≡◌, refl, ◌⊎◌, inl, inr, true, false, List, [], ◌∷◌, ◌++◌, map, Option, none, some, Bool,
  Option-cases, arith, length, Bool-cases, ap, ap₂, ◌∙◌, sym, All-set, All, All-append,
  append_assoc, append-nil,
}
use satfarm.Prelude.Int.{ℤ, pos, ltb_ℤ}
use satfarm.Text.{Text, codes, trim_space, fields, has_prefix, scan_lines, unlines, default_limit}
use satfarm.Text.Lines.{NoNewline, scan_lines-NoNewline}
use satfarm.Text.Spaces.{trim_space_first, text_eq_sound}
use satfarm.Sat.Cnf.{units}
use satfarm.Sat.Meaning.{no_clause, is_end, has_end, line_clauses, formula}
use satfarm.Sat.Meaning.Scanned.{IsRead, scan_lines-formula, line_clauses_end, formula-unlines}
use satfarm.Sat.Apply.{
  Pass, no_lines, header_vars, read_line, first_pass, header_text, fix_header, unit_line,
  cubed_lines, apply_cube,
}
use satfarm.Sat.Apply.Tokens.{
  IsLiteral, header_text-no_clause, unit_line-NoNewline, header_text-NoNewline,
}
use satfarm.Sat.Apply.Formula.{
  HasHeader, line_clauses-append, line_clauses-units, get_elem?-append, get_elem?-last,
  line_clauses-set, has_end-set,
}

header_vars_words :
    (ws : List Text) {vars : Text}
    → header_vars ws ≡ some vars
    → (rest : List Text) × (ws ≡ codes "p" ∷ rest)
header_vars_words (p ∷ cnf ∷ vars ∷ clauses ∷ []) h = (
  cnf ∷ vars ∷ clauses ∷ [],
  ap (λ x. x ∷ cnf ∷ vars ∷ clauses ∷ []) (text_eq_sound p (codes "p") (ground arith)),
)
header_vars_words [] h = cc
header_vars_words (p ∷ []) h = cc
header_vars_words (p ∷ cnf ∷ []) h = cc
header_vars_words (p ∷ cnf ∷ vars ∷ []) h = cc
header_vars_words (p ∷ cnf ∷ vars ∷ clauses ∷ x ∷ ws) h = cc

-- A line with the words of a header holds no clause.
header_line-no_clause :
    (l vars : Text)
    → header_vars (fields (trim_space l)) ≡ some vars
    → no_clause (trim_space l) ≡ true
unfolding has_prefix
header_line-no_clause l vars h =
    let (rest, words) = header_vars_words (fields (trim_space l)) h in
    let (t, e) = trim_space_first l b'p' [] rest words in rw e

pub read_line-lines : (p : Pass) (l : Text) → (read_line p l).lines ≡ p.lines ++ l ∷ []
unfolding read_line
read_line-lines p l = ground arith

-- What a round does of the position of the header.
read_line_index :
    (p : Pass) (l : Text)
    → ((read_line p l).header_index ≡ p.header_index)
      ⊎ (((read_line p l).header_index ≡ some (length p.lines))
          × ((vars : Text) × (header_vars (fields (trim_space l)) ≡ some vars)))
unfolding read_line
read_line_index p l = elim (Option-cases p.header_index) [
  | inr (i, e) ↦ inl (ground (arith, e))
  | inl e ↦ elim (Option-cases (header_vars (fields (trim_space l)))) [
    | inl other ↦ inl (ground (arith, e, other))
    | inr (vars, hv) ↦ inr (ground (arith, e, hv), (vars, hv))
  ]
]

HasHeader-append :
    (ls : List Text) (o : Option ℕ) (l : Text) → HasHeader ls o → HasHeader (ls ++ l ∷ []) o
HasHeader-append ls none l h = tt
HasHeader-append ls (some i) l (old, e, b) = (old, get_elem?-append ls l i old e, b)

record Keeps (p : Pass) : Type 0 where
  no_end : has_end p.lines ≡ false
  header : HasHeader p.lines p.header_index
  plain : All NoNewline p.lines

has_end-append :
    (xs : List Text) (l : Text)
    → has_end xs ≡ false
    → is_end (trim_space l) ≡ false
    → has_end (xs ++ l ∷ []) ≡ false
has_end-append [] l h e = ground arith
has_end-append (x ∷ xs) l h e = ground (arith, has_end-append xs l)

read_line-Keeps :
    (p : Pass) (l : Text)
    → Keeps p
    → is_end (trim_space l) ≡ false
    → NoNewline l
    → Keeps (read_line p l)
read_line-Keeps p l k e n = record {
  no_end = rw (read_line-lines p l) (has_end-append p.lines l k.no_end e);
  header = rw (read_line-lines p l) (elim (read_line_index p l) [
    | inl same ↦ rw same (HasHeader-append p.lines p.header_index l k.header)
    | inr (new, (vars, hv)) ↦ rw new (l, get_elem?-last p.lines l, header_line-no_clause l vars hv)
  ]);
  plain = rw (read_line-lines p l) (All-append _ p.lines (l ∷ []) k.plain (n, tt));
}

-- The first pass succeeds on lines that the scanner reads whole, and keeps their clauses.
first_pass-clauses :
    (ls : List Text) (p : Pass)
    → Keeps p
    → All NoNewline ls
    → (q : Pass) × (first_pass p ls false ≡ some q)
      × Keeps q
      × (line_clauses q.lines ≡ line_clauses p.lines ++ line_clauses ls)
unfolding first_pass
first_pass-clauses [] p k n =
    (p, refl, k, unfold line_clauses in sym (append-nil (line_clauses p.lines)))
first_pass-clauses (l ∷ ls) p k n = elim (Bool-cases (is_end (trim_space l))) [
  | inl stop ↦
      (p, rw stop, k, rw (line_clauses_end l ls stop) (sym (append-nil (line_clauses p.lines))))
  | inr go_on ↦
      let (q, e, kq, c) =
        first_pass-clauses ls (read_line p l) (read_line-Keeps p l k go_on n.0) n.1 in
      (
        q,
        rw go_on e,
        kq,
        c
            ∙ rw (read_line-lines p l) (
                ap (λ x. x ++ line_clauses ls) (line_clauses-append p.lines (l ∷ []) k.no_end)
                ∙ append_assoc (line_clauses p.lines) (line_clauses (l ∷ [])) (line_clauses ls)
                ∙ ap (λ x. line_clauses p.lines ++ x)
                    (sym (line_clauses-append (l ∷ []) ls (rw go_on)))),
      )
]

fix_header-clauses :
    (p : Pass) (cube : List ℤ)
    → Keeps p
    → (line_clauses (fix_header p cube) ≡ line_clauses p.lines)
      × (has_end (fix_header p cube) ≡ false)
      × All NoNewline (fix_header p cube)
unfolding fix_header
fix_header-clauses p cube k = elim (Option-cases p.header_index) [
  | inl unseen ↦ rw (unseen, fix_header) (refl, k.no_end, k.plain)
  | inr (i, e) ↦ elim (Bool-cases (ltb_ℤ (pos 0) p.header_num_vars)) [
    | inr bad ↦ rw (e, fix_header) (rw bad (refl, k.no_end, k.plain))
    | inl good ↦
        let new = header_text p.header_num_vars (p.actual_clauses + length cube) in
        let (old, at_i, b) = rw e at k.header in
        let (a, n) = header_text-no_clause p.header_num_vars (p.actual_clauses + length cube) in
        rw (e, fix_header)
          (rw good (
            line_clauses-set p.lines i new old at_i b a,
            has_end-set p.lines i new n k.no_end,
            All-set NoNewline p.lines i new
                (header_text-NoNewline p.header_num_vars (p.actual_clauses + length cube)) k.plain,
          ))
  ]
]

units-NoNewline : (cube : List ℤ) → All NoNewline (map unit_line cube)
units-NoNewline [] = tt
units-NoNewline (z ∷ cube) = (unit_line-NoNewline z, units-NoNewline cube)

line_clauses_nil : line_clauses [] ≡ []
unfolding line_clauses
line_clauses_nil = refl

apply_cube_pass :
    (file : Text) (cube : List ℤ) {q : Pass}
    → (scan_lines default_limit file).too_long ≡ false
    → first_pass no_lines (scan_lines default_limit file).lines false ≡ some q
    → apply_cube file cube ≡ some (unlines (cubed_lines q cube))
unfolding apply_cube
apply_cube_pass file cube fits e = rw (fits, apply_cube) (rw e)

first_pass-IsRead :
    (ls : List Text) (p : Pass) (long : Bool) {q : Pass}
    → first_pass p ls long ≡ some q
    → (first_pass p ls false ≡ some q) × IsRead ls long
unfolding first_pass
first_pass-IsRead [] p true h = absurd (cc)
first_pass-IsRead [] p false h = (h, inl refl)
first_pass-IsRead (l ∷ ls) p long h = elim (Bool-cases (is_end (trim_space l))) [
  | inl stop ↦ let h' = rw stop at h in (rw stop h', inr (rw stop (refl)))
  | inr go_on ↦
      let (e, r) = first_pass-IsRead ls (read_line p l) long (rw go_on at h) in
      (rw go_on e, elim r [ inl x ↦ inl x | inr x ↦ inr (rw go_on x) ])
]

-- What is written behind a first pass that has read all that counts.
cubed_lines-formula :
    (file : Text) (cube : List ℤ) (q : Pass)
    → (let s = scan_lines default_limit file in
        IsRead s.lines s.too_long × (first_pass no_lines s.lines false ≡ some q))
    → All IsLiteral cube
    → formula (unlines (cubed_lines q cube)) ≡ formula file ++ units cube
unfolding cubed_lines
cubed_lines-formula file cube q (read, pass) lits =
    let s = scan_lines default_limit file in
    let start : Keeps no_lines = record { no_end = refl; header = tt; plain = tt } in
    let (q', e, k', c') =
      first_pass-clauses s.lines no_lines start (scan_lines-NoNewline default_limit file) in
    let one : q' ≡ q = cc in
    let k = rw one at k' in
    let c = rw one at c' in
    let (same, no_end, plain) = fix_header-clauses q cube k in
    let ls = fix_header q cube in
    let all_plain = All-append NoNewline ls (map unit_line cube) plain (units-NoNewline cube) in
    formula-unlines (ls ++ map unit_line cube) all_plain
    ∙ line_clauses-append ls (map unit_line cube) no_end
    ∙ ap₂ (◌++◌) (same ∙ c ∙ rw line_clauses_nil (scan_lines-formula default_limit file read))
        (line_clauses-units cube lits)

-- For a file whose lines fit the scanner and a cube of literals, `ApplyCube` succeeds, and the file
-- that it writes stands for the formula of the given file together with the cube's unit clauses.
pub apply_cube-formula :
    (file : Text) (cube : List ℤ)
    → (scan_lines default_limit file).too_long ≡ false
    → All IsLiteral cube
    → (out : Text) × (apply_cube file cube ≡ some out) × (formula out ≡ formula file ++ units cube)
apply_cube-formula file cube fits lits =
    let s = scan_lines default_limit file in
    let start : Keeps no_lines = record { no_end = refl; header = tt; plain = tt } in
    let (q, e, k, c) =
      first_pass-clauses s.lines no_lines start (scan_lines-NoNewline default_limit file) in
    (
      unlines (cubed_lines q cube),
      apply_cube_pass file cube fits e,
      cubed_lines-formula file cube q (inl fits, e) lits,
    )

-- Whenever `ApplyCube` succeeds on a cube of literals, what it writes has that formula.
pub apply_cube_correct :
    (file : Text) (cube : List ℤ) (out : Text)
    → apply_cube file cube ≡ some out
    → All IsLiteral cube
    → formula out ≡ formula file ++ units cube
unfolding apply_cube
apply_cube_correct file cube out h lits =
    let s = scan_lines default_limit file in
    elim (Option-cases (first_pass no_lines s.lines s.too_long)) [
      | inl wrong ↦ let h' = rw (wrong, apply_cube) at h in absurd (cc)
      | inr (q, e) ↦
          let h' = rw (e, apply_cube) at h in
          let same : unlines (cubed_lines q cube) ≡ out = cc in
          let (pass, read) = first_pass-IsRead s.lines no_lines s.too_long e in
          rw (← same) (cubed_lines-formula file cube q (read, pass) lits)
    ]
