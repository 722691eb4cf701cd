-- ===== src/Sat/Dimacs/Loop.antt =====
-- The validator's loop over the lines behind the header.
use satfarm.Prelude.{
  ◌+◌, ◌^◌, ◌<◌, ◌≡◌, refl, ◌⊎◌, inl, inr, Bool, true, false, List, [], ◌∷◌, Result, ok, err,
  Result-cases, is_empty, arith, Bool-cases, sym, ◌∙◌, ap,
}
use satfarm.Text.{Text, trim_space, fields}
use satfarm.Text.Spaces.{fields-trim_space}
use satfarm.Sat.Dimacs.{
  DimacsError, Checker, is_skipped, check_tokens, is_full, check_content, check_line, check_lines,
}
use satfarm.Sat.Dimacs.Spec.{content, IsBody}
use satfarm.Sat.Dimacs.Tokens.{check_tokens-IsClause, IsClause-check_tokens}
use satfarm.Sat.Dimacs.Body.{IsBody-full, IsBody-step}

with_clause_ok :
    (c : Checker) (line : Text) {c' : Checker}
    → c.seen_header ≡ true
    → is_empty (fields line) ≡ false
    → check_content c line ≡ ok c'
    → ((is_full c ≡ true) × (c' ≡ c))
      ⊎ ((is_full c ≡ false)
          × (check_tokens c.num_vars c.line_no (fields line) ≡ ok true)
          × (c' ≡ record c { seen_clauses = c.seen_clauses + 1 }))
unfolding check_content
with_clause_ok c line h ne e = ground arith

pub check_lines-cons :
    (c : Checker) (l : Text) (ls : List Text) (long : Bool)
    → check_lines c (l ∷ ls) long ≡ ok tt
    → (c' : Checker) × (check_line c l ≡ ok c') × (check_lines c' ls long ≡ ok tt)
unfolding check_lines
check_lines-cons c l ls long h = elim (Result-cases (check_line c l)) [
  | inl (c', e) ↦ (c', e, rw (e, check_lines) at h)
  | inr (x, e) ↦ ground (arith, e)
]

-- A line that is not skipped has a word.
pub has_words :
    (l : Text) → is_skipped (trim_space l) ≡ false → is_empty (fields (trim_space l)) ≡ false
has_words l h = elim (Bool-cases (is_empty (fields (trim_space l)))) [
  | inl none_left ↦ ground (arith, fields-trim_space l (nil_of (fields (trim_space l)) none_left))
  | inr e ↦ e
]
  where
    nil_of : (ws : List Text) → is_empty ws ≡ true → ws ≡ []
    nil_of [] e = refl
    nil_of (w ∷ ws) e = cc

abbrev pub next_line : Checker → Checker
next_line c = record c { line_no = c.line_no + 1 }

pub check_line_skipped :
    (c : Checker) (l : Text) → is_skipped (trim_space l) ≡ true → check_line c l ≡ ok (next_line c)
unfolding check_line
check_line_skipped c l h = rw h

pub check_line-check_content :
    (c : Checker) (l : Text)
    → is_skipped (trim_space l) ≡ false
    → check_line c l ≡ check_content (next_line c) (trim_space l)
unfolding check_line
check_line-check_content c l h = rw h

checker_of : Checker → Result DimacsError Checker → Checker
checker_of c (ok d) = d
checker_of c (err e) = c

pub ok-injective : (c d : Checker) → ◌≡◌ {A = Result DimacsError Checker} (ok c) (ok d) → c ≡ d
unfolding checker_of
ok-injective c d h = ap (checker_of c) h

content_full :
    (c : Checker) (line : Text)
    → c.seen_header ≡ true
    → is_full c ≡ true
    → check_content c line ≡ ok c
unfolding check_content
content_full c line s f = ground arith

content_clause :
    (c : Checker) (line : Text)
    → c.seen_header ≡ true
    → is_full c ≡ false
    → is_empty (fields line) ≡ false
    → check_tokens c.num_vars c.line_no (fields line) ≡ ok true
    → check_content c line ≡ ok (record c { seen_clauses = c.seen_clauses + 1 })
unfolding check_content
content_clause c line s f ne e = ground arith

pub check_lines_step :
    (c : Checker) (l : Text) (ls : List Text) (d : Checker)
    → check_line c l ≡ ok d
    → check_lines d ls false ≡ ok tt
    → check_lines c (l ∷ ls) false ≡ ok tt
unfolding check_lines
check_lines_step c l ls d e h = rw (e, check_lines) h

-- Behind the header, a run of the loop with no error has read a body as it must be.
pub check_lines-IsBody :
    (ls : List Text) (c : Checker) (long : Bool)
    → c.seen_header ≡ true
    → c.num_vars < 2 ^ 63
    → check_lines c ls long ≡ ok tt
    → IsBody c.num_vars c.num_clauses c.seen_clauses (content ls) × (long ≡ false)
unfolding content
check_lines-IsBody [] c long s b h =
    unfold check_lines in (record { clauses = ground arith; complete = ground arith }, ground arith)
check_lines-IsBody (l ∷ ls) c long s b h =
    let (c', e, later) = check_lines-cons c l ls long h in
    elim (Bool-cases (is_skipped (trim_space l))) [
      | inl skip ↦
          let same = ok-injective c' (next_line c) (sym e ∙ check_line_skipped c l skip) in
          rw skip (check_lines-IsBody ls (next_line c) long s b (rw same at later))
      | inr line ↦
          let e' = sym (check_line-check_content c l line) ∙ e in
          let t = trim_space l in
          elim (with_clause_ok (next_line c) t s (has_words l line) e') [
            | inl (full, same) ↦
                let (body, fits) =
                  check_lines-IsBody ls (next_line c) long s b (rw same at later) in
                rw line (
                  (IsBody-full c.num_vars c.num_clauses c.seen_clauses t (content ls) full).0 body,
                  fits,
                )
            | inr (open_count, clause, same) ↦
                let d = record (next_line c) { seen_clauses = c.seen_clauses + 1 } in
                let (body, fits) = check_lines-IsBody ls d long s b (rw same at later) in
                rw line (
                  (IsBody-step c.num_vars c.num_clauses c.seen_clauses t (content ls) open_count).0
                      (check_tokens-IsClause c.num_vars (c.line_no + 1) (fields t) b clause, body),
                  fits,
                )
          ]
    ]

-- The other way round: a body that is as it must be is accepted.
pub IsBody-check_lines :
    (ls : List Text) (c : Checker)
    → c.seen_header ≡ true
    → c.num_vars < 2 ^ 63
    → IsBody c.num_vars c.num_clauses c.seen_clauses (content ls)
    → check_lines c ls false ≡ ok tt
unfolding content
IsBody-check_lines [] c s b h = let enough = h.complete in unfold check_lines in ground arith
IsBody-check_lines (l ∷ ls) c s b h = elim (Bool-cases (is_skipped (trim_space l))) [
  | inl skip ↦
      check_lines_step c l ls (next_line c) (check_line_skipped c l skip)
        (IsBody-check_lines ls (next_line c) s b (rw skip at h))
  | inr line ↦
      let t = trim_space l in
      let h' = rw line at h in
      elim (Bool-cases (is_full c)) [
        | inl full ↦
            let later =
              IsBody-check_lines ls (next_line c) s b
                ((IsBody-full c.num_vars c.num_clauses c.seen_clauses t (content ls) full).1 h') in
            check_lines_step c l ls (next_line c)
              (check_line-check_content c l line ∙ content_full (next_line c) t s full) later
        | inr room ↦
            let (clause, rest) =
              (IsBody-step c.num_vars c.num_clauses c.seen_clauses t (content ls) room).1 h' in
            let d = record (next_line c) { seen_clauses = c.seen_clauses + 1 } in
            check_lines_step c l ls d
              (check_line-check_content c l line
                ∙ content_clause (next_line c) t s room (has_words l line)
                    (IsClause-check_tokens c.num_vars (c.line_no + 1) b clause))
              (IsBody-check_lines ls d s b rest)
      ]
]
