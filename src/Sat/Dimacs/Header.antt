-- ===== src/Sat/Dimacs/Header.antt =====
-- The header line: what `p cnf <vars> <clauses>` is read as.
use satfarm.Prelude.{
  ℕ, ◌^◌, ◌≤◌, ◌<◌, ◌≡◌, inl, inr, List, [], ◌∷◌, some, ok, arith, Option-cases, ◌∙◌, ap₂, and_true,
}
use satfarm.Prelude.Int.{pos, negsuc}
use satfarm.Text.{Text, codes, fields, text_eq, parse_int}
use satfarm.Text.Spaces.{text_eq_sound}
use satfarm.Sat.Dimacs.{count_field, header_counts, parse_header}
use satfarm.Sat.Dimacs.Tokens.{parse_int-Fits}
use satfarm.Sat.Dimacs.Spec.{IsHeader}

count_field_read :
    (least : ℕ) (tok : Text) {n : ℕ}
    → count_field least tok ≡ some n
    → (parse_int tok ≡ some (pos n)) × (least ≤ n)
count_field_read least tok h = elim (Option-cases (parse_int tok)) [
  | inl bad ↦ ground arith
  | inr (pos k, e) ↦ ground arith
  | inr (negsuc k, e) ↦ ground arith
]

header_counts_read :
    (k : ℕ) (vars count : Text) {n m : ℕ}
    → header_counts k vars count ≡ ok (n, m)
    → (count_field 1 vars ≡ some n) × (count_field 0 count ≡ some m)
header_counts_read k vars count h = ground arith

-- A header is read as what it says.
pub parse_header-IsHeader :
    (k : ℕ) (line : Text) (ws : List Text) {n m : ℕ}
    → fields line ≡ ws
    → parse_header k line ws ≡ ok (n, m)
    → IsHeader n m line × (n < 2 ^ 63)
unfolding parse_header
parse_header-IsHeader k line (p ∷ cnf ∷ vars ∷ count ∷ []) f h =
    let t = and_true (text_eq p (codes "p")) (text_eq cnf (codes "cnf")) (ground arith) in
    let (a, b) = header_counts_read k vars count (ground arith) in
    let (va, pa) = count_field_read 1 vars a in
    let (vb, pb) = count_field_read 0 count b in
    (
      record {
        vars = vars;
        count = count;
        words =
            f
            ∙ ap₂ (λ x y. x ∷ y ∷ vars ∷ count ∷ []) (text_eq_sound p (codes "p") t.0)
                (text_eq_sound cnf (codes "cnf") t.1);
        vars_read = va;
        count_read = vb;
        positive = pa;
      },
      let r = parse_int-Fits vars va in r.0,
    )
parse_header-IsHeader k line [] f h = cc
parse_header-IsHeader k line (p ∷ []) f h = cc
parse_header-IsHeader k line (p ∷ cnf ∷ []) f h = cc
parse_header-IsHeader k line (p ∷ cnf ∷ vars ∷ []) f h = cc
parse_header-IsHeader k line (p ∷ cnf ∷ vars ∷ count ∷ w ∷ ws) f h = cc

count_field_ok :
    (least : ℕ) (tok : Text) {n : ℕ}
    → parse_int tok ≡ some (pos n)
    → least ≤ n
    → count_field least tok ≡ some n
count_field_ok least tok e h = ground (arith, e)

header_counts_ok :
    (k : ℕ) (vars count : Text) {n m : ℕ}
    → count_field 1 vars ≡ some n
    → count_field 0 count ≡ some m
    → header_counts k vars count ≡ ok (n, m)
header_counts_ok k vars count a b = ground arith

pub IsHeader-parse_header :
    (k : ℕ) (line : Text) {n m : ℕ}
    → IsHeader n m line
    → parse_header k line (fields line) ≡ ok (n, m)
unfolding parse_header text_eq
IsHeader-parse_header k line h = rw h.words (
    header_counts_ok k h.vars h.count (count_field_ok 1 h.vars h.vars_read h.positive)
      (count_field_ok 0 h.count h.count_read (omega arith)))
