-- ===== src/Sat/Apply/Formula.antt =====
-- The file that `ApplyCube` writes stands for the formula and the cube.
use satfarm.Prelude.{
  ℕ, zero, suc, ◌≡◌, refl, inl, inr, true, false, List, [], ◌∷◌, ◌++◌, map, Option, none, some,
  arith, set, get_elem?, length, Bool-cases, All,
}
use satfarm.Prelude.Int.{ℤ}
use satfarm.Text.{Text, trim_space}
use satfarm.Sat.Cnf.{units}
use satfarm.Sat.Meaning.{no_clause, is_end, has_end, line_clauses}
use satfarm.Sat.Apply.{unit_line}
use satfarm.Sat.Apply.Tokens.{IsLiteral, literals-unit_line, unit_line-clause}

-- Lines behind others add their clauses, if no end mark stands before them.
pub line_clauses-append :
    (xs ys : List Text)
    → has_end xs ≡ false
    → line_clauses (xs ++ ys) ≡ line_clauses xs ++ line_clauses ys
unfolding line_clauses
line_clauses-append [] ys h = refl
line_clauses-append (l ∷ xs) ys h =
    let ih = line_clauses-append xs ys in
    elim (Bool-cases (is_end (trim_space l))) [
      | inl stop ↦ ground arith
      | inr go_on ↦ rw go_on (
          rw (ih (rw go_on at h)) (elim (Bool-cases (no_clause (trim_space l))) [
            | inl skip ↦ rw skip
            | inr line ↦ rw line
          ]))
    ]

pub line_clauses-units :
    (cube : List ℤ) → All IsLiteral cube → line_clauses (map unit_line cube) ≡ units cube
unfolding line_clauses
line_clauses-units [] h = refl
line_clauses-units (z ∷ cube) h =
    let (a, b) = unit_line-clause z in
    rw (a, b) (rw (literals-unit_line z h.0, line_clauses-units cube h.1))

-- The header that the first pass found, where it found one: a line without a clause.
abbrev pub HasHeader : List Text → Option ℕ → Type 0
HasHeader ls none = Unit
HasHeader ls (some i) = (l : Text) × (get_elem? ls i ≡ some l) × (no_clause (trim_space l) ≡ true)

pub get_elem?-append :
    (xs : List Text) (y : Text) (i : ℕ) (l : Text)
    → get_elem? xs i ≡ some l
    → get_elem? (xs ++ y ∷ []) i ≡ some l
get_elem?-append [] y i l h = cc
get_elem?-append (x ∷ xs) y zero l h = h
get_elem?-append (x ∷ xs) y (suc i) l h = get_elem?-append xs y i l h

pub get_elem?-last : (xs : List Text) (y : Text) → get_elem? (xs ++ y ∷ []) (length xs) ≡ some y
get_elem?-last [] y = refl
get_elem?-last (x ∷ xs) y = get_elem?-last xs y

-- A line without a clause in place of another changes no clause.
pub line_clauses-set :
    (ls : List Text) (i : ℕ) (new old : Text)
    → get_elem? ls i ≡ some old
    → no_clause (trim_space old) ≡ true
    → no_clause (trim_space new) ≡ true
    → line_clauses (set ls i new) ≡ line_clauses ls
unfolding line_clauses
line_clauses-set [] i new old e a b = refl
line_clauses-set (l ∷ ls) zero new old e a b = let same : l ≡ old = cc in rw (b, same) (rw a)
line_clauses-set (l ∷ ls) (suc i) new old e a b = rw (line_clauses-set ls i new old e a b)

pub has_end-set :
    (ls : List Text) (i : ℕ) (new : Text)
    → is_end (trim_space new) ≡ false
    → has_end ls ≡ false
    → has_end (set ls i new) ≡ false
has_end-set [] i new b h = h
has_end-set (l ∷ ls) zero new b h = ground arith
has_end-set (l ∷ ls) (suc i) new b h = ground (arith, has_end-set ls i new b)
