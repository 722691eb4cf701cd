-- ===== src/Sat/Cnf.antt =====
-- The meaning of a formula, independent of the code: literals, clauses and valuations.
use satfarm.Prelude.{ℕ, suc, ◌≡◌, Bool, false, not, List, [], ◌∷◌, all, any, map}
use satfarm.Prelude.Int.{ℤ, pos, negsuc}

abbrev pub Clause : Type 0
Clause = List ℤ

abbrev pub Valuation : Type 0
Valuation = ℕ → Bool

-- Variable `n` is the literal `n`, and its negation `-n`.
abbrev pub lit_holds : Valuation → ℤ → Bool
lit_holds v (pos n) = v n
lit_holds v (negsuc n) = not (v (suc n))

abbrev pub clause_holds : Valuation → Clause → Bool
clause_holds v = any (lit_holds v)

abbrev pub cnf_holds : Valuation → List Clause → Bool
cnf_holds v = all (clause_holds v)

abbrev pub cube_holds : Valuation → List ℤ → Bool
cube_holds v = all (lit_holds v)

abbrev pub Unsat : List Clause → Type 0
Unsat f = (v : Valuation) → cnf_holds v f ≡ false

-- A cube as unit clauses.
abbrev pub units : List ℤ → List Clause
units = map (λ l. l ∷ [])
