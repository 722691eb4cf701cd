-- ===== src/Sat/Dimacs/Body.antt =====
-- One more clause line, against the count that the header asks for.
use satfarm.Prelude.{
  ℕ, zero, suc, ◌+◌, ◌-◌, ◌≤◌, ◌<◌, ◌≡◌, refl, ◌↔◌, true, false, ◌&&◌, List, [], ◌∷◌, arith, ltb,
  leb,
}
use satfarm.Text.{Text, fields}
use satfarm.Sat.Dimacs.Spec.{IsClause, needed, IsBody}

-- Once the header's count is reached no line is needed.
pub needed_full : (m seen : ℕ) (ls : List Text) → 0 < m → m ≤ seen → needed m seen ls ≡ []
needed_full m seen ls p f = ground arith

needed_step :
    (m seen : ℕ) (l : Text) (ls : List Text)
    → (ltb 0 m && leb m seen) ≡ false
    → needed m seen (l ∷ ls) ≡ l ∷ needed m (seen + 1) ls
needed_step zero seen l ls h = refl
needed_step (suc m) seen l ls h =
    let e : suc m - seen ≡ suc (suc m - (seen + 1)) = ground arith in rw e (ground arith)

module _ (n m seen : ℕ) (l : Text) (ls : List Text) where
  pub IsBody-full : (ltb 0 m && leb m seen) ≡ true → IsBody n m seen ls ↔ IsBody n m seen (l ∷ ls)
  IsBody-full f = (
    λ b. record {
      clauses = rw (needed_full m seen (l ∷ ls) (ground arith) (ground arith)) tt;
      complete = ground arith;
    },
    λ b. record {
      clauses = rw (needed_full m seen ls (ground arith) (ground arith)) tt;
      complete = ground arith;
    },
  )

  pub IsBody-step :
      (ltb 0 m && leb m seen) ≡ false
      → (IsClause n (fields l) × IsBody n m (seen + 1) ls) ↔ IsBody n m seen (l ∷ ls)
  IsBody-step f = (
    λ b. record {
      clauses = rw (needed_step m seen l ls f) (b.0, b.1.clauses);
      complete = omega (arith, b.1.complete);
    },
    λ b.
        let cs = rw (needed_step m seen l ls f) at b.clauses in
        (cs.0, record { clauses = cs.1; complete = omega (arith, b.complete) }),
  )
