-- ===== src/World/Gives.antt =====
-- Rules for what a call is known to have done where it succeeds.
use satfarm.Prelude.{
  ◌≡◌, refl, ◌∙◌, Bool, true, false, Option, none, some, Result, ok, err, if◌then◌else◌, inl, inr,
  Result-cases,
}
use satfarm.World.{Db, World}
use satfarm.World.Exec.{
  Error, Exec, bind_result, or_raise, raise_if, call, outcome, settle, transaction, query,
}

-- What a call that succeeds is known to have done: a property of its value and the world behind it.
abbrev pub GivesAt : {A : Type 0} → (A → World → Type 0) → Result Error A × World → Type 0
GivesAt Q (ok a, w) = Q a w
GivesAt Q (err e, w) = Unit {0}

pub record Gives {A : Type 0} (Q : A → World → Type 0) (r : Result Error A × World) : Type 0 where
  pub at : GivesAt Q r

pub of_gift :
    {A : Type 0} {Q : A → World → Type 0} {r : Result Error A × World} {a : A} {w : World}
    → Gives Q r
    → r ≡ (ok a, w)
    → Q a w
of_gift a e = let q = a.at in rw e at q

module _ {B : Type 0} {Q : B → World → Type 0} where
  pub Gives-bind :
      {A : Type 0} {P : A → World → Type 0} {r : Result Error A × World} {k : A → Exec B}
      → Gives P r
      → ((a : A) (w : World) → P a w → Gives Q (k a w))
      → Gives Q (bind_result r k)
  Gives-bind {r = (ok a, w)} p h = h a w p.at
  Gives-bind {r = (err e, w)} p h = record { at = tt }

  pub Gives-or_raise :
      {A : Type 0} (o : Option A) (e : Error) (w : World) (k : A → Exec B)
      → ((a : A) → o ≡ some a → Gives Q (k a w))
      → Gives Q (bind_result (or_raise o e w) k)
  Gives-or_raise none e w k h = record { at = tt }
  Gives-or_raise (some a) e w k h = h a refl

  pub Gives-raise_if :
      (b : Bool) (e : Error) (w : World) (k : Unit {0} → Exec B)
      → (b ≡ false → Gives Q (k tt w))
      → Gives Q (bind_result (raise_if b e w) k)
  Gives-raise_if true e w k h = record { at = tt }
  Gives-raise_if false e w k h = h refl

  pub Gives-if :
      (b : Bool) (m k : Exec B) (w : World)
      → (b ≡ true → Gives Q (m w))
      → (b ≡ false → Gives Q (k w))
      → Gives Q ((if b then m else k) w)
  Gives-if true m k w x y = x refl
  Gives-if false m k w x y = y refl

module _ {A : Type 0} {P : A → World → Type 0} where
  pub Gives-Gives :
      {Q : A → World → Type 0} {r : Result Error A × World}
      → Gives P r
      → ((a : A) (w : World) → P a w → Q a w)
      → Gives Q r
  Gives-Gives {r = (ok a, w)} p h = record { at = h a w p.at }
  Gives-Gives {r = (err e, w)} p h = record { at = tt }

-- The parts of the world that a handler leaves alone.
pub record Same (w w' : World) : Type 0 where
  pub db : w'.db ≡ w.db
  pub sessions : w'.sessions ≡ w.sessions
  pub files : w'.files ≡ w.files
  pub started : w'.started ≡ w.started

pub Same-self : (w : World) → Same w w
Same-self w = record { db = refl; sessions = refl; files = refl; started = refl }

pub Same-trans : (u v w : World) → Same u v → Same v w → Same u w
Same-trans u v w s t = record {
  db = t.db ∙ s.db;
  sessions = t.sessions ∙ s.sessions;
  files = t.files ∙ s.files;
  started = t.started ∙ s.started;
}

pub Gives-call : (w : World) → Gives (λ _ w'. Same w w') (call w)
unfolding call
Gives-call w = elim (Result-cases (outcome w.faults)) [
  | inl (u, e) ↦ record {
    at = rw e (record { db = refl; sessions = refl; files = refl; started = refl });
  }
  | inr (x, e) ↦ record { at = rw e (tt) }
]

pub Gives-query :
    {A : Type 0} (f : Db → A) (w : World) → Gives (λ a w'. (a ≡ f w.db) × Same w w') (query f w)
unfolding query
Gives-query f w = Gives-bind (Gives-call w) (λ _ w1 s. record { at = (rw (s.db) (refl), s) })

-- A transaction that commits.
pub Gives-transaction :
    {A : Type 0} {P Q : A → World → Type 0} (m : Exec A) (w : World)
    → ((w1 : World) → Same w w1 → Gives P (m w1))
    → ((a : A) (w1 w2 : World) → P a w1 → Same w1 w2 → Q a w2)
    → Gives Q (transaction m w)
unfolding transaction
Gives-transaction m w body commit = Gives-bind (Gives-call w) (λ _ w1 s1. settled w1.db (
    Gives-bind (body w1 s1)
      (λ a w2 p. Gives-bind (Gives-call w2) (λ _ w3 s3. record { at = commit a w2 w3 p s3 }))))
  where
    settled :
        {A : Type 0} {Q : A → World → Type 0} {r : Result Error A × World} (db : Db)
        → Gives Q r
        → Gives Q (settle db r)
    settled {r = (ok a, w)} db g = g
    settled {r = (err e, w)} db g = record { at = tt }
