-- ===== src/World/Keeps.antt =====
-- Rules for a handler that changes no file, and keeps an invariant of the database whether it
-- succeeds or fails.
use satfarm.Prelude.{
  ◌≡◌, refl, Bool, true, false, Option, none, some, Result, ok, err, if◌then◌else◌, inl, inr,
  Result-cases,
}
use satfarm.Text.{Text}
use satfarm.World.{Db, FilePath, World}
use satfarm.World.Exec.{
  Error, Exec, bind_result, call, outcome, later_faults, query, update_db, attempt, settle,
  transaction, or_raise, raise_if,
}

-- The files are as before, and the database has a property.
pub record Holds (f : FilePath → Option Text) (I : Db → Type 0) (w : World) : Type 0 where
  pub files : w.files ≡ f
  pub db_inv : I w.db

module _ (f : FilePath → Option Text) (I : Db → Type 0) where
  abbrev pub EndsAt : {A : Type 0} → (A → Db → Type 0) → Result Error A × World → Type 0
  EndsAt Q (ok a, w) = Holds f I w × Q a w.db
  EndsAt Q (err e, w) = Holds f I w

-- The invariant holds behind a handler, and the postcondition if it succeeds.
pub record Ends {A : Type 0} (f : FilePath → Option Text) (I : Db → Type 0) (Q : A → Db → Type 0)
    (r : Result Error A × World) : Type 0 where
  pub at : EndsAt f I Q r

-- The value that a statement reads.
pub record IsValue {A : Type 0} (g : Db → A) (a : A) (db : Db) : Type 0 where
  pub is_value : a ≡ g db

module _ {f : FilePath → Option Text} {I : Db → Type 0} where
  pub Ends-bind :
      {A B : Type 0} {P : A → Db → Type 0} {Q : B → Db → Type 0} {r : Result Error A × World}
      {k : A → Exec B}
      → Ends f I P r
      → ((a : A) (w : World) → Holds f I w → P a w.db → Ends f I Q (k a w))
      → Ends f I Q (bind_result r k)
  Ends-bind {r = (ok a, w)} e h = h a w e.at.0 e.at.1
  Ends-bind {r = (err x, w)} e h = record { at = e.at }

  pub Ends-call : {P : Db → Type 0} (w : World) → Holds f I w → P w.db → Ends f I (λ _. P) (call w)
  unfolding call
  Ends-call w h p = elim (Result-cases (outcome w.faults)) [
    | inl (a, e) ↦ record { at = rw e ((record { files = h.files; db_inv = h.db_inv }), p) }
    | inr (x, e) ↦ record { at = rw e (record { files = h.files; db_inv = h.db_inv }) }
  ]

  pub Ends-query :
      {A : Type 0} {P : Db → Type 0} (g : Db → A) (w : World)
      → Holds f I w
      → P w.db
      → Ends f I (λ a db. IsValue g a db × P db) (query g w)
  unfolding call query
  Ends-query g w h p = elim (Result-cases (outcome w.faults)) [
    | inl (a, e) ↦ record {
      at = rw e ((record { files = h.files; db_inv = h.db_inv }), (record { is_value = refl }, p));
    }
    | inr (x, e) ↦ record { at = rw e (record { files = h.files; db_inv = h.db_inv }) }
  ]

  pub Ends-update_db :
      {P : Db → Type 0} (g : Db → Db) (w : World)
      → Holds f I w
      → I (g w.db)
      → P (g w.db)
      → Ends f I (λ _. P) (update_db g w)
  unfolding call update_db
  Ends-update_db g w h i p = elim (Result-cases (outcome w.faults)) [
    | inl (a, e) ↦ record { at = rw e ((record { files = h.files; db_inv = i }), p) }
    | inr (x, e) ↦ record { at = rw e (record { files = h.files; db_inv = h.db_inv }) }
  ]

  pub Ends-Holds :
      {A : Type 0} {P : A → Db → Type 0} {r : Result Error A × World} → Ends f I P r → Holds f I r.1
  Ends-Holds {r = (ok a, w)} e = e.at.0
  Ends-Holds {r = (err x, w)} e = e.at

  -- A weaker postcondition.
  pub Ends-Ends :
      {A : Type 0} {P Q : A → Db → Type 0} {r : Result Error A × World}
      → Ends f I P r
      → ((a : A) (db : Db) → P a db → Q a db)
      → Ends f I Q r
  Ends-Ends {r = (ok a, w)} e c = record { at = (e.at.0, c a w.db e.at.1) }
  Ends-Ends {r = (err x, w)} e c = record { at = e.at }

  pub Ends-attempt :
      {A : Type 0} {P : A → Db → Type 0} (m : Exec A) (w : World)
      → Ends f I P (m w)
      → Ends f I (λ _ _. Unit {0}) (attempt m w)
  Ends-attempt m w e = record { at = (Ends-Holds e, tt) }

  -- Only the files are kept by all of a transaction's body; where it commits, the invariant and the
  -- postcondition follow from what the body ends with.
  pub Ends-settle :
      {A : Type 0} {J : Db → Type 0} {P Q : A → Db → Type 0} (db : Db) {r : Result Error A × World}
      → Ends f J P r
      → ((a : A) (d : Db) → J d → P a d → I d × Q a d)
      → I db
      → Ends f I Q (settle db r)
  Ends-settle db {r = (ok a, w)} e c i =
      let x = c a w.db e.at.0.db_inv e.at.1 in
      record { at = ((record { files = e.at.0.files; db_inv = x.0 }), x.1) }
  Ends-settle db {r = (err x, w)} e c i = record { at = record { files = e.at.files; db_inv = i } }

-- The two ends of a transaction.
pub Ends-transaction :
    {f : FilePath → Option Text} {I : Db → Type 0} {A : Type 0} {J : Db → Type 0}
    {P Q : A → Db → Type 0} (m : Exec A) (w : World)
    → Holds f I w
    → ((w' : World) → w'.files ≡ f → w'.db ≡ w.db → Ends f J P (m w'))
    → ((a : A) (d : Db) → J d → P a d → I d × Q a d)
    → Ends f I Q (transaction m w)
unfolding transaction call
Ends-transaction {J} {P} m w h body commit =
    let w' = record w { faults = later_faults w.faults } in
    elim (Result-cases (outcome w.faults)) [
      | inl (a, e) ↦ rw e (
          Ends-settle {J = J} {P = P} w.db
            (Ends-bind {P = P} (body w' h.files refl) (λ a w2 h2 p.
              Ends-bind {P = λ _. P a} (Ends-call w2 h2 p)
                (λ u w3 h3 p3. record { at = (h3, p3) })))
            commit h.db_inv)
      | inr (x, e) ↦ record { at = rw e (record { files = h.files; db_inv = h.db_inv }) }
    ]

-- A handler that is safe to run whenever the invariant holds.
abbrev pub Safe :
    {A : Type 0} → (FilePath → Option Text) → (Db → Type 0) → Result Error A × World → Type 0
Safe f I r = Ends f I (λ _ _. Unit {0}) r

module _ {f : FilePath → Option Text} {I : Db → Type 0} where
  pub Safe-bind :
      {A B : Type 0} {Q : B → Db → Type 0} {r : Result Error A × World} {k : A → Exec B}
      → Safe f I r
      → ((a : A) (w : World) → Holds f I w → Ends f I Q (k a w))
      → Ends f I Q (bind_result r k)
  Safe-bind e h = Ends-bind e (λ a w i p. h a w i)

  pub Safe-call : (w : World) → Holds f I w → Safe f I (call w)
  Safe-call w h = Ends-call w h tt

  pub Safe-query : {A : Type 0} (g : Db → A) (w : World) → Holds f I w → Safe f I (query g w)
  unfolding query
  Safe-query g w h = Safe-bind (Safe-call w h) (λ _ w1 h1. record { at = (h1, tt) })

  pub Ends-or_raise :
      {A B : Type 0} {Q : B → Db → Type 0} (o : Option A) (e : Error) (w : World) (k : A → Exec B)
      → Holds f I w
      → ((a : A) → o ≡ some a → Ends f I Q (k a w))
      → Ends f I Q (bind_result (or_raise o e w) k)
  Ends-or_raise none e w k h s = record { at = h }
  Ends-or_raise (some a) e w k h s = s a refl

  pub Ends-if :
      {B : Type 0} {Q : B → Db → Type 0} (b : Bool) (m k : Exec B) (w : World)
      → (b ≡ true → Ends f I Q (m w))
      → (b ≡ false → Ends f I Q (k w))
      → Ends f I Q ((if b then m else k) w)
  Ends-if true m k w x y = x refl
  Ends-if false m k w x y = y refl

module _ {f : FilePath → Option Text} {I : Db → Type 0} where
  pub Safe-raise_if : (b : Bool) (e : Error) (w : World) → Holds f I w → Safe f I (raise_if b e w)
  Safe-raise_if true e w h = record { at = h }
  Safe-raise_if false e w h = record { at = (h, tt) }
