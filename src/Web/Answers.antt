-- ===== src/Web/Answers.antt =====
-- Rules for what is so where a handler of the web server answers with a body.
use satfarm.Prelude.{
  ◌≡◌, refl, Bool, true, false, Option, none, some, Result, ok, err, if◌then◌else◌,
}
use satfarm.World.{World}
use satfarm.World.Exec.{Error, Exec, bind_result}
use satfarm.World.Gives.{Gives}
use satfarm.Web.{Reply, refused, refused_with, redirected, answered, reply_of}

abbrev pub AnswersAt : {B : Type 0} → (B → World → Type 0) → Result Error (Reply B) × World → Type 0
AnswersAt Q (ok (answered b), w) = Q b w
AnswersAt Q (ok (refused status why), w) = Unit {0}
AnswersAt Q (ok (refused_with status why), w) = Unit {0}
AnswersAt Q (ok (redirected to), w) = Unit {0}
AnswersAt Q (err e, w) = Unit {0}

pub record Answers {B : Type 0} (Q : B → World → Type 0) (r : Result Error (Reply B) × World)
    : Type 0 where
  pub at : AnswersAt Q r

pub of_answer :
    {B : Type 0} {Q : B → World → Type 0} {r : Result Error (Reply B) × World} {b : B} {w : World}
    → Answers Q r
    → r ≡ (ok (answered b), w)
    → Q b w
of_answer a e = let q = a.at in rw e at q

pub Answers-Answers :
    {B : Type 0} {P Q : B → World → Type 0} {r : Result Error (Reply B) × World}
    → Answers P r
    → ((b : B) (w : World) → P b w → Q b w)
    → Answers Q r
Answers-Answers {r = (ok (answered b), w)} a h = record { at = h b w a.at }
Answers-Answers {r = (ok (refused s t), w)} a h = record { at = tt }
Answers-Answers {r = (ok (refused_with s t), w)} a h = record { at = tt }
Answers-Answers {r = (ok (redirected t), w)} a h = record { at = tt }
Answers-Answers {r = (err e, w)} a h = record { at = tt }

module _ {B : Type 0} {Q : B → World → Type 0} where
  pub Answers-reply :
      {A : Type 0} (r : Result Error A × World) {fix : Error → Exec (Reply B)}
      {k : A → Exec (Reply B)}
      → ((e : Error) (w : World) → r ≡ (err e, w) → Answers Q (fix e w))
      → ((a : A) (w : World) → r ≡ (ok a, w) → Answers Q (k a w))
      → Answers Q (reply_of r fix k)
  Answers-reply (ok a, w) x h = h a w refl
  Answers-reply (err e, w) x h = x e w refl

  pub Answers-bind :
      {A : Type 0} (r : Result Error A × World) {k : A → Exec (Reply B)}
      → ((a : A) (w : World) → r ≡ (ok a, w) → Answers Q (k a w))
      → Answers Q (bind_result r k)
  Answers-bind (ok a, w) h = h a w refl
  Answers-bind (err e, w) h = record { at = tt }

  pub Answers-if :
      (b : Bool) (m k : Exec (Reply B)) (w : World)
      → (b ≡ true → Answers Q (m w))
      → (b ≡ false → Answers Q (k w))
      → Answers Q ((if b then m else k) w)
  Answers-if true m k w x y = x refl
  Answers-if false m k w x y = y refl

  pub Answers-elim :
      {A : Type 0} (o : Option A) (m : Exec (Reply B)) (k : A → Exec (Reply B)) (w : World)
      → Answers Q (m w)
      → ((a : A) → o ≡ some a → Answers Q (k a w))
      → Answers Q ((elim o as (λ _. Exec (Reply B)) [ none ↦ m | some a ↦ k a ]) w)
  Answers-elim none m k w x y = x
  Answers-elim (some a) m k w x y = y a refl

module _ {A B : Type 0} {P : A → World → Type 0} where
  pub Answers-Gives :
      {R : B → World → Type 0} {r : Result Error A × World} {fix : Error → Exec (Reply B)}
      {k : A → Exec (Reply B)}
      → Gives P r
      → ((e : Error) (w : World) → Answers R (fix e w))
      → ((a : A) (w : World) → P a w → Answers R (k a w))
      → Answers R (reply_of r fix k)
  Answers-Gives {r = (ok a, w)} p x h = h a w p.at
  Answers-Gives {r = (err e, w)} p x h = x e w
