-- ===== src/World/Exec.antt =====
-- Handlers: calls that read and change the world, and return a value or an error. What was changed
-- before an error stays changed, but for a database transaction, which is rolled back.
use satfarm.Prelude.{Bool, List, [], ◌∷◌, Option, none, some, Result, ok, err, if◌then◌else◌}
use satfarm.World.Rows.{Db}
use satfarm.World.State.{World}

pub data Error : Type 0 where
  call_failed no_rows constraint : Error
  insufficient_balance non_positive_amount unknown_worker : Error
  bad_header cannot_open bad_file bad_literal invalid_proof unsatisfied : Error
  unauthenticated internal_error : Error

abbrev pub Exec {ℓ} : Type ℓ → Type ℓ
Exec A = World → Result Error A × World

module _ {ℓ} {A : Type ℓ} where
  abbrev pub pure : A → Exec A
  pure a w = (ok a, w)

  abbrev pub raise : Error → Exec A
  raise e w = (err e, w)

  abbrev pub gets : (World → A) → Exec A
  gets f w = (ok (f w), w)

  abbrev pub or_raise : Option A → Error → Exec A
  or_raise none e = raise e
  or_raise (some a) e = pure a

abbrev pub bind_result {ℓ κ} :
    {A : Type ℓ} {B : Type κ} → Result Error A × World → (A → Exec B) → Result Error B × World
bind_result (ok a, w) f = f a w
bind_result (err e, w) f = (err e, w)

infixl 5 ◌>>=◌ ◌>>◌
abbrev pub ◌>>=◌ {ℓ κ} : {A : Type ℓ} {B : Type κ} → Exec A → (A → Exec B) → Exec B
◌>>=◌ m f w = bind_result (m w) f

abbrev pub ◌>>◌ {ℓ κ} : {A : Type ℓ} {B : Type κ} → Exec A → Exec B → Exec B
m >> k = m >>= λ _. k

abbrev pub put_world : (World → World) → Exec (Unit {0})
put_world f w = (ok tt, f w)

abbrev pub raise_if : Bool → Error → Exec (Unit {0})
raise_if b e w = (if b then err e else ok tt, w)

-- A call that the environment may let fail.
abbrev pub outcome : List Bool → Result Error (Unit {0})
outcome [] = ok tt
outcome (b ∷ bs) = if b then err call_failed else ok tt

abbrev pub later_faults : List Bool → List Bool
later_faults [] = []
later_faults (b ∷ bs) = bs

unfoldable pub call : Exec (Unit {0})
call w = (outcome w.faults, record w { faults = later_faults w.faults })

-- A statement that reads, and one that writes.
unfoldable pub query {ℓ} : {A : Type ℓ} → (Db → A) → Exec A
unfolding call
query f = do call; gets (λ w. f w.db)

unfoldable pub update_db : (Db → Db) → Exec (Unit {0})
unfolding call
update_db f = do call; put_world (λ w. record w { db = f w.db })

-- `err` is logged, and the caller goes on.
abbrev pub attempt {ℓ} : {A : Type ℓ} → Exec A → Exec (Result Error A)
attempt m w = let (r, w') = m w in (ok r, w')

abbrev pub settle {ℓ} : {A : Type ℓ} → Db → Result Error A × World → Result Error A × World
settle db (ok a, w) = (ok a, w)
settle db (err e, w) = (err e, record w { db = db })

-- `BeginTx`, the statements, `Commit`, and the deferred `Rollback`.
unfoldable pub transaction {ℓ} : {A : Type ℓ} → Exec A → Exec A
unfolding call
transaction m = do call; λ w. settle w.db ((m >>= λ a. call >>= λ _. pure a) w)
