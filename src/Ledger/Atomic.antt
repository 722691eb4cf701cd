-- ===== src/Ledger/Atomic.antt =====
-- A transfer that fails leaves the database as it was.
use satfarm.Prelude.{ℕ, ◌≡◌, refl, Result, ok, err, inl, inr, Result-cases, Bool-cases}
use satfarm.Prelude.Int.{ℤ, pos, leb_ℤ}
use satfarm.Text.{Text}
use satfarm.World.{Db, World, Meta}
use satfarm.World.Exec.{Error, Exec, settle, call, outcome, transaction}
use satfarm.Ledger.{transfer_user_balance}

-- The database behind a call that has failed.
abbrev pub AsBefore {ℓ} : {A : Type ℓ} → Db → Result Error A × World → Type 0
AsBefore db (ok a, w) = Unit {0}
AsBefore db (err e, w) = w.db ≡ db

settle-AsBefore : {A : Type 0} (db : Db) (r : Result Error A × World) → AsBefore db (settle db r)
settle-AsBefore db (ok a, w) = tt
settle-AsBefore db (err e, w) = refl

transaction-AsBefore : {A : Type 0} (m : Exec A) (w : World) → AsBefore w.db (transaction m w)
unfolding transaction call
transaction-AsBefore m w = elim (Result-cases (outcome w.faults)) [
  | inl (a, e) ↦ rw e (settle-AsBefore w.db _)
  | inr (x, e) ↦ rw e (refl)
]

-- A transfer that fails leaves the database as it was.
pub transfer_user_balance-AsBefore :
    (from to : ℕ) (amount : ℤ) (reason : Text) (details : Meta) (w : World)
    → AsBefore w.db (transfer_user_balance from to amount reason details w)
unfolding transfer_user_balance
transfer_user_balance-AsBefore from to amount reason details w =
    elim (Bool-cases (leb_ℤ amount (pos 0))) [
      | inl bad ↦ rw bad (refl)
      | inr good ↦ rw good (transaction-AsBefore _ w)
    ]
