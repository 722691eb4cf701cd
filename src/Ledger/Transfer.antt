-- ===== src/Ledger/Transfer.antt =====
-- What a transfer does, where it succeeds and where it fails.
use satfarm.Prelude.{
  ℕ, ◌≡◌, Option, refl, sym, ◌∙◌, ◌==◌, ==_iff, ==_refl, true, false, Bool-cases, inl, inr, none,
  some, ◌++◌, [], ◌∷◌, arith, Result, ok, err,
}
use satfarm.Prelude.Int.{ℤ, pos, ◌+ℤ◌, ◌-ℤ◌, leb_ℤ}
use satfarm.Text.{Text, codes}
use satfarm.World.{find, modify, find-modify, on_row, UserRow, Meta, Transaction, World}
use satfarm.World.Exec.{Error, non_positive_amount, insufficient_balance}
use satfarm.World.Gives.{
  Gives, GivesAt, Gives-bind, Gives-raise_if, Gives-Gives, Gives-transaction, Same,
}
use satfarm.Ledger.{
  add_balance, insert_transaction, transfer_user_balance, credit_row, is_balance, any_balance,
}
use satfarm.Ledger.Atomic.{AsBefore, transfer_user_balance-AsBefore}
use satfarm.Ledger.Effect.{
  Gives-add_balance, Gives-insert_transaction, AfterUpdate, Beside, booked, entry_of,
}

-- The balances are those that the table allows.
abbrev pub IsSolvent : World → Type 0
IsSolvent w =
    (user : ℕ) (r : UserRow) → find user w.db.users ≡ some r → is_balance r.balance_satc ≡ true

-- Both users exist, the first has the amount, and both balances have changed, with a row for each.
abbrev pub IsTransferred : ℕ → ℕ → ℤ → Text → Meta → World → World → Type 0
IsTransferred from to amount reason details w w' =
    (a b : UserRow) × (find from w.db.users ≡ some a)
    × (find to w.db.users ≡ some b)
    × (leb_ℤ amount (pos 0) ≡ false)
    × (leb_ℤ amount a.balance_satc ≡ true)
    × (w'.db
        ≡ booked to amount (entry_of to amount (reason ++ codes "_credit") details) (
            booked from (pos 0 -ℤ amount)
              (entry_of from (pos 0 -ℤ amount) (reason ++ codes "_debit") details) w.db))

-- An update that has found no row behind the debit.
module _ (from to : ℕ) (delta : ℤ) (w : World) (solid : IsSolvent w) where
  debited-solid :
      (a : UserRow)
      → find from w.db.users ≡ some a
      → is_balance (a.balance_satc +ℤ delta) ≡ true
      → (r : UserRow) → find to (modify from (credit_row delta) w.db.users) ≡ some r
      → is_balance r.balance_satc ≡ true
  debited-solid a found good r e =
      let e1 = sym (find-modify to from (credit_row delta) w.db.users) ∙ e in
      elim (Bool-cases (to == from)) [
        | inl here ↦
            let e2 = rw (here, (==_iff to from).0 here, found) at e1 in
            let now : credit_row delta a ≡ r = cc in rw (← now) good
        | inr away ↦ solid to r (rw away at e1)
      ]

  debited_row :
      (r : UserRow)
      → find to (modify from (credit_row delta) w.db.users) ≡ some r
      → (b : UserRow) × (find to w.db.users ≡ some b)
  debited_row r e =
      let e1 = sym (find-modify to from (credit_row delta) w.db.users) ∙ e in
      elim (Bool-cases (to == from)) [
        | inl here ↦ let e2 = rw here at e1 in some_row (find to w.db.users) e2
        | inr away ↦ (r, rw away at e1)
      ]
    where
      some_row :
          (o : Option UserRow) → on_row (credit_row delta) o ≡ some r → (b : UserRow) × (o ≡ some b)
      some_row none h = absurd (cc)
      some_row (some b) h = (b, refl)

-- What an inserted row leaves.
abbrev HasEntry : ℕ → Transaction → World → World → Type 0
HasEntry user row w w' =
    Beside w w'
    × (r : UserRow) × (find user w.db.users ≡ some r)
    × (w'.db ≡ record (w.db) { transactions = w.db.transactions ++ row ∷ [] })

module _ (from to : ℕ) (amount : ℤ) (reason : Text) (details : Meta) (w w1 w2 w3 w4 w5 : World)
    (solid : IsSolvent w) (same : Same w w1) (positive : leb_ℤ amount (pos 0) ≡ false)
    (debit : HasEntry from
      (entry_of from (pos 0 -ℤ amount) (reason ++ codes "_debit") details)
      w3
      w4)
    (credit : HasEntry to (entry_of to amount (reason ++ codes "_credit") details) w4 w5) where
  both_moved :
      (n m : ℕ)
      → (n == 0) ≡ false
      → AfterUpdate from (pos 0 -ℤ amount) amount w1 n w2
      → AfterUpdate to amount any_balance w2 m w3
      → IsTransferred from to amount reason details w w5
  both_moved n m some_row (b1, inr (zero_rows, _)) p3 =
      let e = rw zero_rows at some_row in absurd (cc)
  both_moved n m some_row (b1, inl (one, (a, found, enough, good, new2))) (b3, p3) =
      let found' = rw same.db at found in
      let base : w2.db
          ≡ record (w.db) { users = modify from (credit_row (pos 0 -ℤ amount)) w.db.users } =
        new2 ∙ rw (same.db) refl in
      elim p3 [
        | inr (zero_rows, (still, inl absent)) ↦
            let users : w4.db.users ≡ w2.db.users = rw (debit.3, still) refl in
            let here = rw users at credit.2 in absurd (cc)
        | inr (zero_rows, (still, inr (r, there, low))) ↦
            let moved = rw base at there in
            let fine = debited-solid from to (pos 0 -ℤ amount) w solid a found' good r moved in
            absurd (ground arith)
        | inl (one', (r, there, _, good', new3)) ↦
            let (b, to_row) = debited_row from to (pos 0 -ℤ amount) w solid r (rw base at there) in
            (a, b, found', to_row, positive, enough, rw (credit.3, debit.3, new3, base) refl)
      ]

Gives-transfer_user_balance :
    (from to : ℕ) (amount : ℤ) (reason : Text) (details : Meta) (w : World)
    → IsSolvent w
    → Gives
        (λ _. IsTransferred from to amount reason details w)
        (transfer_user_balance from to amount reason details w)
unfolding transfer_user_balance
Gives-transfer_user_balance from to amount reason details w solid =
    Gives-raise_if (leb_ℤ amount (pos 0)) non_positive_amount w _ (λ positive.
      Gives-transaction {P = λ _. IsTransferred from to amount reason details w} _ w
        (λ w1 s1. Gives-bind (Gives-add_balance from (pos 0 -ℤ amount) amount w1) (λ n w2 p2.
          Gives-raise_if (n == 0) insufficient_balance w2 _ (λ some_row.
            Gives-bind (Gives-add_balance to amount any_balance w2) (λ m w3 p3.
              Gives-bind
                (Gives-insert_transaction from (pos 0 -ℤ amount) (reason ++ codes "_debit") details
                  w3)
                (λ _ w4 p4.
                  Gives-Gives
                    (Gives-insert_transaction to amount (reason ++ codes "_credit") details w4)
                    (λ _ w5 p5.
                      both_moved from to amount reason details w w1 w2 w3 w4 w5 solid s1 positive p4
                        p5 n m some_row p2 p3))))))
        (λ _ w1 w2 (a, b, one, two, positive, enough, new) s.
          (a, b, one, two, positive, enough, s.db ∙ new)))

-- A transfer moves the amount, or leaves the database as it was.
abbrev pub IsAtomic : ℕ → ℕ → ℤ → Text → Meta → World → Result Error (Unit {0}) × World → Type 0
IsAtomic from to amount reason details w (ok u, w') =
    IsTransferred from to amount reason details w w'
IsAtomic from to amount reason details w (err e, w') = w'.db ≡ w.db

-- Where the table allows all balances, a transfer that succeeds has taken a positive amount from a
-- user who had it and given it to the other, has appended a row for each of the two, and has changed
-- nothing else of the database; and one that fails, be it for the balance, the amount, or a call of
-- the database at any point, has left the database as it was.
pub transfer_user_balance-IsAtomic :
    (from to : ℕ) (amount : ℤ) (reason : Text) (details : Meta) (w : World)
    → IsSolvent w
    → IsAtomic from to amount reason details w
        (transfer_user_balance from to amount reason details w)
transfer_user_balance-IsAtomic from to amount reason details w solid =
    split (transfer_user_balance from to amount reason details w)
      (Gives-transfer_user_balance from to amount reason details w solid).at
      (transfer_user_balance-AsBefore from to amount reason details w)
  where
    split :
        (r : Result Error (Unit {0}) × World)
        → GivesAt (λ _. IsTransferred from to amount reason details w) r
        → AsBefore w.db r
        → IsAtomic from to amount reason details w r
    split (ok u, w') g f = g
    split (err e, w') g f = f

apart_sym : (m n : ℕ) → (m == n) ≡ false → (n == m) ≡ false
apart_sym m n h = ground arith

-- Where both of two different users exist, the amount is positive, the first has it, both balances
-- stay in the range that the table allows, and no call fails, a transfer succeeds.
pub transfer_user_balance_succeeds :
    (from to : ℕ) (amount : ℤ) (reason : Text) (details : Meta) (w : World) (a b : UserRow)
    → find from w.db.users ≡ some a
    → find to w.db.users ≡ some b
    → (to == from) ≡ false
    → leb_ℤ amount (pos 0) ≡ false
    → leb_ℤ amount a.balance_satc ≡ true
    → is_balance (a.balance_satc +ℤ (pos 0 -ℤ amount)) ≡ true
    → (leb_ℤ any_balance b.balance_satc ≡ true) × (is_balance (b.balance_satc +ℤ amount) ≡ true)
    → (transfer_user_balance from to amount reason details (record w { faults = [] })).0 ≡ ok tt
unfolding transfer_user_balance add_balance insert_transaction satfarm.World.Exec.transaction
    satfarm.World.Exec.call
transfer_user_balance_succeeds from to amount reason details w a b ea eb apart positive enough good
      low =
    let users = w.db.users in
    let debited = modify from (credit_row (pos 0 -ℤ amount)) users in
    let to_row : find to debited ≡ some b =
      find-modify to from (credit_row (pos 0 -ℤ amount)) users ∙ rw apart eb in
    let from_row : find from debited ≡ some (credit_row (pos 0 -ℤ amount) a) =
      find-modify from from (credit_row (pos 0 -ℤ amount)) users ∙ rw (==_refl from, ea) refl in
    let from_row' : find from (modify to (credit_row amount) debited)
        ≡ some (credit_row (pos 0 -ℤ amount) a) =
      find-modify from to (credit_row amount) debited
      ∙ rw (apart_sym to from apart, from_row) refl in
    let to_row' : find to (modify to (credit_row amount) debited) ≡ some (credit_row amount b) =
      find-modify to to (credit_row amount) debited ∙ rw (==_refl to, to_row) refl in
    rw (positive, ea, enough, good) (rw (to_row, low.0, low.1) (rw (from_row') (rw (to_row') refl)))
