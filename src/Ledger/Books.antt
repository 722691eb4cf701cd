-- ===== src/Ledger/Books.antt =====
-- The balances of the table of users, as the sums of the rows of the table of transactions.
use satfarm.Prelude.{
  ℕ, ◌≤◌, ◌≡◌, refl, sym, ◌∙◌, true, false, List, [], ◌∷◌, ◌++◌, some, if◌then◌else◌, ◌==◌, ==_iff,
  inl, inr, Bool-cases, arith,
}
use satfarm.Prelude.Int.{ℤ, pos, ◌+ℤ◌}
use satfarm.World.{
  Table, no_rows, find, insert, modify, find-insert, find-modify, find-lt, UserRow, Transaction,
}
use satfarm.Ledger.{credit_row, is_balance}

-- What the rows of a user add to `acc`.
pub total_from : ℤ → ℕ → List Transaction → ℤ
total_from acc user [] = acc
total_from acc user (t ∷ ts) =
    total_from (if t.user_id == user then acc +ℤ t.amount_satc else acc) user ts

abbrev pub total : ℕ → List Transaction → ℤ
total user ts = total_from (pos 0) user ts

total_from_snoc :
    (ts : List Transaction) (t : Transaction) (acc : ℤ) (user : ℕ)
    → total_from acc user (ts ++ t ∷ []) ≡ (
        if t.user_id == user
        then total_from acc user ts +ℤ t.amount_satc
        else total_from acc user ts)
unfolding total_from
total_from_snoc [] t acc user = refl
total_from_snoc (x ∷ xs) t acc user = total_from_snoc xs t _ user

-- Every balance is the sum of the user's transactions, and is one that the table's CHECK allows; a
-- key that is not in use has none.
pub record HasBooks (users : Table UserRow) (ts : List Transaction) : Type 0 where
  pub balanced : (k : ℕ) (r : UserRow) → find k users ≡ some r → r.balance_satc ≡ total k ts
  pub solvent : (k : ℕ) (r : UserRow) → find k users ≡ some r → is_balance r.balance_satc ≡ true
  pub unbooked : (k : ℕ) → users.next ≤ k → total k ts ≡ pos 0

pub no_rows-HasBooks : HasBooks no_rows []
unfolding total_from find
no_rows-HasBooks = record {
  balanced = λ k r e. absurd (ground (arith, e));
  solvent = λ k r e. absurd (ground (arith, e));
  unbooked = λ k le. refl;
}

module _ (users : Table UserRow) (ts : List Transaction) (b : HasBooks users ts) where
  -- A credit or a debit with its row.
  pub credit-HasBooks :
      (row : Transaction) (r : UserRow)
      → find row.user_id users ≡ some r
      → is_balance (r.balance_satc +ℤ row.amount_satc) ≡ true
      → HasBooks (modify row.user_id (credit_row row.amount_satc) users) (ts ++ row ∷ [])
  unfolding modify
  credit-HasBooks row r e ok = record {
    balanced = λ k s found.
        let found' = sym (find-modify k row.user_id (credit_row row.amount_satc) users) ∙ found in
        elim (Bool-cases (k == row.user_id)) [
          | inl here ↦
              let same = (==_iff k row.user_id).0 here in
              let mine = rw (here, same, e) at found' in
              let was = b.balanced row.user_id r e in
              let back : (row.user_id == row.user_id) ≡ true = ground arith in
              rw (same, total_from_snoc ts row (pos 0) row.user_id, back, ← was) (cc)
          | inr away ↦
              let back : (row.user_id == k) ≡ false = ground arith in
              rw (total_from_snoc ts row (pos 0) k, back) (b.balanced k s (rw away at found'))
        ];
    solvent = λ k s found.
        let found' = sym (find-modify k row.user_id (credit_row row.amount_satc) users) ∙ found in
        elim (Bool-cases (k == row.user_id)) [
          | inl here ↦
              let same = (==_iff k row.user_id).0 here in
              let mine = rw (here, same, e) at found' in
              let now : credit_row row.amount_satc r ≡ s = cc in rw (← now) ok
          | inr away ↦ b.solvent k s (rw away at found')
        ];
    unbooked = λ k le.
        let lt = find-lt row.user_id users e in
        let back : (row.user_id == k) ≡ false = ground arith in
        rw (total_from_snoc ts row (pos 0) k, back) (b.unbooked k le);
  }

  -- A new user has no money.
  pub insert-HasBooks : (r : UserRow) → r.balance_satc ≡ pos 0 → HasBooks (insert r users) ts
  unfolding insert
  insert-HasBooks r zero_balance = record {
    balanced = λ k s found.
        let found' = sym (find-insert k r users) ∙ found in
        elim (Bool-cases (k == users.next)) [
          | inl here ↦
              let same = (==_iff k users.next).0 here in
              let mine = rw here at found' in
              let free = b.unbooked k (omega (arith, same)) in rw (free) (cc)
          | inr away ↦ b.balanced k s (rw away at found')
        ];
    solvent = λ k s found.
        let found' = sym (find-insert k r users) ∙ found in
        elim (Bool-cases (k == users.next)) [
          | inl here ↦
              let mine = rw here at found' in let now : r ≡ s = cc in rw (← now, zero_balance) refl
          | inr away ↦ b.solvent k s (rw away at found')
        ];
    unbooked = λ k le. b.unbooked k (omega arith);
  }
