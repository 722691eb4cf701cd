-- ===== src/Ledger/Posting.antt =====
-- The statements of `changeUserBalance` and `transferUserBalance`, step by step: which rows the
-- books are ahead of the table by.
use satfarm.Prelude.{
  ℕ, ◌≡◌, ◌⊎◌, refl, false, List, [], ◌∷◌, ◌++◌, Option, some, none, ◌==◌, if◌then◌else◌, inl, inr,
  Option-cases, Bool-cases, arith,
}
use satfarm.Prelude.Int.{ℤ, pos, ◌+ℤ◌, ◌-ℤ◌, ltb_ℤ, leb_ℤ, neg64}
use satfarm.Text.{Text, codes}
use satfarm.World.{Table, find, UserRow, Db, FilePath, World, Meta, Transaction}
use satfarm.World.Exec.{
  constraint, insufficient_balance, non_positive_amount, ◌>>=◌, ◌>>◌, pure, raise_if,
}
use satfarm.World.Keeps.{
  Holds, Ends, Safe, Safe-bind, Ends-Ends, Ends-bind, Ends-call, Safe-raise_if, Ends-or_raise,
  Ends-if, Ends-transaction,
}
use satfarm.Ledger.{
  add_balance, insert_transaction, change_user_balance, transfer_user_balance, is_balance,
  any_balance,
}
use satfarm.Ledger.Books.{HasBooks, credit-HasBooks}

-- The table has the rows `ts`, and the balances are those of the books `l`.
abbrev pub Owes : List Transaction → List Transaction → Db → Type 0
Owes ts l db = (db.transactions ≡ ts) × HasBooks db.users l

-- What a credit or a debit does to the books: its row is owed, or no row of the table has changed.
abbrev pub Posted : List Transaction → List Transaction → Transaction → ℤ → ℕ → Db → Type 0
Posted ts l row least n db =
    Owes ts (l ++ row ∷ []) db
    ⊎ ((n ≡ 0)
        × (db.transactions ≡ ts)
        × ((find row.user_id db.users ≡ none) ⊎ (leb_ℤ least (pos 0) ≡ false)))

abbrev entry : ℕ → ℤ → Text → Meta → Transaction
entry user amount reason details = record {
  user_id = user;
  amount_satc = amount;
  reason = reason;
  details = details;
}

-- Invariants that balances and transactions are no part of.
module _ (f : FilePath → Option Text) (J : Db → Type 0)
    (free : (db : Db) (u : Table UserRow) (ts : List Transaction)
      → J db
      → J (record db { users = u; transactions = ts })) where
  Ends-add_balance :
      (ts l : List Transaction) (row : Transaction) (least : ℤ) (w : World)
      → Holds f J w
      → Owes ts l w.db
      → Ends f J (Posted ts l row least) (add_balance row.user_id row.amount_satc least w)
  unfolding add_balance
  Ends-add_balance ts l row least w h p = Ends-bind (Ends-call {P = Owes ts l} w h p) (λ _ w1 h1 p1.
      elim (Option-cases (find row.user_id w1.db.users)) [
        | inl e ↦ rw e (record { at = (h1, inr (refl, p1.0, inl e)) })
        | inr (r, e) ↦ rw e (
            Ends-if (leb_ℤ least r.balance_satc) _ _ w1
              (λ _. elim (Bool-cases (is_balance (r.balance_satc +ℤ row.amount_satc))) [
                | inl ok ↦ rw ok (record {
                  at = (
                    (record { files = h1.files; db_inv = free w1.db _ _ h1.db_inv }),
                    inl (p1.0, credit-HasBooks w1.db.users l p1.1 row r e ok),
                  );
                })
                | inr bad ↦ rw bad (record { at = h1 })
              ])
              (λ low.
                let solid = p1.1.solvent row.user_id r e in
                record { at = (h1, inr (refl, p1.0, inr (ground arith))) }))
      ])

  Ends-insert_transaction :
      (P : Table UserRow → Type 0) (ts : List Transaction) (user : ℕ) (amount : ℤ) (reason : Text)
      (details : Meta) (w : World)
      → Holds f J w
      → w.db.transactions ≡ ts
      → P w.db.users
      → Ends f J
          (λ _ db.
            (db.transactions ≡ ts ++ entry user amount reason details ∷ [])
            × P db.users
            × (r : UserRow) × (find user db.users ≡ some r))
          (insert_transaction user amount reason details w)
  unfolding insert_transaction
  Ends-insert_transaction P ts user amount reason details w h e p =
      Ends-bind (Ends-call {P = λ db. (db.transactions ≡ ts) × P db.users} w h (e, p))
        (λ _ w1 h1 p1. Ends-or_raise (find user w1.db.users) constraint w1 _ h1 (λ r found. record {
          at = (
            (record { files = h1.files; db_inv = free w1.db _ _ h1.db_inv }),
            (rw (p1.0) (refl), p1.1, r, found),
          );
        }))

  -- A debit that changes no row raises.
  Ends-check :
      (ts l : List Transaction) (row : Transaction) (least : ℤ) (n : ℕ) (w : World)
      → Holds f J w
      → Posted ts l row least n w.db
      → Ends f J (λ _. Owes ts (l ++ row ∷ [])) (raise_if (n == 0) insufficient_balance w)
  Ends-check ts l row least n w h posted = elim posted [
    | inl owed ↦ elim (Bool-cases (n == 0)) [
      | inl zero_rows ↦ rw zero_rows (record { at = h })
      | inr changed ↦ rw changed (record { at = (h, owed) })
    ]
    | inr (zero_rows, _, _) ↦ rw zero_rows (record { at = h })
  ]

  -- A credit is owed, or there is no such user.
  Ends-credit :
      (ts l : List Transaction) (row : Transaction) (w : World)
      → Holds f J w
      → Owes ts l w.db
      → Ends f J
          (λ _ db.
            (db.transactions ≡ ts)
            × (HasBooks db.users (l ++ row ∷ []) ⊎ (find row.user_id db.users ≡ none)))
          (add_balance row.user_id row.amount_satc any_balance w)
  Ends-credit ts l row w h p =
      Ends-Ends (Ends-add_balance ts l row any_balance w h p) (λ n db posted. elim posted [
        | inl owed ↦ (owed.0, inl owed.1)
        | inr (_, same, inl absent) ↦ (same, inr absent)
        | inr (_, _, inr wrong) ↦ absurd (ground arith)
      ])

  Ends-change :
      (user : ℕ) (delta : ℤ) (reason : Text) (details : Meta) (w : World)
      → Holds f J w
      → HasBooks w.db.users w.db.transactions
      → Ends f J
          (λ _ db. HasBooks db.users db.transactions)
          ((do
            if ltb_ℤ delta (pos 0)
                then (do
                  n ← add_balance user delta (neg64 delta)
                  raise_if (n == 0) insufficient_balance)
                else (do add_balance user delta any_balance; pure tt)
            insert_transaction user delta reason details)
            w)
  Ends-change user delta reason details w h b =
      let ts = w.db.transactions in
      let row = entry user delta reason details in
      let Due : Table UserRow → Type 0 = λ u. HasBooks u (ts ++ row ∷ []) ⊎ (find user u ≡ none) in
      Ends-bind {P = λ _ db. (db.transactions ≡ ts) × Due db.users}
        (Ends-if (ltb_ℤ delta (pos 0)) _ _ w
          (λ _. Ends-bind (Ends-add_balance ts ts row (neg64 delta) w h (refl, b)) (λ n w1 h1 p1.
            Ends-Ends (Ends-check ts ts row (neg64 delta) n w1 h1 p1)
              (λ _ db owed. (owed.0, inl owed.1))))
          (λ _.
            Ends-bind (Ends-credit ts ts row w h (refl, b)) (λ n w1 h1 p. record { at = (h1, p) })))
        (λ _ w2 h2 p2.
          Ends-Ends (Ends-insert_transaction Due ts user delta reason details w2 h2 p2.0 p2.1)
            (λ _ db q. elim (q.1) [
              | inl due ↦ rw (q.0) due
              | inr absent ↦ let found = q.3 in absurd (cc)
            ]))

  Ends-transfer :
      (from to : ℕ) (amount : ℤ) (debit credit : Text) (details : Meta) (w : World)
      → Holds f J w
      → HasBooks w.db.users w.db.transactions
      → Ends f J
          (λ _ db. HasBooks db.users db.transactions)
          ((do
            n ← add_balance from (pos 0 -ℤ amount) amount
            raise_if (n == 0) insufficient_balance
            add_balance to amount any_balance
            insert_transaction from (pos 0 -ℤ amount) debit details
            insert_transaction to amount credit details)
            w)
  Ends-transfer from to amount debit credit details w h b =
      let ts = w.db.transactions in
      let out = entry from (pos 0 -ℤ amount) debit details in
      let into = entry to amount credit details in
      let Due : Table UserRow → Type 0 =
        λ u. HasBooks u ((ts ++ out ∷ []) ++ into ∷ []) ⊎ (find to u ≡ none) in
      Ends-bind (Ends-add_balance ts ts out amount w h (refl, b)) (λ n w0 h0 p0.
        Ends-bind (Ends-check ts ts out amount n w0 h0 p0) (λ _ w1 h1 p1.
          Ends-bind (Ends-credit ts (ts ++ out ∷ []) into w1 h1 p1) (λ _ w2 h2 p2.
            Ends-bind
              (Ends-insert_transaction Due ts from (pos 0 -ℤ amount) debit details w2 h2 p2.0 p2.1)
              (λ _ w3 h3 p3.
                Ends-Ends
                  (Ends-insert_transaction Due (ts ++ out ∷ []) to amount credit details w3 h3 p3.0
                    p3.1)
                  (λ _ db q. elim (q.1) [
                    | inl due ↦ rw (q.0) due
                    | inr absent ↦ let found = q.3 in absurd (cc)
                  ])))))

-- An invariant that holds whatever the balances and the transactions are, as long as they are the
-- books.
module _ (f : FilePath → Option Text) (I : Db → Type 0)
    (books : (db : Db) → I db → HasBooks db.users db.transactions)
    (post : (db : Db)
      → I db
      → (u : Table UserRow) (ts : List Transaction) → HasBooks u ts
      → I (record db { users = u; transactions = ts })) where
  -- What the body of a transaction keeps: with the old books, the invariant.
  abbrev But : Db → Db → Type 0
  But d0 db = I (record db { users = d0.users; transactions = d0.transactions })

  start : (w w' : World) → Holds f I w → w'.files ≡ f → w'.db ≡ w.db → Holds f (But w.db) w'
  start w w' h files same = record { files = files; db_inv = rw (same) (h.db_inv) }

  pub Safe-change_user_balance :
      (user : ℕ) (delta : ℤ) (reason : Text) (details : Meta) (w : World)
      → Holds f I w
      → Safe f I (change_user_balance user delta reason details w)
  unfolding change_user_balance
  Safe-change_user_balance user delta reason details w h =
      Ends-transaction {J = But w.db} {P = λ _ db. HasBooks db.users db.transactions} _ w h
        (λ w' files same.
          Ends-change f (But w.db) (λ db u ts j. j) user delta reason details w'
            (start w w' h files same) (rw (same) (books w.db h.db_inv)))
        (λ a d j p. (post _ j d.users d.transactions p, tt))

  pub Safe-transfer_user_balance :
      (from to : ℕ) (amount : ℤ) (reason : Text) (details : Meta) (w : World)
      → Holds f I w
      → Safe f I (transfer_user_balance from to amount reason details w)
  unfolding transfer_user_balance
  Safe-transfer_user_balance from to amount reason details w h =
      Safe-bind (Safe-raise_if (leb_ℤ amount (pos 0)) non_positive_amount w h) (λ _ w0 h0.
        Ends-transaction {J = But w0.db} {P = λ _ db. HasBooks db.users db.transactions} _ w0 h0
          (λ w' files same.
            Ends-transfer f (But w0.db) (λ db u ts j. j) from to amount (reason ++ codes "_debit")
              (reason ++ codes "_credit") details w' (start w0 w' h0 files same)
              (rw (same) (books w0.db h0.db_inv)))
          (λ a d j p. (post _ j d.users d.transactions p, tt)))
