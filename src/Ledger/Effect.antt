-- ===== src/Ledger/Effect.antt =====
-- What a change of a balance that succeeds has done.
use satfarm.Prelude.{
  ℕ, ◌≡◌, ◌⊎◌, refl, ◌∙◌, true, false, not, [], ◌∷◌, ◌++◌, none, some, inl, inr, Option-cases,
  arith,
}
use satfarm.Prelude.Int.{ℤ, pos, ◌+ℤ◌, ltb_ℤ, leb_ℤ, neg64}
use satfarm.Text.{Text}
use satfarm.World.{find, modify, UserRow, Meta, Transaction, Db, World}
use satfarm.World.Exec.{constraint}
use satfarm.World.Gives.{
  Gives, Gives-bind, Gives-if, Gives-or_raise, Gives-raise_if, Gives-Gives, Gives-call,
  Gives-transaction, Same,
}
use satfarm.Ledger.{
  add_balance, insert_transaction, change_user_balance, credit_row, is_balance, any_balance,
}

-- All but the database is as before.
pub record Beside (w w' : World) : Type 0 where
  pub sessions : w'.sessions ≡ w.sessions
  pub files : w'.files ≡ w.files
  pub started : w'.started ≡ w.started

-- The row of a user whose balance has changed by `delta`.
abbrev pub IsMoved : ℕ → ℤ → ℤ → World → World → Type 0
IsMoved user delta least w w' =
    (r : UserRow) × (find user w.db.users ≡ some r)
    × (leb_ℤ least r.balance_satc ≡ true)
    × (is_balance (r.balance_satc +ℤ delta) ≡ true)
    × (w'.db ≡ record (w.db) { users = modify user (credit_row delta) w.db.users })

abbrev pub IsStill : ℕ → ℤ → World → World → Type 0
IsStill user least w w' =
    (w'.db ≡ w.db)
    × ((find user w.db.users ≡ none)
        ⊎ ((r : UserRow) × (find user w.db.users ≡ some r) × (leb_ℤ least r.balance_satc ≡ false)))

abbrev pub AfterUpdate : ℕ → ℤ → ℤ → World → ℕ → World → Type 0
AfterUpdate user delta least w n w' =
    Beside w w' × (((n ≡ 1) × IsMoved user delta least w w') ⊎ ((n ≡ 0) × IsStill user least w w'))

Beside-Same : (u v w : World) → Same u v → Beside v w → Beside u w
Beside-Same u v w s b = record {
  sessions = b.sessions ∙ s.sessions;
  files = b.files ∙ s.files;
  started = b.started ∙ s.started;
}

pub Gives-add_balance :
    (user : ℕ) (delta least : ℤ) (w : World)
    → Gives (AfterUpdate user delta least w) (add_balance user delta least w)
unfolding add_balance
Gives-add_balance user delta least w = Gives-bind (Gives-call w) (λ _ w1 s1.
    let beside : Beside w w1 = record {
      sessions = s1.sessions;
      files = s1.files;
      started = s1.started;
    } in
    elim (Option-cases (find user w1.db.users)) [
      | inl e ↦ rw e (record { at = (beside, inr (refl, (s1.db, inl (rw (← s1.db) e)))) })
      | inr (r, e) ↦ rw e (
          Gives-if (leb_ℤ least r.balance_satc) _ _ w1
            (λ enough.
              Gives-raise_if (not (is_balance (r.balance_satc +ℤ delta))) constraint w1 _ (λ good.
                record {
                  at = (
                    record { sessions = s1.sessions; files = s1.files; started = s1.started },
                    inl (refl, (r, rw (← s1.db) e, enough, ground arith, rw (s1.db) (refl))),
                  );
                }))
            (λ low. record { at = (beside, inr (refl, (s1.db, inr (r, rw (← s1.db) e, low)))) }))
    ])

abbrev pub entry_of : ℕ → ℤ → Text → Meta → Transaction
entry_of user amount reason details = record {
  user_id = user;
  amount_satc = amount;
  reason = reason;
  details = details;
}

-- The tables with a balance that has changed by `delta`, and with its row.
abbrev pub booked : ℕ → ℤ → Transaction → Db → Db
booked user delta row db = record db {
  users = modify user (credit_row delta) db.users;
  transactions = db.transactions ++ row ∷ [];
}

abbrev pub IsChanged : ℕ → ℤ → Text → Meta → World → Unit {0} → World → Type 0
IsChanged user delta reason details w _ w' =
    Beside w w'
    × (r : UserRow) × (find user w.db.users ≡ some r)
    × (is_balance (r.balance_satc +ℤ delta) ≡ true)
    × (w'.db ≡ booked user delta (entry_of user delta reason details) w.db)

pub Gives-insert_transaction :
    (user : ℕ) (amount : ℤ) (reason : Text) (details : Meta) (w : World)
    → Gives
        (λ _ w'.
          Beside w w'
          × (r : UserRow) × (find user w.db.users ≡ some r)
          × (w'.db ≡ record (w.db) {
            transactions = w.db.transactions ++ entry_of user amount reason details ∷ [];
          }))
        (insert_transaction user amount reason details w)
unfolding insert_transaction
Gives-insert_transaction user amount reason details w = Gives-bind (Gives-call w) (λ _ w1 s1.
    Gives-or_raise (find user w1.db.users) constraint w1 _ (λ r e. record {
      at = (
        record { sessions = s1.sessions; files = s1.files; started = s1.started },
        r,
        rw (← s1.db) e,
        rw (s1.db) (refl),
      );
    }))

module _ (user : ℕ) (delta : ℤ) (reason : Text) (details : Meta) where
  -- Behind the update, with the row to come.
  abbrev IsDue : World → World → Type 0
  IsDue w w1 =
      Beside w w1
      × (((r : UserRow) × (find user w.db.users ≡ some r)
            × (is_balance (r.balance_satc +ℤ delta) ≡ true)
            × (w1.db ≡ record (w.db) { users = modify user (credit_row delta) w.db.users }))
          ⊎ (find user w1.db.users ≡ none))

  with_row :
      (w w1 w2 : World)
      → IsDue w w1
      → Beside w1 w2
        × (r : UserRow) × (find user w1.db.users ≡ some r)
        × (w2.db ≡ record (w1.db) {
          transactions = w1.db.transactions ++ entry_of user delta reason details ∷ [];
        })
      → IsChanged user delta reason details w tt w2
  with_row w w1 w2 (b1, inr absent) (b2, r, found, new) = absurd (cc)
  with_row w w1 w2 (b1, inl (r, found, good, new1)) (b2, _, _, new) = (
    record {
      sessions = b2.sessions ∙ b1.sessions;
      files = b2.files ∙ b1.files;
      started = b2.started ∙ b1.started;
    },
    r,
    found,
    good,
    new ∙ rw (new1) refl,
  )

  credit-IsDue :
      (w w1 : World) (n : ℕ)
      → ((r : UserRow) → find user w.db.users ≡ some r → is_balance r.balance_satc ≡ true)
      → AfterUpdate user delta any_balance w n w1
      → IsDue w w1
  credit-IsDue w w1 n solid (b, inl (_, (r, found, _, good, new))) = (b, inl (r, found, good, new))
  credit-IsDue w w1 n solid (b, inr (_, (same, inl absent))) = (b, inr (rw same absent))
  credit-IsDue w w1 n solid (b, inr (_, (same, inr (r, found, low)))) =
      let good = solid r found in absurd (ground arith)

  pub Gives-change_user_balance :
      (w : World)
      → ((r : UserRow) → find user w.db.users ≡ some r → is_balance r.balance_satc ≡ true)
      → Gives
          (IsChanged user delta reason details w)
          (change_user_balance user delta reason details w)
  unfolding change_user_balance
  Gives-change_user_balance w solid =
      Gives-transaction {P = IsChanged user delta reason details w} _ w
        (λ w1 s1.
          Gives-bind {P = λ _ w2. IsDue w w2}
            (Gives-if (ltb_ℤ delta (pos 0)) _ _ w1
              (λ _. Gives-bind (Gives-add_balance user delta (neg64 delta) w1) (λ n w2 p2.
                elim (p2.1) [
                  | inl (one, (r, found, _, good, new)) ↦ rw one (record {
                    at = (
                      Beside-Same w w1 w2 s1 p2.0,
                      inl (r, rw (← s1.db) found, good, rw (← s1.db) new),
                    );
                  })
                  | inr (zero_rows, _) ↦ rw zero_rows (record { at = tt })
                ]))
              (λ _. Gives-bind (Gives-add_balance user delta any_balance w1) (λ n w2 p2.
                let due = credit-IsDue w1 w2 n (λ r e. solid r (rw (← s1.db) e)) p2 in
                record { at = (Beside-Same w w1 w2 s1 due.0, rw (← s1.db) (due.1)) })))
            (λ _ w2 due.
              Gives-Gives (Gives-insert_transaction user delta reason details w2)
                (λ u w3 p3. with_row w w2 w3 due p3)))
        (λ u w1 w2 p s. (
          record {
            sessions = s.sessions ∙ p.0.sessions;
            files = s.files ∙ p.0.files;
            started = s.started ∙ p.0.started;
          },
          p.1,
          p.2,
          p.3,
          s.db ∙ p.4,
        ))
