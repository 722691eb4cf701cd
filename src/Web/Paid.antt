-- ===== src/Web/Paid.antt =====
-- What a deposit and a withdrawal do.
use satfarm.Prelude.{ℕ, ◌≡◌, ◌⊎◌, inl, inr, refl, sym, ◌∙◌, true, not, ==_refl, some, ok}
use satfarm.Prelude.Int.{ℤ, pos, ◌+ℤ◌, ◌-ℤ◌}
use satfarm.Text.{Text, codes}
use satfarm.World.{find, modify, find-modify, no_meta, UserRow, World}
use satfarm.World.Exec.{no_rows}
use satfarm.World.Gives.{Gives, Gives-bind, Gives-or_raise, Gives-query, Same}
use satfarm.Ledger.{is_balance, credit_row}
use satfarm.Ledger.Books.{HasBooks}
use satfarm.Ledger.Effect.{booked, entry_of, Gives-change_user_balance}
use satfarm.Web.{Request, is_post, answered}
use satfarm.Web.Session.{current_user_id}
use satfarm.Web.Wallet.{load_balance, WalletView, change_wallet, handle_deposit, handle_withdraw}
use satfarm.Web.Answers.{Answers, Answers-if, Answers-elim, Answers-Gives, of_answer}

pub Gives-load_balance :
    (user : ℕ) (w : World)
    → Gives
        (λ b w'.
          (row : UserRow) × (find user w.db.users ≡ some row) × (b ≡ row.balance_satc) × Same w w')
        (load_balance user w)
unfolding load_balance
Gives-load_balance user w = Gives-bind (Gives-query (λ db. find user db.users) w) (λ row w1 p1.
    Gives-or_raise row no_rows w1 _ (λ r e. record { at = (r, sym (p1.0) ∙ e, refl, p1.1) }))

-- The balance of the user who is signed in has changed by `delta`, with one row of its own.
abbrev pub IsPaid : ℤ → Text → Request → World → WalletView → World → Type 0
IsPaid delta reason r w v w' =
    (user : ℕ) × (row : UserRow) × (current_user_id r.cookie w.sessions ≡ some user)
    × (find user w.db.users ≡ some row)
    × (v.balance ≡ row.balance_satc +ℤ delta)
    × (is_balance v.balance ≡ true)
    × (w'.db ≡ booked user delta (entry_of user delta reason no_meta) w.db)
    × (w'.sessions ≡ w.sessions)

pub moved_row :
    (user : ℕ) (delta : ℤ) (row row' : UserRow) (w : World)
    → find user w.db.users ≡ some row
    → find user (modify user (credit_row delta) w.db.users) ≡ some row'
    → row'.balance_satc ≡ row.balance_satc +ℤ delta
moved_row user delta row row' w e e' =
    let m = sym (find-modify user user (credit_row delta) w.db.users) ∙ e' in
    let m' = rw (==_refl user, e) at m in
    let now : credit_row delta row ≡ row' = cc in rw (← now) refl

pub Answers-change_wallet :
    (delta : ℤ) (reason : Text) (r : Request) (w : World)
    → HasBooks w.db.users w.db.transactions
    → Answers (IsPaid delta reason r w) (change_wallet delta reason r w)
unfolding change_wallet
Answers-change_wallet delta reason r w b =
    Answers-if (not (is_post r.method)) _ _ w (λ _. record { at = tt })
      (λ _.
        Answers-elim (current_user_id r.cookie w.sessions) _ _ w (record { at = tt })
          (λ user who.
            Answers-Gives
              (Gives-change_user_balance user delta reason no_meta w
                (λ row e. b.solvent user row e))
              (λ e w1. record { at = tt })
              (λ _ w1 (beside, row, found, good, new).
                Answers-Gives (Gives-load_balance user w1) (λ e w2. record { at = tt })
                  (λ bal w2 (row', found', is, s2).
                    let same : bal ≡ row.balance_satc +ℤ delta =
                      is ∙ moved_row user delta row row' w found (rw new at found') in
                    record {
                      at = (
                        user,
                        row,
                        who,
                        found,
                        same,
                        rw same good,
                        s2.db ∙ new,
                        s2.sessions ∙ beside.sessions,
                      );
                    }))))

-- Where the balances are those of the transactions, and a deposit or a withdrawal answers, the balance
-- of the user who is signed in has changed by 1000 for the one and by -1000 for the other, the answer
-- is the new balance, which is not negative, one row of that amount and reason is appended to the
-- transactions, nothing else of the tables has changed, and the sessions are as before.
pub handle_withdraw-pays :
    (delta : ℤ) (reason : Text) (r : Request) (w w' : World) (v : WalletView)
    → HasBooks w.db.users w.db.transactions
    → ((handle_deposit r w ≡ (ok (answered v), w'))
        × (delta ≡ pos 1000)
        × (reason ≡ codes "deposit"))
      ⊎ ((handle_withdraw r w ≡ (ok (answered v), w'))
          × (delta ≡ pos 0 -ℤ pos 1000)
          × (reason ≡ codes "withdraw"))
    → IsPaid delta reason r w v w'
unfolding handle_deposit handle_withdraw
handle_withdraw-pays delta reason r w w' v b (inl (e, amount, why)) =
    rw (amount, why) (of_answer (Answers-change_wallet (pos 1000) (codes "deposit") r w b) e)
handle_withdraw-pays delta reason r w w' v b (inr (e, amount, why)) =
    rw (amount, why)
      (of_answer (Answers-change_wallet (pos 0 -ℤ pos 1000) (codes "withdraw") r w b) e)
