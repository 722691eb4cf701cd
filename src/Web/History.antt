-- ===== src/Web/History.antt =====
-- What the list of transactions shows behind a deposit or a withdrawal.
use satfarm.Prelude.{
  ℕ, ◌≡◌, refl, sym, ap, Option, ◌∙◌, ◌==◌, ==_refl, not, List, [], ◌∷◌, ◌++◌, take, some, ok,
  Bool-cases, inl, inr,
}
use satfarm.Prelude.Int.{ℤ}
use satfarm.Text.{Text}
use satfarm.World.{find, Transaction, no_meta, UserRow, World}
use satfarm.World.Gives.{Gives-query}
use satfarm.Ledger.Books.{HasBooks}
use satfarm.Ledger.Effect.{entry_of}
use satfarm.Web.{Request, is_get, get_method, answered}
use satfarm.Web.Session.{current_user_id}
use satfarm.Web.Wallet.{
  WalletView, TransactionView, HistoryView, latest_of, handle_transactions, change_wallet,
}
use satfarm.Web.Paid.{Gives-load_balance, Answers-change_wallet, moved_row}
use satfarm.Web.Answers.{Answers, Answers-if, Answers-elim, Answers-Gives, of_answer}

abbrev view_of : ℤ → Text → TransactionView
view_of delta reason = record { amount_sat = delta; reason = reason }

latest_of-append :
    (user : ℕ) (ts : List Transaction) (delta : ℤ) (reason : Text)
    → latest_of user (ts ++ entry_of user delta reason no_meta ∷ [])
      ≡ view_of delta reason ∷ latest_of user ts
unfolding latest_of
latest_of-append user [] delta reason = rw (==_refl user) refl
latest_of-append user (t ∷ ts) delta reason = elim (Bool-cases (t.user_id == user)) [
  | inl own ↦ rw (own, latest_of-append user ts delta reason) refl
  | inr other ↦ rw (other, latest_of-append user ts delta reason) refl
]

-- The ten latest rows of the user who is signed in, and the balance.
abbrev pub IsHistory : Request → World → HistoryView → World → Type 0
IsHistory r w h w' =
    (user : ℕ) × (row : UserRow) × (current_user_id r.cookie w.sessions ≡ some user)
    × (find user w.db.users ≡ some row)
    × (h.transactions ≡ take 10 (latest_of user w.db.transactions))
    × (h.balance_satc ≡ row.balance_satc)

Answers-handle_transactions :
    (r : Request) (w : World) → Answers (IsHistory r w) (handle_transactions r w)
unfolding handle_transactions
Answers-handle_transactions r w =
    Answers-if (not (is_get r.method)) _ _ w (λ _. record { at = tt })
      (λ _.
        Answers-elim (current_user_id r.cookie w.sessions) _ _ w (record { at = tt })
          (λ user who.
            Answers-Gives (Gives-query (λ db. take 10 (latest_of user db.transactions)) w)
              (λ e w1. record { at = tt })
              (λ txs w1 (these, s1).
                Answers-Gives (Gives-load_balance user w1) (λ e w2. record { at = tt })
                  (λ bal w2 (row, found, is, s2). record {
                    at = (user, row, who, rw (← s1.db) found, these, is);
                  }))))

same_user : {o : Option ℕ} {a b : ℕ} → o ≡ some a → o ≡ some b → a ≡ b
same_user e f = cc

-- Where the balances are those of the transactions, and a deposit or a withdrawal answers, the list of
-- transactions that the same user asks for next, where it answers, begins with the row of that amount
-- and reason, goes on with the nine latest rows of before, and shows the balance that was answered.
pub handle_transactions-change_wallet :
    (delta : ℤ) (reason : Text) (r : Request) (w w1 w2 : World) (v : WalletView) (h : HistoryView)
    → HasBooks w.db.users w.db.transactions
    → change_wallet delta reason r w ≡ (ok (answered v), w1)
    → handle_transactions (record r { method = get_method }) w1 ≡ (ok (answered h), w2)
    → (user : ℕ) × (current_user_id r.cookie w.sessions ≡ some user)
      × (h.transactions ≡ view_of delta reason ∷ take 9 (latest_of user w.db.transactions))
      × (h.balance_satc ≡ v.balance)
handle_transactions-change_wallet delta reason r w w1 w2 v h b e1 e2 =
    let (user, row, who, found, paid, good, db, sessions) =
      of_answer (Answers-change_wallet delta reason r w b) e1 in
    let (user', row', who', found', shown, balance) =
      of_answer (Answers-handle_transactions (record r { method = get_method }) w1) e2 in
    let same : user' ≡ user = same_user (ap (current_user_id r.cookie) (sym sessions) ∙ who') who in
    let moved = moved_row user delta row row' w found (rw (db, same) at found') in
    (
      user,
      who,
      shown ∙ rw same (rw db (ap (take 10) (latest_of-append user w.db.transactions delta reason))),
      balance ∙ moved ∙ sym paid,
    )
