-- ===== src/Sound/Accounts.antt =====
-- Requests to the web server about tokens and balances.
use satfarm.Prelude.{
  ℕ, ◌==◌, not, List, Option, is_empty, is_some, inl, inr, Option-cases, refl, take,
}
use satfarm.Prelude.Int.{ℤ}
use satfarm.Text.{Text, codes, parse_int}
use satfarm.World.{find, find_id, find_where, no_meta, FilePath, World}
use satfarm.World.Exec.{constraint, no_rows}
use satfarm.Web.{Request, is_post, is_get}
use satfarm.Web.Session.{signed_in_user, current_user_id}
use satfarm.Web.Tokens.{
  has_secret, insert_token, revoke_token, is_token_of, handle_create_token, handle_revoke_token,
}
use satfarm.Web.Wallet.{
  change_wallet, load_balance, latest_of, handle_deposit, handle_withdraw, handle_transactions,
}
use satfarm.Sound.Inserted.{IsSound-tokens}
use satfarm.Sound.Stays.{
  Stays, Leaves, Leaves-bind, Leaves-reply, Leaves-if, Leaves-or_raise, Leaves-raise_if,
  Stays-tables, Leaves-call, Leaves-query, Leaves-change,
}
use satfarm.Sound.Visits.{Leaves-generate_secret}

module _ (path : FilePath) (promise : Type 0) (f : FilePath → Option Text) where
  abbrev S : World → Type 0
  S w = Stays path promise f w

  Leaves-insert_token :
      (user : ℕ) (label secret : Text) (w : World)
      → S w
      → Leaves S (insert_token user label secret w)
  unfolding insert_token
  Leaves-insert_token user label secret w s =
      Leaves-bind (Leaves-call path promise f w s) (λ _ w1 s1.
        Leaves-or_raise (find user w1.db.users) constraint w1 _ s1 (λ owner e.
          Leaves-raise_if (is_some (find_where (has_secret secret) w1.db.tokens)) constraint w1 _ s1
            (λ free. record {
              at = Stays-tables path promise f w1 _ s1 refl (IsSound-tokens f _ w1.db s1.sound);
            })))

  pub Leaves-handle_create_token :
      (bytes : List ℕ) (r : Request) (w : World) → S w → Leaves S (handle_create_token bytes r w)
  unfolding handle_create_token
  Leaves-handle_create_token bytes r w s =
      let label = r.form (codes "label") in
      Leaves-if (not (is_post r.method)) _ _ w (record { at = s })
        (elim (Option-cases (signed_in_user r.cookie w.sessions)) [
          | inl e ↦ rw e (record { at = s })
          | inr (user, e) ↦ rw e (
              Leaves-if (not r.is_form) _ _ w (record { at = s })
                (Leaves-if (is_empty label) _ _ w (record { at = s })
                  (Leaves-reply (Leaves-generate_secret path promise f bytes w s)
                    (λ e w1 s1. record { at = s1 })
                    (λ secret w1 s1.
                      Leaves-reply (Leaves-insert_token user label secret w1 s1)
                        (λ e w2 s2. record { at = s2 }) (λ id w2 s2. record { at = s2 })))))
        ])

  Leaves-revoke_token : (id : ℤ) (user : ℕ) (w : World) → S w → Leaves S (revoke_token id user w)
  unfolding revoke_token
  Leaves-revoke_token id user w s = Leaves-bind (Leaves-call path promise f w s) (λ _ w1 s1.
      Leaves-if (is_token_of user (find_id id w1.db.tokens)) _ _ w1
        (record {
          at = Stays-tables path promise f w1 _ s1 refl (IsSound-tokens f _ w1.db s1.sound);
        })
        (record { at = s1 }))

  pub Leaves-handle_revoke_token :
      (r : Request) (w : World) → S w → Leaves S (handle_revoke_token r w)
  unfolding handle_revoke_token
  Leaves-handle_revoke_token r w s =
      let text = r.form (codes "token_id") in
      Leaves-if (not (is_post r.method)) _ _ w (record { at = s })
        (elim (Option-cases (signed_in_user r.cookie w.sessions)) [
          | inl e ↦ rw e (record { at = s })
          | inr (user, e) ↦ rw e (
              Leaves-if (not r.is_form) _ _ w (record { at = s })
                (Leaves-if (is_empty text) _ _ w (record { at = s })
                  (elim (Option-cases (parse_int text)) [
                    | inl e ↦ rw e (record { at = s })
                    | inr (id, e) ↦ rw e (
                        Leaves-reply (Leaves-revoke_token id user w s)
                          (λ e w1 s1. record { at = s1 })
                          (λ n w1 s1.
                            Leaves-if (n == 0) _ _ w1 (record { at = s1 }) (record { at = s1 })))
                  ])))
        ])

  Leaves-load_balance : (user : ℕ) (w : World) → S w → Leaves S (load_balance user w)
  unfolding load_balance
  Leaves-load_balance user w s =
      Leaves-bind (Leaves-query path promise f _ w s)
        (λ row w1 s1. Leaves-or_raise row no_rows w1 _ s1 (λ r e. record { at = s1 }))

  Leaves-change_wallet :
      (delta : ℤ) (reason : Text) (r : Request) (w : World)
      → S w
      → Leaves S (change_wallet delta reason r w)
  unfolding change_wallet
  Leaves-change_wallet delta reason r w s =
      Leaves-if (not (is_post r.method)) _ _ w (record { at = s })
        (elim (Option-cases (current_user_id r.cookie w.sessions)) [
          | inl e ↦ rw e (record { at = s })
          | inr (user, e) ↦ rw e (
              Leaves-reply (Leaves-change path promise f user delta reason no_meta w s)
                (λ e w1 s1. record { at = s1 })
                (λ _ w1 s1.
                  Leaves-reply (Leaves-load_balance user w1 s1) (λ e w2 s2. record { at = s2 })
                    (λ b w2 s2. record { at = s2 })))
        ])

  pub Leaves-handle_deposit : (r : Request) (w : World) → S w → Leaves S (handle_deposit r w)
  unfolding handle_deposit
  Leaves-handle_deposit r w s = Leaves-change_wallet _ _ r w s

  pub Leaves-handle_withdraw : (r : Request) (w : World) → S w → Leaves S (handle_withdraw r w)
  unfolding handle_withdraw
  Leaves-handle_withdraw r w s = Leaves-change_wallet _ _ r w s

  pub Leaves-handle_transactions :
      (r : Request) (w : World) → S w → Leaves S (handle_transactions r w)
  unfolding handle_transactions
  Leaves-handle_transactions r w s =
      Leaves-if (not (is_get r.method)) _ _ w (record { at = s })
        (elim (Option-cases (current_user_id r.cookie w.sessions)) [
          | inl e ↦ rw e (record { at = s })
          | inr (user, e) ↦ rw e (
              Leaves-reply
                (Leaves-query path promise f (λ db. take 10 (latest_of user db.transactions)) w s)
                (λ e w1 s1. record { at = s1 })
                (λ txs w1 s1.
                  Leaves-reply (Leaves-load_balance user w1 s1) (λ e w2 s2. record { at = s2 })
                    (λ b w2 s2. record { at = s2 })))
        ])
