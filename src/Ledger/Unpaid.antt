-- ===== src/Ledger/Unpaid.antt =====
-- The test for an earlier payment against the rows that a payment writes.
use satfarm.Prelude.{
  ℕ, ◌≡◌, refl, Bool, false, List, [], ◌∷◌, ◌++◌, Option, any, not, arith, inl, inr, Option-cases,
  Result-cases, ◌==◌,
}
use satfarm.Prelude.Int.{ℤ, pos, ◌+ℤ◌, ◌-ℤ◌, leb_ℤ}
use satfarm.Text.{Text, codes, text_eq}
use satfarm.World.{find, Db, FilePath, World, Meta, reward, Transaction}
use satfarm.World.Exec.{constraint, no_rows, cannot_open, insufficient_balance, non_positive_amount}
use satfarm.World.Keeps.{
  Holds, Safe, Safe-bind, Safe-call, Safe-query, Safe-raise_if, Ends-Holds, Ends-or_raise, Ends-if,
  Ends-transaction,
}
use satfarm.Ledger.{
  add_balance, insert_transaction, transfer_user_balance, get_worker_user_id, reward_worker_for_job,
  any_balance, is_balance, is_paid, reward_of, conn_of,
}
use satfarm.Ledger.Header.{read_header}

any_snoc :
    (p : Transaction → Bool) (ts : List Transaction) (t : Transaction)
    → any p ts ≡ false
    → p t ≡ false
    → any p (ts ++ t ∷ []) ≡ false
any_snoc p [] t h e = ground arith
any_snoc p (x ∷ xs) t h e = ground (arith, any_snoc p xs t)

-- The reasons that `transferUserBalance` writes for a reward.
debit_reason : text_eq (codes "worker_reward" ++ codes "_debit") (codes "worker_reward") ≡ false
unfolding text_eq
debit_reason = refl

credit_reason : text_eq (codes "worker_reward" ++ codes "_credit") (codes "worker_reward") ≡ false
unfolding text_eq
credit_reason = refl

-- No row counts as a payment of the shard.
abbrev pub Unpaid : ℕ → ℕ → Db → Type 0
Unpaid job shard db = any (is_paid job shard) db.transactions ≡ false

module _ (f : FilePath → Option Text) (job shard : ℕ) where
  Safe-add_balance :
      (user : ℕ) (delta least : ℤ) (w : World)
      → Holds f (Unpaid job shard) w
      → Safe f (Unpaid job shard) (add_balance user delta least w)
  unfolding add_balance
  Safe-add_balance user delta least w h = Safe-bind (Safe-call w h) (λ _ w1 h1.
      elim (Option-cases (find user w1.db.users)) [
        | inl e ↦ rw e (record { at = (h1, tt) })
        | inr (b, e) ↦ rw e (
            Ends-if (leb_ℤ least b.balance_satc) _ _ w1
              (λ _.
                Safe-bind
                  (Safe-raise_if (not (is_balance (b.balance_satc +ℤ delta))) constraint w1 h1)
                  (λ _ w2 h2. record {
                    at = ((record { files = h2.files; db_inv = h2.db_inv }), tt);
                  }))
              (λ _. record { at = (h1, tt) }))
      ])

  Safe-insert_transaction :
      (user : ℕ) (amount : ℤ) (reason : Text) (details : Meta) (w : World)
      → text_eq reason (codes "worker_reward") ≡ false
      → Holds f (Unpaid job shard) w
      → Safe f (Unpaid job shard) (insert_transaction user amount reason details w)
  unfolding insert_transaction
  Safe-insert_transaction user amount reason details w other h =
      Safe-bind (Safe-call w h) (λ _ w1 h1.
        Ends-or_raise (find user w1.db.users) constraint w1 _ h1 (λ b e. record {
          at = (
            (record {
              files = h1.files;
              db_inv =
                  any_snoc (is_paid job shard) w1.db.transactions _ h1.db_inv (rw other (refl));
            }),
            tt,
          );
        }))

  Safe-transfer_reward :
      (from to : ℕ) (amount : ℤ) (details : Meta) (w : World)
      → Holds f (Unpaid job shard) w
      → Safe f
          (Unpaid job shard)
          (transfer_user_balance from to amount (codes "worker_reward") details w)
  unfolding transfer_user_balance
  Safe-transfer_reward from to amount details w h =
      Safe-bind (Safe-raise_if (leb_ℤ amount (pos 0)) non_positive_amount w h) (λ _ w0 h0.
        Ends-transaction {J = Unpaid job shard} {P = λ _ _. Unit {0}} _ w0 h0
          (λ w' files same.
            let h' : Holds f (Unpaid job shard) w' = record {
              files = files;
              db_inv = rw (← same) at h0.db_inv;
            } in
            Safe-bind (Safe-add_balance from (pos 0 -ℤ amount) amount w' h') (λ n w1 h1.
              Safe-bind (Safe-raise_if (n == 0) insufficient_balance w1 h1) (λ _ w2 h2.
                Safe-bind (Safe-add_balance to amount any_balance w2 h2) (λ _ w3 h3.
                  Safe-bind
                    (Safe-insert_transaction from (pos 0 -ℤ amount)
                      (codes "worker_reward" ++ codes "_debit") details w3 debit_reason h3)
                    (λ _ w4 h4.
                      Safe-insert_transaction to amount (codes "worker_reward" ++ codes "_credit")
                        details w4 credit_reason h4)))))
          (λ a d j p. (j, tt)))

  Safe-get_worker_user_id :
      (worker : ℕ) (w : World)
      → Holds f (Unpaid job shard) w
      → Safe f (Unpaid job shard) (get_worker_user_id worker w)
  unfolding get_worker_user_id
  Safe-get_worker_user_id worker w h = elim (Option-cases (conn_of worker w.registry.conns)) [
    | inl e ↦ rw e (record { at = h })
    | inr (c, e) ↦ rw e (record { at = (h, tt) })
  ]

  Safe-reward_worker_for_job :
      (j s worker : ℕ) (w : World)
      → Holds f (Unpaid job shard) w
      → Safe f (Unpaid job shard) (reward_worker_for_job j s worker w)
  unfolding reward_worker_for_job
  Safe-reward_worker_for_job job' shard' worker w h =
      Safe-bind (Safe-get_worker_user_id worker w h) (λ user w1 h1.
        Safe-bind (Safe-query (λ db. any (is_paid job' shard') db.transactions) w1 h1)
          (λ paid w2 h2.
            Ends-if paid _ _ w2 (λ _. record { at = (h2, tt) })
              (λ _. Safe-bind (Safe-query (λ db. find job' db.jobs) w2 h2) (λ row w3 h3.
                Ends-or_raise row no_rows w3 _ h3 (λ j e. Safe-bind (Safe-call w3 h3) (λ _ w4 h4.
                  Ends-or_raise (w4.files j.cnf_path) cannot_open w4 _ h4 (λ text e2.
                    elim (Result-cases (read_header text)) [
                      | inr (x, e3) ↦ rw e3 (record { at = h4 })
                      | inl (c, e3) ↦ rw e3 (
                          Ends-if (leb_ℤ (reward_of c.0 c.1) (pos 0)) _ _ w4
                            (λ _. record { at = (h4, tt) })
                            (λ _.
                              Safe-transfer_reward j.user_id user (reward_of c.0 c.1)
                                (reward job' shard' user j.user_id c.0 c.1) w4 h4))
                    ])))))))

-- A reward, paid or not, of whatever shard, adds no row that counts as a payment: the test for an
-- earlier payment of a shard that failed before it fails behind it too.
pub reward_worker_for_job-Unpaid :
    (job shard j s worker : ℕ) (w : World)
    → Unpaid job shard w.db
    → Unpaid job shard (reward_worker_for_job j s worker w).1.db
reward_worker_for_job-Unpaid job shard j s worker w h =
    let start : Holds w.files (Unpaid job shard) w = record { files = refl; db_inv = h } in
    let end = Ends-Holds (Safe-reward_worker_for_job w.files job shard j s worker w start) in
    end.db_inv
