-- ===== src/Sound/Changes.antt =====
-- The single changes of the tables, and the invariant.
use satfarm.Prelude.{
  ℕ, ◌≡◌, refl, sym, ◌∙◌, true, List, Option, some, ◌==◌, inl, inr, Bool-cases, Option-cases,
  ==_iff,
}
use satfarm.Text.{Text}
use satfarm.World.{
  Table, UserRow, find, modify, find-modify, is_completed, JobRow, ShardRow, ShardResult,
  Transaction, Db, FilePath,
}
use satfarm.Ledger.Books.{HasBooks}
use satfarm.Sound.{IsSound, text_of, shape, shape_of}

module _ {promise : Type 0} (f : FilePath → Option Text) (db : Db) (s : IsSound promise f db) where
  -- Other balances, with their transactions.
  pub IsSound-users :
      (u : Table UserRow) (ts : List Transaction)
      → HasBooks u ts
      → IsSound promise f (record db { users = u; transactions = ts })
  IsSound-users u ts b = record {
    unsat_shard = s.unsat_shard;
    has_result = s.has_result;
    covers = s.covers;
    cubes = s.cubes;
    unsat_outcome = s.unsat_outcome;
    sat_outcome = s.sat_outcome;
    unused = s.unused;
    books = b;
  }

  text_of-modify :
      (job k : ℕ) (g : JobRow → JobRow)
      → ((r : JobRow) → (g r).cnf_path ≡ r.cnf_path)
      → text_of f (find k (modify job g db.jobs)) ≡ text_of f (find k db.jobs)
  text_of-modify job k g h = rw (find-modify k job g db.jobs) (elim (Bool-cases (k == job)) [
    | inl e ↦ rw e (elim (Option-cases (find k db.jobs)) [
      | inl n ↦ rw n (refl)
      | inr (r, n) ↦ rw n (rw (h r) (refl))
    ])
    | inr e ↦ rw e (refl)
  ])

  -- A job's row changes, but for its file.
  pub IsSound-jobs :
      (job : ℕ) (g : JobRow → JobRow)
      → ((r : JobRow) → (g r).cnf_path ≡ r.cnf_path)
      → IsSound promise f (record db { jobs = modify job g db.jobs })
  IsSound-jobs job g h = record {
    unsat_shard = λ k j c r e q z.
        let (t, x, u) = s.unsat_shard k j c r e q z in (t, text_of-modify job j g h ∙ x, u);
    has_result = s.has_result;
    covers = s.covers;
    cubes = s.cubes;
    unsat_outcome =
        λ j o e z. let (t, x, u) = s.unsat_outcome j o e z in (t, text_of-modify job j g h ∙ x, u);
    sat_outcome = λ j o e z.
        let (t, a, v, x, y, h', u) = s.sat_outcome j o e z in
        (t, a, v, text_of-modify job j g h ∙ x, y, h', u);
    unused = s.unused;
    books = s.books;
  }

  pub shape_of-modify :
      (shard k : ℕ) (g : ShardRow → ShardRow)
      → ((r : ShardRow) → shape (some (g r)) ≡ shape (some r))
      → shape (find k (modify shard g db.shards)) ≡ shape_of k db
  shape_of-modify shard k g h =
      rw (find-modify k shard g db.shards) (elim (Bool-cases (k == shard)) [
        | inl e ↦ rw e (elim (Option-cases (find k db.shards)) [
          | inl n ↦ rw n (refl)
          | inr (r, n) ↦ rw n (h r)
        ])
        | inr e ↦ rw e (refl)
      ])

  completed-modify :
      (shard k : ℕ) (g : ShardRow → ShardRow) (r : ShardRow)
      → ((x : ShardRow)
          → is_completed (g x).status ≡ true
          → (y : ShardResult) × (db.shard_results shard ≡ some y))
      → find k (modify shard g db.shards) ≡ some r
      → is_completed r.status ≡ true
      → (y : ShardResult) × (db.shard_results k ≡ some y)
  completed-modify shard k g r h e c =
      let m = sym (find-modify k shard g db.shards) ∙ e in
      elim (Bool-cases (k == shard)) [
        | inl here ↦
            let m' = rw here at m in
            elim (Option-cases (find k db.shards)) [
              | inl n ↦ let wrong = rw n at m' in absurd (cc)
              | inr (x, n) ↦ let same = rw n at m' in rw ((==_iff k shard).0 here) (h x (cc))
            ]
        | inr away ↦ s.has_result k r (rw away at m) c
      ]

  -- A shard's row changes, but for its job and its cube; it is completed only with a result.
  pub IsSound-shards :
      (shard : ℕ) (g : ShardRow → ShardRow)
      → ((r : ShardRow) → shape (some (g r)) ≡ shape (some r))
      → ((x : ShardRow)
          → is_completed (g x).status ≡ true
          → (y : ShardResult) × (db.shard_results shard ≡ some y))
      → IsSound promise f (record db { shards = modify shard g db.shards })
  unfolding modify
  IsSound-shards shard g h c = record {
    unsat_shard = λ k j q r e. s.unsat_shard k j q r (sym (shape_of-modify shard k g h) ∙ e);
    has_result = λ k r. completed-modify shard k g r c;
    covers = λ k j q v e.
        let (k', c', x, y) = s.covers k j q v (sym (shape_of-modify shard k g h) ∙ e) in
        (k', c', shape_of-modify shard k' g h ∙ x, y);
    cubes = λ k j q e. s.cubes k j q (sym (shape_of-modify shard k g h) ∙ e);
    unsat_outcome = s.unsat_outcome;
    sat_outcome = s.sat_outcome;
    unused = s.unused;
    books = s.books;
  }
