-- ===== src/World/Tables.antt =====
-- A table with a serial primary key: its rows by key, and the key of the next insert.
use satfarm.Prelude.Int.{ℤ, pos, negsuc}
use satfarm.Prelude.{
  ℕ, zero, suc, ◌+◌, ◌≤◌, ◌<◌, ◌≡◌, refl, Bool, true, false, List, [], ◌∷◌, ◌++◌, Option, none,
  some, arith, ltb, ◌==◌, if◌then◌else◌, ◌∙◌, inl, inr, Bool-cases, Option-cases, ==_iff,
}

-- The key that an `int64` is; a negative one is that of no row.
abbrev pub key_of : ℤ → ℕ
key_of (pos n) = n
key_of (negsuc n) = 0

pub record Table (R : Type 0) : Type 0 where
  pub rows : ℕ → Option R
  pub next : ℕ

module _ {R : Type 0} where
  abbrev pub no_rows : Table R
  no_rows = record { rows = λ k. none; next = 1 }

  unfoldable pub find : ℕ → Table R → Option R
  find k t = if ltb k t.next then t.rows k else none

  -- The row with an id that is an `int64`.
  abbrev pub find_id : ℤ → Table R → Option R
  find_id (pos n) t = find n t
  find_id (negsuc n) t = none

  -- The first row that passes, with its key.
  unfoldable pub first_below : (R → Bool) → Table R → ℕ → Option (ℕ × R)
  first_below p t zero = none
  first_below p t (suc n) =
      let earlier = first_below p t n in
      elim earlier [
        | some x ↦ some x
        | none ↦ elim (t.rows n) [ none ↦ none | some r ↦ if p r then some (n, r) else none ]
      ]

  unfoldable pub find_where : (R → Bool) → Table R → Option (ℕ × R)
  unfolding first_below
  find_where p t = first_below p t t.next

  unfoldable pub insert : R → Table R → Table R
  insert r t = record { rows = λ k. if k == t.next then some r else t.rows k; next = t.next + 1 }

  abbrev pub on_row : (R → R) → Option R → Option R
  on_row f none = none
  on_row f (some r) = some (f r)

  -- An update of the row with the key `j`, where there is one.
  unfoldable pub modify : ℕ → (R → R) → Table R → Table R
  modify j f t = record t { rows = λ k. if k == j then on_row f (t.rows k) else t.rows k }

  -- The rows that pass, with their keys, in the order of the keys.
  abbrev pub with_key : (ℕ → R → Bool) → ℕ → Option R → List (ℕ × R)
  with_key p k none = []
  with_key p k (some r) = if p k r then (k, r) ∷ [] else []

  unfoldable pub select_below : (ℕ → R → Bool) → Table R → ℕ → List (ℕ × R)
  select_below p t zero = []
  select_below p t (suc n) = select_below p t n ++ with_key p n (t.rows n)

  unfoldable pub select_where : (ℕ → R → Bool) → Table R → List (ℕ × R)
  unfolding select_below
  select_where p t = select_below p t t.next

  -- `SELECT COUNT(*)`, of the rows with a key below `n`.
  abbrev passes : (ℕ → R → Bool) → ℕ → Option R → ℕ
  passes p k none = 0
  passes p k (some r) = if p k r then 1 else 0

  unfoldable pub count_below : (ℕ → R → Bool) → Table R → ℕ → ℕ
  count_below p t zero = 0
  count_below p t (suc n) = passes p n (t.rows n) + count_below p t n

  unfoldable pub count_where : (ℕ → R → Bool) → Table R → ℕ
  unfolding count_below
  count_where p t = count_below p t t.next

  pub find-insert :
      (k : ℕ) (r : R) (t : Table R)
      → find k (insert r t) ≡ (if k == t.next then some r else find k t)
  unfolding find insert
  find-insert k r t = ground arith

  pub find-modify :
      (k j : ℕ) (f : R → R) (t : Table R)
      → find k (modify j f t) ≡ (if k == j then on_row f (find k t) else find k t)
  unfolding find modify
  find-modify k j f t = ground arith

  pub find-lt : (k : ℕ) (t : Table R) {r : R} → find k t ≡ some r → k < t.next
  unfolding find
  find-lt k t h = ground arith

  first_below-row :
      (p : R → Bool) (t : Table R) (n k : ℕ) {r : R}
      → first_below p t n ≡ some (k, r)
      → (k < n) × (t.rows k ≡ some r) × (p r ≡ true)
  unfolding first_below
  first_below-row p t zero k e = absurd (cc)
  first_below-row p t (suc n) k {r = r} e = elim (Option-cases (first_below p t n)) [
    | inr (x, h) ↦
        let e' = rw h at e in
        let (lt, row, pass) = first_below-row p t n k (h ∙ e') in (omega arith, row, pass)
    | inl h ↦
        let e1 = rw h at e in
        elim (Option-cases (t.rows n)) [
          | inl m ↦ let e2 = rw m at e1 in absurd (cc)
          | inr (x, m) ↦
              let e2 = rw m at e1 in
              elim (Bool-cases (p x)) [
                | inr fails ↦ let e3 = rw fails at e2 in absurd (cc)
                | inl pass ↦
                    let e3 = rw pass at e2 in
                    let key : n ≡ k = cc in
                    let row : x ≡ r = cc in
                    (omega (arith, key), rw (← key, ← row) m, rw (← row) pass)
              ]
        ]
  ]

  -- A row that `find_where` gives is in the table, and passes.
  pub find_where-row :
      (p : R → Bool) (t : Table R) (k : ℕ) {r : R}
      → find_where p t ≡ some (k, r)
      → (find k t ≡ some r) × (p r ≡ true)
  unfolding find_where find
  find_where-row p t k e =
      let (lt, row, pass) = first_below-row p t t.next k e in (ground arith, pass)

  first_below-none :
      (p q : R → Bool) (t : Table R) (n : ℕ)
      → ((r : R) → q r ≡ true → p r ≡ true)
      → first_below p t n ≡ none
      → first_below q t n ≡ none
  unfolding first_below
  first_below-none p q t zero h e = refl
  first_below-none p q t (suc n) h e = elim (Option-cases (first_below p t n)) [
    | inr (x, found) ↦ let e' = rw found at e in absurd (cc)
    | inl free ↦
        let rest = first_below-none p q t n h free in
        let e1 = rw free at e in
        elim (Option-cases (t.rows n)) [
          | inl m ↦ rw (rest, m) refl
          | inr (x, m) ↦
              let e2 = rw m at e1 in
              elim (Bool-cases (q x)) [
                | inr fails ↦ rw (rest, m, fails) refl
                | inl pass ↦ let e3 = rw (h x pass) at e2 in absurd (cc)
              ]
        ]
  ]

  insert_rows : (r : R) (t : Table R) (n : ℕ) → n < t.next → (insert r t).rows n ≡ t.rows n
  unfolding insert
  insert_rows r t n lt = ground arith

  first_below-insert :
      (p : R → Bool) (r : R) (t : Table R) (n : ℕ)
      → n ≤ t.next
      → first_below p (insert r t) n ≡ first_below p t n
  unfolding first_below
  first_below-insert p r t zero le = refl
  first_below-insert p r t (suc n) le =
      rw (first_below-insert p r t n (omega arith)) (elim (Option-cases (first_below p t n)) [
        | inl e ↦ rw (e, insert_rows r t n (omega arith)) refl
        | inr (x, e) ↦ rw e refl
      ])

  first_below_last :
      (q : R → Bool) (t : Table R) (n : ℕ) (r : R)
      → first_below q t n ≡ none
      → t.rows n ≡ some r
      → q r ≡ true
      → first_below q t (suc n) ≡ some (n, r)
  unfolding first_below
  first_below_last q t n r free row pass = rw (free, row, pass) refl

  -- The only row that passes is the one that is inserted.
  pub find_where-insert :
      (p q : R → Bool) (r : R) (t : Table R)
      → ((x : R) → q x ≡ true → p x ≡ true)
      → find_where p t ≡ none
      → q r ≡ true
      → find_where q (insert r t) ≡ some (t.next, r)
  unfolding find_where insert
  find_where-insert p q r t h free pass =
      let here : (t.next == t.next) ≡ true = ground arith in
      let old =
        first_below-insert q r t t.next (omega arith) ∙ first_below-none p q t t.next h free in
      let more : t.next + 1 ≡ suc t.next = omega arith in
      rw more (first_below_last q (insert r t) t.next r old (rw here refl) pass)

  -- Where each row that passes `q` passes `p`, and as many pass the one as the other, they are the
  -- same rows.
  count_below-le :
      (p q : ℕ → R → Bool) (t : Table R) (n : ℕ)
      → ((k : ℕ) (r : R) → q k r ≡ true → p k r ≡ true)
      → count_below q t n ≤ count_below p t n
  unfolding count_below
  count_below-le p q t zero h = omega arith
  count_below-le p q t (suc n) h = elim (Option-cases (t.rows n)) [
    | inl e ↦ rw e (omega (arith, count_below-le p q t n h))
    | inr (r, e) ↦ rw e (ground (arith, h n r, count_below-le p q t n h))
  ]

  count_below-all :
      (p q : ℕ → R → Bool) (t : Table R) (n : ℕ)
      → ((k : ℕ) (r : R) → q k r ≡ true → p k r ≡ true)
      → count_below q t n ≡ count_below p t n
      → (k : ℕ) (r : R) → k < n
      → t.rows k ≡ some r
      → p k r ≡ true
      → q k r ≡ true
  unfolding count_below
  count_below-all p q t zero h e k r lt row pk = absurd (omega arith)
  count_below-all p q t (suc n) h e k r lt row pk = elim (Option-cases (t.rows n)) [
    | inl free ↦
        let e' = rw free at e in
        elim (Bool-cases (k == n)) [
          | inl same ↦ ground arith
          | inr other ↦ count_below-all p q t n h (omega arith) k r (ground arith) row pk
        ]
    | inr (s, here) ↦
        let le = count_below-le p q t n h in
        let e' = rw here at e in
        elim (Bool-cases (k == n)) [
          | inl same ↦ ground (arith, h n s)
          | inr other ↦ count_below-all p q t n h (ground (arith, h n s)) k r (ground arith) row pk
        ]
  ]

  pub count_where-all :
      (p q : ℕ → R → Bool) (t : Table R)
      → ((k : ℕ) (r : R) → q k r ≡ true → p k r ≡ true)
      → count_where q t ≡ count_where p t
      → (k : ℕ) (r : R) → find k t ≡ some r
      → p k r ≡ true
      → q k r ≡ true
  unfolding count_where find
  count_where-all p q t h e k r row pk =
      count_below-all p q t t.next h e k r (find-lt k t row) (ground arith) pk

  count_below-zero :
      (p : ℕ → R → Bool) (t : Table R) (n : ℕ)
      → count_below p t n ≡ 0
      → (k : ℕ) (r : R) → k < n
      → t.rows k ≡ some r
      → p k r ≡ false
  unfolding count_below
  count_below-zero p t zero e k r lt row = absurd (omega arith)
  count_below-zero p t (suc n) e k r lt row = elim (Bool-cases (k == n)) [
    | inl here ↦
        let row' = rw ((==_iff k n).0 here) at row in
        let e' = rw row' at e in rw ((==_iff k n).0 here) (ground arith)
    | inr away ↦ count_below-zero p t n (omega arith) k r (ground arith) row
  ]

  pub count_where-zero :
      (p : ℕ → R → Bool) (t : Table R)
      → count_where p t ≡ 0
      → (k : ℕ) (r : R) → find k t ≡ some r
      → p k r ≡ false
  unfolding count_where find
  count_where-zero p t e k r row =
      count_below-zero p t t.next e k r (find-lt k t row) (ground arith)
