-- ===== src/World/Listed.antt =====
-- The rows that a query lists are those that pass.
use mathlib.Core.List.{Memᴰ}
use mathlib.Core.List.Memᴰ
use satfarm.Prelude.{
  ℕ, zero, suc, ◌<◌, ◌≡◌, refl, ◌==◌, ==_iff, Bool, true, Option, none, some, inl, inr, ap,
  Bool-cases, arith,
}
use satfarm.World.Tables.{Table, find, find-lt, with_key, select_below, select_where}

module _ {R : Type 0} (p : ℕ → R → Bool) where
  with_key-row :
      (n : ℕ) (o : Option R) (k : ℕ) (r : R)
      → Memᴰ (k, r) (with_key p n o)
      → (k ≡ n) × (o ≡ some r) × (p k r ≡ true)
  with_key-row n none k r m = absurd (Memᴰ.not-nil m)
  with_key-row n (some x) k r m = elim (Bool-cases (p n x)) [
    | inr fails ↦ absurd (Memᴰ.not-nil (rw fails at m))
    | inl pass ↦
        let same = Memᴰ.eq_of_singleton (rw pass at m) in
        let key : k ≡ n = ap (λ x. x.0) same in
        let row : r ≡ x = ap (λ x. x.1) same in (key, rw row refl, rw (key, row) pass)
  ]

  select_below-row :
      (t : Table R) (n k : ℕ) (r : R)
      → Memᴰ (k, r) (select_below p t n)
      → (k < n) × (t.rows k ≡ some r) × (p k r ≡ true)
  unfolding select_below
  select_below-row t zero k r m = absurd (Memᴰ.not-nil m)
  select_below-row t (suc n) k r m = elim (Memᴰ.append_cases (select_below p t n) m) [
    | inl early ↦ let (lt, row, pass) = select_below-row t n k r early in (omega arith, row, pass)
    | inr last ↦
        let (key, row, pass) = with_key-row n (t.rows n) k r last in (omega arith, rw key row, pass)
  ]

  select_below_all :
      (t : Table R) (n k : ℕ) (r : R)
      → k < n
      → t.rows k ≡ some r
      → p k r ≡ true
      → Memᴰ (k, r) (select_below p t n)
  unfolding select_below
  select_below_all t zero k r lt row pass = absurd (omega arith)
  select_below_all t (suc n) k r lt row pass = elim (Bool-cases (k == n)) [
    | inl here ↦
        let key = (==_iff k n).0 here in
        Memᴰ.append_right (select_below p t n) (rw (← key, row) (rw pass (Memᴰ.head refl)))
    | inr away ↦
        Memᴰ.append_left (with_key p n (t.rows n))
          (select_below_all t n k r (ground arith) row pass)
  ]

  pub select_where-row :
      (t : Table R) (k : ℕ) (r : R)
      → Memᴰ (k, r) (select_where p t)
      → (find k t ≡ some r) × (p k r ≡ true)
  unfolding select_where find
  select_where-row t k r m =
      let (lt, row, pass) = select_below-row t t.next k r m in (ground arith, pass)

  pub select_where_all :
      (t : Table R) (k : ℕ) (r : R)
      → find k t ≡ some r
      → p k r ≡ true
      → Memᴰ (k, r) (select_where p t)
  unfolding select_where find
  select_where_all t k r row pass =
      select_below_all t t.next k r (find-lt k t row) (ground (arith, find-lt k t row)) pass
