-- ===== src/Sat/Verify/Model.antt =====
-- The model behind an accepted assignment: its values, and the cube's for what it leaves open.
use native.Mathlib.Nat.{le_refl}
use satfarm.Prelude.{
  ℕ, suc, ◌+◌, ◌-◌, ◌^◌, ◌≤◌, ◌<◌, ◌≡◌, refl, inl, inr, Bool, true, false, ◌&&◌, List, [], ◌∷◌,
  ◌++◌, none, some, ok, Option-cases, length, arith, Bool-cases, ◌∙◌, ap₂, any,
}
use satfarm.Prelude.Int.{ℤ, pos, negsuc, eqb_ℤ, neg32, neg_int, ◌-ℤ◌}
use satfarm.Text.{Text, trim_space, scan_lines}
use satfarm.Sat.Cnf.{Valuation, lit_holds, cnf_holds, cube_holds, units}
use satfarm.Sat.Cube.Bounds.{var_of, Numbered}
use satfarm.Sat.Cube.Cover.{cnf_holds-cube}
use satfarm.Sat.Meaning.{no_clause, is_end, formula}
use satfarm.Sat.Meaning.Scanned.{IsRead, scan_lines-formula}
use satfarm.Sat.Verify.Sound.{Extends, NoLeast, verify_lines-holds, verify_skipped, verify_clause}
use satfarm.Sat.Verify.{
  Assign, assign_lit, assign_all, empty_assign, violates, check_cube, verify_lines, verify_limit,
  verify_sat_assignment,
}

abbrev least : ℤ
least = negsuc (2 ^ 63 - 1)

-- A negated `int32` is no 64-bit extreme.
least_ne_neg32 : (z : ℤ) → eqb_ℤ least (neg32 z) ≡ false
unfolding neg_int ◌-ℤ◌
least_ne_neg32 z = ground arith

assign_all-NoLeast : (ls : List ℤ) (m : Assign) → NoLeast m → NoLeast (assign_all ls m)
unfolding assign_all
assign_all-NoLeast [] m h = h
assign_all-NoLeast (l ∷ ls) m h =
    assign_all-NoLeast ls (assign_lit l m) (ground (arith, least_ne_neg32 l))

-- The values of the assignment, and those of the cube elsewhere.
abbrev has_lit : ℤ → List ℤ → Bool
has_lit z = any (λ l. eqb_ℤ z l)

abbrev pub completed : Assign → List ℤ → Valuation
completed m cube n = elim (m (pos n)) [ none ↦ has_lit (pos n) cube | some b ↦ b ]

completed-Extends : (m : Assign) (cube : List ℤ) → Extends m (completed m cube)
completed-Extends m cube n b e = rw (e, completed)

Numbered-absent : (c : List ℤ) (i n : ℕ) → Numbered i c → n < i → has_lit (pos n) c ≡ false
Numbered-absent [] i n h lt = refl
Numbered-absent (l ∷ c) i n h lt = ground (arith, Numbered-absent c (i + 1) n h.1 (omega arith))

pub neg32_negsuc : (n : ℕ) → n + 1 < 2 ^ 31 → neg32 (negsuc n) ≡ pos (suc n)
unfolding neg_int ◌-ℤ◌
neg32_negsuc n h = ground arith

check_cube-cons :
    (m : Assign) (l : ℤ) (c : List ℤ)
    → check_cube m (l ∷ c) ≡ ok tt
    → (violates m l ≡ false) × (check_cube m c ≡ ok tt)
unfolding check_cube
check_cube-cons m l c h = ground arith

module _ (m : Assign) (v : Valuation) (x : Extends m v) where
  unviolated-holds :
      (l : ℤ) (i : ℕ) (c : List ℤ)
      → 1 ≤ i
      → i < 2 ^ 31
      → Numbered i (l ∷ c)
      → (m (pos i) ≡ none → v i ≡ has_lit (pos i) (l ∷ c))
      → violates m l ≡ false
      → lit_holds v l ≡ true
  unviolated-holds (pos n) i c p b h open_var ok_lit = elim (Option-cases (m (pos i))) [
    | inl unset ↦ ground (arith, open_var unset)
    | inr (val, e) ↦ ground (arith, x i val e)
  ]
  unviolated-holds (negsuc n) i c p b h open_var ok_lit = elim (Option-cases (m (pos i))) [
    | inl unset ↦ ground (arith, open_var unset, Numbered-absent c (i + 1) i h.1 (omega arith))
    | inr (val, e) ↦ ground (arith, x i val e, rw (neg32_negsuc n (omega arith)) at ok_lit)
  ]

  check_cube-holds :
      (c : List ℤ) (i : ℕ)
      → 1 ≤ i
      → i + length c ≤ 2 ^ 31
      → Numbered i c
      → ((n : ℕ) → i ≤ n → m (pos n) ≡ none → v n ≡ has_lit (pos n) c)
      → check_cube m c ≡ ok tt
      → cube_holds v c ≡ true
  check_cube-holds [] i p b h open_vars e = refl
  check_cube-holds (l ∷ c) i p b h open_vars e =
      let (ok_lit, rest) = check_cube-cons m l c e in
      both (unviolated-holds l i c p (omega arith) h (open_vars i (le_refl i)) ok_lit) (
        check_cube-holds c (i + 1) (omega arith) (omega arith) h.1
          (λ n le unset. open_vars n (omega arith) unset ∙ other n le) rest)
    where
      both : {a b : Bool} → a ≡ true → b ≡ true → (a && b) ≡ true
      both p q = ground arith

      other : (n : ℕ) → i + 1 ≤ n → has_lit (pos n) (l ∷ c) ≡ has_lit (pos n) c
      other n le = let e : var_of l ≡ i = h.0 in ground arith

verify_lines-IsRead :
    (m : Assign) (k : ℕ) (ls : List Text) (long : Bool)
    → verify_lines m k ls long ≡ ok tt
    → IsRead ls long
verify_lines-IsRead m k [] long h = inl (unfold verify_lines in ground arith)
verify_lines-IsRead m k (l ∷ ls) long h = elim (Bool-cases (is_end (trim_space l))) [
  | inl stop ↦ inr (rw stop)
  | inr go_on ↦ later go_on (
      verify_lines-IsRead m (k + 1) ls long (elim (Bool-cases (no_clause (trim_space l))) [
        | inl skip ↦ verify_skipped m k l ls long skip h
        | inr line ↦ let r = verify_clause m k l ls long line go_on h in r.1
      ]))
]
  where
    later : is_end (trim_space l) ≡ false → IsRead ls long → IsRead (l ∷ ls) long
    later no_end (inl e) = inl e
    later no_end (inr e) = inr (rw no_end e)

accepted_parts :
    (file : Text) (cube assignment : List ℤ)
    → verify_sat_assignment (some file) cube assignment ≡ ok tt
    → let m = assign_all assignment empty_assign in
      let s = scan_lines verify_limit file in
      (check_cube m cube ≡ ok tt) × (verify_lines m 0 s.lines s.too_long ≡ ok tt)
unfolding verify_sat_assignment
accepted_parts file cube assignment h = ground arith

-- If the check accepts an assignment for a file and a cube whose literals are of the variables 1, 2
-- and so on, fewer than 2 ^ 31, then the formula of the file has a model that satisfies the cube and
-- extends the assignment.
pub verify_sat_assignment_sound :
    (file : Text) (cube assignment : List ℤ)
    → Numbered 1 cube
    → length cube < 2 ^ 31
    → verify_sat_assignment (some file) cube assignment ≡ ok tt
    → (v : Valuation) × (cnf_holds v (formula file ++ units cube) ≡ true)
      × Extends (assign_all assignment empty_assign) v
verify_sat_assignment_sound file cube assignment num small h =
    let m = assign_all assignment empty_assign in
    let s = scan_lines verify_limit file in
    let (in_cube, in_file) = accepted_parts file cube assignment h in
    let v = completed m cube in
    let x = completed-Extends m cube in
    let sat =
      verify_lines-holds m v x (assign_all-NoLeast assignment empty_assign refl) 0 s.lines
        s.too_long in_file in
    let same =
      scan_lines-formula verify_limit file (verify_lines-IsRead m 0 s.lines s.too_long in_file) in
    let inside =
      check_cube-holds m v x cube 1 (omega arith) (omega arith) num
        (λ n le unset. rw (unset, completed)) in_cube in
    (v, cnf_holds-cube v (formula file) cube ∙ ap₂ (◌&&◌) (rw same at sat) inside, x)
