-- ===== src/Sound/Stays.antt =====
-- What a request to the web server may do to the world: its one new file, and changes of the tables
-- that keep the invariant for the files as they were.
use satfarm.Prelude.{
  ℕ, ◌≡◌, refl, ◌∙◌, Bool, true, false, Option, none, some, Result, ok, err, inl, inr, ◌==◌,
  Bool-cases, Option-cases, arith, if◌then◌else◌,
}
use satfarm.Prelude.Int.{ℤ}
use satfarm.Text.{Text}
use satfarm.World.{find, Meta, Db, FilePath, World}
use satfarm.World.Exec.{
  Error, Exec, bind_result, or_raise, raise_if, call, query, settle, transaction,
}
use satfarm.World.Keeps.{Ends-Holds}
use satfarm.Ledger.{change_user_balance}
use satfarm.Ledger.Posting.{Safe-change_user_balance}
use satfarm.Web.{Reply, reply_of}
use satfarm.Web.Uploads.{set_file, write_file, remove_file}
use satfarm.Sound.{IsSound, job_text}
use satfarm.Sound.Changes.{IsSound-users}

-- The files but for `path` are as in `f`, and the tables are right for the files `f`.
pub record Stays (path : FilePath) (promise : Type 0) (f : FilePath → Option Text) (w : World)
    : Type 0 where
  pub others : (p : FilePath) → (p == path) ≡ false → w.files p ≡ f p
  pub sound : IsSound promise f w.db

-- More files do no harm.
job_text-grown :
    (f g : FilePath → Option Text)
    → ((p : FilePath) (t : Text) → f p ≡ some t → g p ≡ some t)
    → (db : Db) (job : ℕ) {t : Text} → job_text f db job ≡ some t
    → job_text g db job ≡ some t
job_text-grown f g more db job {t} e = elim (Option-cases (find job db.jobs)) [
  | inl n ↦ let e' = rw n at e in absurd (cc)
  | inr (j, n) ↦ rw n (more j.cnf_path t (rw n at e))
]

pub IsSound-files :
    {promise : Type 0} (f g : FilePath → Option Text)
    → ((p : FilePath) (t : Text) → f p ≡ some t → g p ≡ some t)
    → (db : Db) → IsSound promise f db
    → IsSound promise g db
IsSound-files f g more db s = record {
  unsat_shard = λ k j c r e q z.
      let (t, x, u) = s.unsat_shard k j c r e q z in (t, job_text-grown f g more db j x, u);
  has_result = s.has_result;
  covers = s.covers;
  cubes = s.cubes;
  unsat_outcome =
      λ j o e z. let (t, x, u) = s.unsat_outcome j o e z in (t, job_text-grown f g more db j x, u);
  sat_outcome = λ j o e z.
      let (t, a, v, x, y, m, u) = s.sat_outcome j o e z in
      (t, a, v, job_text-grown f g more db j x, y, m, u);
  unused = s.unused;
  books = s.books;
}

pub Stays-IsSound :
    (path : FilePath) (promise : Type 0) (f : FilePath → Option Text) (w : World)
    → f path ≡ none
    → Stays path promise f w
    → IsSound promise w.files w.db
Stays-IsSound path promise f w new s =
    IsSound-files f w.files
      (λ p t e. elim (Bool-cases (p == path)) [
        | inl same ↦ absurd (ground arith)
        | inr other ↦ s.others p other ∙ e
      ])
      w.db s.sound

-- The end of a handler, whether it succeeds or fails.
pub record Leaves {A : Type 0} (P : World → Type 0) (r : Result Error A × World) : Type 0 where
  pub at : P r.1

module _ {P : World → Type 0} {A B : Type 0} where
  pub Leaves-bind :
      {r : Result Error A × World} {k : A → Exec B}
      → Leaves P r
      → ((a : A) (w : World) → P w → Leaves P (k a w))
      → Leaves P (bind_result r k)
  Leaves-bind {r = (ok a, w)} p h = h a w p.at
  Leaves-bind {r = (err e, w)} p h = record { at = p.at }

  pub Leaves-reply :
      {r : Result Error A × World} {fix : Error → Exec (Reply B)} {k : A → Exec (Reply B)}
      → Leaves P r
      → ((e : Error) (w : World) → P w → Leaves P (fix e w))
      → ((a : A) (w : World) → P w → Leaves P (k a w))
      → Leaves P (reply_of r fix k)
  Leaves-reply {r = (ok a, w)} p x h = h a w p.at
  Leaves-reply {r = (err e, w)} p x h = x e w p.at

module _ {P : World → Type 0} {B : Type 0} where
  pub Leaves-if :
      (b : Bool) (m k : Exec B) (w : World)
      → Leaves P (m w)
      → Leaves P (k w)
      → Leaves P ((if b then m else k) w)
  Leaves-if true m k w x y = x
  Leaves-if false m k w x y = y

  pub Leaves-elim :
      {A : Type 0} (o : Option A) (m : Exec B) (k : A → Exec B) (w : World)
      → Leaves P (m w)
      → ((a : A) → Leaves P (k a w))
      → Leaves P ((elim o as (λ _. Exec B) [ none ↦ m | some a ↦ k a ]) w)
  Leaves-elim none m k w x y = x
  Leaves-elim (some a) m k w x y = y a

  pub Leaves-or_raise :
      {A : Type 0} (o : Option A) (e : Error) (w : World) (k : A → Exec B)
      → P w
      → ((a : A) → o ≡ some a → Leaves P (k a w))
      → Leaves P (bind_result (or_raise o e w) k)
  Leaves-or_raise none e w k p h = record { at = p }
  Leaves-or_raise (some a) e w k p h = h a refl

  pub Leaves-raise_if :
      (b : Bool) (e : Error) (w : World) (k : Unit {0} → Exec B)
      → P w
      → (b ≡ false → Leaves P (k tt w))
      → Leaves P (bind_result (raise_if b e w) k)
  Leaves-raise_if true e w k p h = record { at = p }
  Leaves-raise_if false e w k p h = h refl

module _ (path : FilePath) (promise : Type 0) (f : FilePath → Option Text) where
  abbrev S : World → Type 0
  S w = Stays path promise f w

  -- The files are those of before, and the tables are right.
  pub Stays-tables : (w w' : World) → S w → w'.files ≡ w.files → IsSound promise f w'.db → S w'
  Stays-tables w w' s same new = record { others = λ p o. rw same (s.others p o); sound = new }

  pub Leaves-call : (w : World) → S w → Leaves S (call w)
  unfolding call
  Leaves-call w s = record { at = record { others = s.others; sound = s.sound } }

  pub Leaves-query : {A : Type 0} (g : Db → A) (w : World) → S w → Leaves S (query g w)
  unfolding query
  Leaves-query g w s = Leaves-bind (Leaves-call w s) (λ _ w1 s1. record { at = s1 })

  pub Leaves-write_file :
      (content : Option Text) (w : World) → S w → Leaves S (write_file path content w)
  unfolding write_file set_file
  Leaves-write_file content w s =
      Leaves-bind (Leaves-call w s) (λ _ w1 s1. record {
        at = record { others = λ p o. rw o (s1.others p o); sound = s1.sound };
      })

  pub Leaves-remove_file : (w : World) → S w → Leaves S (remove_file path w)
  unfolding remove_file
  Leaves-remove_file w s = let l = Leaves-write_file none w s in record { at = l.at }

  settled :
      {A : Type 0} {r : Result Error A × World} (db : Db)
      → IsSound promise f db
      → Leaves S r
      → Leaves S (settle db r)
  settled {r = (ok a, w)} db s e = e
  settled {r = (err x, w)} db s e =
      let p = e.at in record { at = record { others = p.others; sound = s } }

  pub Leaves-transaction :
      {A : Type 0} (m : Exec A) (w : World)
      → S w
      → ((w1 : World) → S w1 → Leaves S (m w1))
      → Leaves S (transaction m w)
  unfolding transaction
  Leaves-transaction m w s body = Leaves-bind (Leaves-call w s) (λ _ w1 s1. settled w1.db s1.sound (
      Leaves-bind (body w1 s1)
        (λ a w2 s2. Leaves-bind (Leaves-call w2 s2) (λ _ w3 s3. record { at = s3 }))))

  pub Leaves-change :
      (user : ℕ) (delta : ℤ) (reason : Text) (details : Meta) (w : World)
      → S w
      → Leaves S (change_user_balance user delta reason details w)
  Leaves-change user delta reason details w s =
      let h = Ends-Holds (
        Safe-change_user_balance w.files (IsSound promise f) (λ db x. x.books) (IsSound-users f)
          user delta reason details w (record { files = refl; db_inv = s.sound })) in
      record { at = Stays-tables w _ s h.files h.db_inv }
