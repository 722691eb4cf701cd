-- ===== src/Sound/Results.antt =====
-- The literals of a shard's cube, the shard that a result names, and a model that is verified.
use satfarm.Prelude.{
  ℕ, ◌+◌, ◌≤◌, ◌^◌, ◌≡◌, ◌⊎◌, refl, sym, ◌∙◌, List, [], ◌∷◌, Option, none, some, ok, inl, inr,
  Option-cases, Bool-cases, ◌==◌, ==_iff, and_true, length, arith, All,
}
use satfarm.Prelude.Int.{ℤ, pos, negsuc}
use satfarm.Text.{Text}
use satfarm.World.{find, Db, FilePath}
use satfarm.Sat.Meaning.{formula}
use satfarm.Sat.Apply.Tokens.{IsLiteral}
use satfarm.Sat.Apply.Kept.{IsSmall}
use satfarm.Sat.Cube.Bounds.{Numbered}
use satfarm.Sat.Cube.Cover.{cnf_holds-cube}
use satfarm.Sat.Verify.{verify_sat_assignment}
use satfarm.Sat.Verify.Model.{verify_sat_assignment_sound}
use satfarm.Scheduler.{find_shard_of}
use satfarm.Sound.{IsCube, IsModelled, job_text, shape_of}

Numbered-IsLiteral :
    (i : ℕ) (ls : List ℤ) → Numbered i ls → 1 ≤ i → i + length ls ≤ 2 ^ 31 → All IsLiteral ls
Numbered-IsLiteral i [] n lo hi = tt
Numbered-IsLiteral i (pos k ∷ ls) n lo hi =
    ((ground arith, ground arith), Numbered-IsLiteral (i + 1) ls n.1 (omega arith) (omega arith))
Numbered-IsLiteral i (negsuc k ∷ ls) n lo hi =
    ((ground arith, ground arith), Numbered-IsLiteral (i + 1) ls n.1 (omega arith) (omega arith))

pub IsCube-IsLiteral : (c : List ℤ) → IsCube c → All IsLiteral c
IsCube-IsLiteral c (d, le, (num, len)) = Numbered-IsLiteral 1 c num (omega arith) (omega arith)

Numbered-IsSmall :
    (i : ℕ) (ls : List ℤ) → Numbered i ls → 1 ≤ i → i + length ls ≤ 2 ^ 31 → All IsSmall ls
Numbered-IsSmall i [] n lo hi = tt
Numbered-IsSmall i (pos k ∷ ls) n lo hi = (
  ((ground arith, ground arith), ground arith),
  Numbered-IsSmall (i + 1) ls n.1 (omega arith) (omega arith),
)
Numbered-IsSmall i (negsuc k ∷ ls) n lo hi = (
  ((ground arith, ground arith), ground arith),
  Numbered-IsSmall (i + 1) ls n.1 (omega arith) (omega arith),
)

pub IsCube-IsSmall : (c : List ℤ) → IsCube c → All IsSmall c
IsCube-IsSmall c (d, le, (num, len)) = Numbered-IsSmall 1 c num (omega arith) (omega arith)

pub find_shard_of-shape :
    (f : FilePath → Option Text) (job shard : ℕ) (db : Db) {path : FilePath} {cube : List ℤ}
    → find_shard_of job shard db ≡ some (path, cube)
    → (shape_of shard db ≡ some (job, cube)) × (job_text f db job ≡ f path)
unfolding find_shard_of
find_shard_of-shape f job shard db e = elim (Option-cases (find shard db.shards)) [
  | inl n ↦ let e' = rw (n, find_shard_of) at e in absurd (cc)
  | inr (r, n) ↦
      let e1 = rw (n, find_shard_of) at e in
      elim (Bool-cases (r.job_id == job)) [
        | inr other ↦ let e2 = rw other at e1 in absurd (cc)
        | inl mine ↦
            let e2 = rw mine at e1 in
            elim (Option-cases (find job db.jobs)) [
              | inl m ↦ let e3 = rw m at e2 in absurd (cc)
              | inr (j, m) ↦
                  let e3 = rw m at e2 in
                  let same = (==_iff r.job_id job).0 mine in (rw n (cc), rw m (cc))
            ]
      ]
]

verify_none : (cube a : List ℤ) → verify_sat_assignment none cube a ≡ ok tt → ⊥
unfolding verify_sat_assignment
verify_none cube a h = ground arith

-- An accepted assignment extends to a model.
pub verified-IsModelled :
    (f : FilePath → Option Text) (db : Db) (job : ℕ) (path : FilePath) (file : Option Text)
    (cube a : List ℤ)
    → IsCube cube
    → job_text f db job ≡ f path
    → (file ≡ none) ⊎ (file ≡ f path)
    → verify_sat_assignment file cube a ≡ ok tt
    → IsModelled f db job (some a)
verified-IsModelled f db job path none cube a c e r h = absurd (verify_none cube a h)
verified-IsModelled f db job path (some t) cube a c e (inl x) h = absurd (cc)
verified-IsModelled f db job path (some t) cube a (d, le, (num, len)) e (inr x) h =
    let (v, m, ext) = verify_sat_assignment_sound t cube a num (omega arith) h in
    (t, a, v, e ∙ sym x, refl, (and_true _ _ (sym (cnf_holds-cube v (formula t) cube) ∙ m)).0, ext)
