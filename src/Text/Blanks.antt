-- ===== src/Text/Blanks.antt =====
-- Texts without white space: two of them with a blank between are the words of the whole.
use satfarm.Prelude.{ℕ, ◌≡◌, refl, ap, false, [], ◌∷◌, ◌++◌, All}
use satfarm.Text.Words.{Text, is_space, extend_word, fields, trim_space, trim_left, trim_right}
use satfarm.Text.Plain.{IsPlain, IsPlain-is_space, trim_right_end}

abbrev pub IsInk : ℕ → Type 0
IsInk c = is_space c ≡ false

pub fields-single : (c : ℕ) (w : Text) → All IsInk (c ∷ w) → fields (c ∷ w) ≡ (c ∷ w) ∷ []
unfolding fields
fields-single c [] h = rw (h.0) refl
fields-single c (d ∷ w) h =
    rw (h.0, h.1.0) (ap (extend_word c) (rw (h.1.0) at (fields-single d w h.1)))

pub fields_pair :
    (c d : ℕ) (v w : Text)
    → All IsInk (c ∷ v)
    → All IsInk (d ∷ w)
    → fields ((c ∷ v) ++ (b' ' ∷ (d ∷ w))) ≡ (c ∷ v) ∷ (d ∷ w) ∷ []
unfolding fields
fields_pair c d [] w h k = rw (h.0) (unfold is_space in rw (fields-single d w k) refl)
fields_pair c d (x ∷ v) w h k =
    rw (h.0, h.1.0) (ap (extend_word c) (rw (h.1.0) at (fields_pair x d v w h.1 k)))

-- A text between two characters that are no white space is trimmed already.
pub trim_space_within :
    (s front back : Text) (c d : ℕ)
    → s ≡ c ∷ back
    → s ≡ front ++ d ∷ []
    → IsInk c
    → IsInk d
    → trim_space s ≡ s
unfolding trim_space
trim_space_within s front back c d head last first final =
    let kept : trim_right s ≡ s = rw last (trim_right_end front d final) in
    rw (kept, head) (unfold trim_left in rw first refl)

-- The last character of a word.
pub last-IsInk :
    (c : ℕ) (w : Text)
    → All IsInk (c ∷ w)
    → (front : Text) × (d : ℕ) × (c ∷ w ≡ front ++ d ∷ []) × IsInk d
last-IsInk c [] h = ([], c, refl, h.0)
last-IsInk c (x ∷ w) h =
    let (front, d, e, ink) = last-IsInk x w h.1 in (c ∷ front, d, ap (λ t. c ∷ t) e, ink)

pub IsPlain-IsInk : (w : Text) → All IsPlain w → All IsInk w
IsPlain-IsInk [] h = tt
IsPlain-IsInk (c ∷ w) h = (IsPlain-is_space c h.0, IsPlain-IsInk w h.1)
