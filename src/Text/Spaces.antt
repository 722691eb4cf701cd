-- ===== src/Text/Spaces.antt =====
-- White space at the ends of a text, and the words of what is left.
use satfarm.Prelude.{
  ℕ, ◌≡◌, ◌≢◌, refl, ◌⊎◌, inl, inr, true, false, List, [], ◌∷◌, is_empty, arith, Bool-cases,
  if◌then◌else◌, ap, ◌∙◌,
}
use satfarm.Text.Words.{
  Text, is_space, trim_left, trim_right, trim_space, fields, text_eq, at_break, extend_word,
}

-- What `TrimLeft` leaves is empty or begins with a character that is no space.
trim_left_head :
    (s : Text)
    → (trim_left s ≡ []) ⊎ ((c : ℕ) × (t : Text) × (trim_left s ≡ c ∷ t) × (is_space c ≡ false))
unfolding trim_left
trim_left_head [] = inl refl
trim_left_head (c ∷ s) = elim (Bool-cases (is_space c)) [
  | inl space ↦ rw space (trim_left_head s)
  | inr word ↦ inr (c, s, rw word, word)
]

pub fields-cons : (c : ℕ) (s : Text) → is_space c ≡ false → fields (c ∷ s) ≢ []
unfolding fields
fields-cons c s h = ground arith

-- A trimmed text with no words is empty.
pub fields-trim_space : (s : Text) → fields (trim_space s) ≡ [] → is_empty (trim_space s) ≡ true
unfolding trim_space
fields-trim_space s h = elim (trim_left_head (trim_right s)) [
  | inl e ↦ rw e
  | inr (c, t, e, w) ↦ absurd (fields-cons c t w (rw e at h))
]

pub text_eq_sound : (s t : Text) → text_eq s t ≡ true → s ≡ t
unfolding text_eq
text_eq_sound [] [] h = refl
text_eq_sound (a ∷ s) (b ∷ t) h = ground (arith, text_eq_sound s t)
text_eq_sound [] (b ∷ t) h = cc
text_eq_sound (a ∷ s) [] h = cc

pub text_eq_refl : (s : Text) → text_eq s s ≡ true
unfolding text_eq
text_eq_refl [] = refl
text_eq_refl (a ∷ s) = ground (arith, text_eq_refl s)

fields_first :
    (c d : ℕ) (s w : Text) (ws : List Text)
    → is_space c ≡ false
    → fields (c ∷ s) ≡ (d ∷ w) ∷ ws
    → c ≡ d
unfolding fields
fields_first c d s w ws n h = first (fields s) (ground arith)
  where
    first :
        (vs : List Text)
        → (if at_break s then (c ∷ []) ∷ vs else extend_word c vs) ≡ (d ∷ w) ∷ ws
        → c ≡ d
    first [] e = ground arith
    first (v ∷ vs) e = ground arith

-- A trimmed text begins with the first character of its first word.
pub trim_space_first :
    (s : Text) (d : ℕ) (w : Text) (ws : List Text)
    → fields (trim_space s) ≡ (d ∷ w) ∷ ws
    → (t : Text) × (trim_space s ≡ d ∷ t)
unfolding trim_space
trim_space_first s d w ws h = elim (trim_left_head (trim_right s)) [
  | inl e ↦ absurd (let h' = rw e at h in unfold fields in ground (arith, h'))
  | inr (c, t, e, n) ↦ (t, e ∙ ap (λ x. x ∷ t) (fields_first c d t w ws n (rw e at h)))
]
