-- ===== src/Text/Joined.antt =====
-- Integers that are printed with blanks between them.
use satfarm.Prelude.{ℕ, ◌≡◌, refl, sym, ap, ◌∙◌, List, [], ◌∷◌, ◌++◌, append_assoc, map, All-append}
use satfarm.Prelude.Int.{ℤ}
use satfarm.Text.Words.{Text, fields, join}
use satfarm.Text.Number.{itoa}
use satfarm.Text.Plain.{itoa-IsPlain, itoa_head, fields-word, IsPlain-is_space, IsPlain-NoNewline}
use satfarm.Text.Lines.{NoNewline}
use satfarm.Text.Blanks.{IsInk, fields-single, last-IsInk, IsPlain-IsInk}

-- The printed numbers: their words, and the characters at their ends.
abbrev pub line_of : List ℤ → Text
line_of lits = join (map itoa lits)

pub fields-line_of : (z : ℤ) (zs : List ℤ) → fields (line_of (z ∷ zs)) ≡ map itoa (z ∷ zs)
unfolding join
fields-line_of z [] =
    let (c, t, e, _) = itoa_head z in
    let plain = rw e at (itoa-IsPlain z) in rw e (fields-single c t (IsPlain-IsInk (c ∷ t) plain))
fields-line_of z (y ∷ ys) =
    let (c, t, e, _) = itoa_head z in
    let plain = rw e at (itoa-IsPlain z) in
    rw e (fields-word c t (line_of (y ∷ ys)) plain ∙ ap (λ ws. (c ∷ t) ∷ ws) (fields-line_of y ys))

pub first_of :
    (z : ℤ) (zs : List ℤ) → (c : ℕ) × (back : Text) × (line_of (z ∷ zs) ≡ c ∷ back) × IsInk c
unfolding join
first_of z [] = let (c, t, e, plain) = itoa_head z in (c, t, e, IsPlain-is_space c plain)
first_of z (y ∷ ys) =
    let (c, t, e, plain) = itoa_head z in
    (c, t ++ (b' ' ∷ line_of (y ∷ ys)), rw e refl, IsPlain-is_space c plain)

pub last_of :
    (z : ℤ) (zs : List ℤ)
    → (front : Text) × (d : ℕ) × (line_of (z ∷ zs) ≡ front ++ d ∷ []) × IsInk d
unfolding join
last_of z [] =
    let (c, t, e, _) = itoa_head z in
    let plain = rw e at (itoa-IsPlain z) in
    let (front, d, same, ink) = last-IsInk c t (IsPlain-IsInk (c ∷ t) plain) in
    (front, d, e ∙ same, ink)
last_of z (y ∷ ys) =
    let (front, d, same, ink) = last_of y ys in
    (
      itoa z ++ (b' ' ∷ front),
      d,
      rw same (sym (append_assoc (itoa z) (b' ' ∷ front) (d ∷ []))),
      ink,
    )

pub line_of-NoNewline : (z : ℤ) (zs : List ℤ) → NoNewline (line_of (z ∷ zs))
unfolding join
line_of-NoNewline z [] = IsPlain-NoNewline (itoa z) (itoa-IsPlain z)
line_of-NoNewline z (y ∷ ys) =
    All-append _ (itoa z) _ (IsPlain-NoNewline (itoa z) (itoa-IsPlain z))
      (refl, line_of-NoNewline y ys)
