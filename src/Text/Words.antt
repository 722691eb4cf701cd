-- ===== src/Text/Words.antt =====
-- The package `strings`: white space, `TrimSpace`, `Fields`, `HasPrefix`, and equality of texts.
use Prim.Native.Char.{code}
use Prim.Native.String.{String}
use satfarm.Prelude.{
  ℕ, Bool, true, false, ◌&&◌, ◌||◌, List, [], ◌∷◌, ◌++◌, is_empty, leb, ◌==◌, if◌then◌else◌,
}

abbrev pub Text : Type 0
Text = List ℕ

-- A literal. `String` has its own `[]` and `∷`.
abbrev pub codes : String → Text
codes String.[] = []
codes (String.◌∷◌ c s) = code c ∷ codes s

-- `unicode.IsSpace`
unfoldable pub is_space : ℕ → Bool
is_space c =
    (leb 9 c && leb c 13)
    || c == 32
    || c == 0x85
    || c == 0xa0
    || c == 0x1680
    || (leb 0x2000 c && leb c 0x200a)
    || c == 0x2028
    || c == 0x2029
    || c == 0x202f
    || c == 0x205f
    || c == 0x3000

unfoldable pub trim_left : Text → Text
trim_left [] = []
trim_left (c ∷ s) = let rest = trim_left s in if is_space c then rest else c ∷ s

unfoldable pub trim_right : Text → Text
trim_right [] = []
trim_right (c ∷ s) = let r = trim_right s in if is_space c && is_empty r then [] else c ∷ r

unfoldable pub trim_space : Text → Text
trim_space s = trim_left (trim_right s)

-- Does a word end here: at the end of the text, or at white space?
abbrev pub at_break : Text → Bool
at_break [] = true
at_break (c ∷ s) = is_space c

-- A character in front of the first of the words that follow it.
abbrev pub extend_word : ℕ → List Text → List Text
extend_word c [] = (c ∷ []) ∷ []
extend_word c (w ∷ ws) = (c ∷ w) ∷ ws

unfoldable pub fields : Text → List Text
fields [] = []
fields (c ∷ s) =
    let ws = fields s in
    if is_space c then ws else if at_break s then (c ∷ []) ∷ ws else extend_word c ws

unfoldable pub has_prefix : Text → Text → Bool
has_prefix s [] = true
has_prefix [] (p ∷ ps) = false
has_prefix (c ∷ s) (p ∷ ps) = c == p && has_prefix s ps

unfoldable pub text_eq : Text → Text → Bool
text_eq [] [] = true
text_eq (a ∷ s) (b ∷ t) = a == b && text_eq s t
text_eq _ _ = false

-- `strings.Contains`
unfoldable pub contains : Text → Text → Bool
contains part [] = has_prefix [] part
contains part (c ∷ s) = has_prefix (c ∷ s) part || contains part s

abbrev pub extend_part : ℕ → List Text → List Text
extend_part c [] = (c ∷ []) ∷ []
extend_part c (w ∷ ws) = (c ∷ w) ∷ ws

-- `strings.Split` by one character: one part more than there are separators.
unfoldable pub split_on : ℕ → Text → List Text
split_on b [] = [] ∷ []
split_on b (c ∷ s) = let rest = split_on b s in if c == b then [] ∷ rest else extend_part c rest

-- `strings.Join(parts, " ")`
unfoldable pub join : List Text → Text
join [] = []
join (w ∷ ws) = if is_empty ws then w else w ++ (b' ' ∷ join ws)
