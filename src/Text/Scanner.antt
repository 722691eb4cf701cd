-- ===== src/Text/Scanner.antt =====
-- The package `bufio`: a `Scanner` that reads lines, with its limit on the length of one line.
use satfarm.Prelude.{
  ℕ, ◌+◌, ◌*◌, Bool, true, false, ◌&&◌, List, [], ◌∷◌, ◌++◌, is_empty, ltb, ◌==◌, if◌then◌else◌,
}
use satfarm.Text.Words.{Text}

-- The number of bytes of a text in UTF-8.
abbrev pub rune_len : ℕ → ℕ
rune_len c = if ltb c 0x80 then 1 else if ltb c 0x800 then 2 else if ltb c 0x10000 then 3 else 4

unfoldable pub byte_len : Text → ℕ
byte_len [] = 0
byte_len (c ∷ s) = rune_len c + byte_len s

abbrev pub extend_line : ℕ → List Text → List Text
extend_line c [] = (c ∷ []) ∷ []
extend_line c (l ∷ ls) = (c ∷ l) ∷ ls

-- The lines of a text without their newlines; what stands behind the last newline is a line if it
-- is not empty.
unfoldable pub split_lines : Text → List Text
split_lines [] = []
split_lines (c ∷ s) =
    let rest = split_lines s in if c == b'\n' then [] ∷ rest else extend_line c rest

-- One trailing carriage return is dropped.
unfoldable pub drop_cr : Text → Text
drop_cr [] = []
drop_cr (c ∷ s) = let r = drop_cr s in if c == b'\r' && is_empty s then [] else c ∷ r

-- What a loop over `sc.Scan()` sees: the lines, and whether `sc.Err()` is then `ErrTooLong`.
pub record Scan : Type 0 where
  pub lines : List Text
  pub too_long : Bool

-- A line is read if it fits into the buffer together with the newline behind it.
unfoldable pub scan_within : ℕ → List Text → Scan
unfolding drop_cr byte_len
scan_within limit [] = record { lines = []; too_long = false }
scan_within limit (l ∷ ls) =
    let rest = scan_within limit ls in
    if ltb (byte_len l) limit
    then record { lines = drop_cr l ∷ rest.lines; too_long = rest.too_long }
    else record { lines = []; too_long = true }

unfoldable pub scan_lines : ℕ → Text → Scan
unfolding split_lines scan_within
scan_lines limit s = scan_within limit (split_lines s)

-- `bufio.MaxScanTokenSize`, the limit where the program sets none.
abbrev pub default_limit : ℕ
default_limit = 64 * 1024

-- What `fmt.Fprintln` writes for each of the lines in turn.
unfoldable pub unlines : List Text → Text
unlines [] = []
unlines (l ∷ ls) = l ++ (b'\n' ∷ unlines ls)
