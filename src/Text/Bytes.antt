-- ===== src/Text/Bytes.antt =====
-- Texts as UTF-8, for the slices of `str` and `as_bytes`.
use foc_devnet.Base.{
  ℕ, ◌+◌, ◌-◌, ◌/◌, ◌%◌, ltb, leb, ◌==◌, ◌&&◌, ◌||◌, if◌then◌else◌, Bool, List, [], ◌∷◌, ◌++◌,
  Option, none, some,
}
use foc_devnet.Text.{Text}

abbrev pub utf8_length : ℕ → ℕ
utf8_length c = if ltb c 128 then 1 else if ltb c 2048 then 2 else if ltb c 65536 then 3 else 4

abbrev pub byte_length : Text → ℕ
byte_length [] = 0
byte_length (c ∷ s) = utf8_length c + byte_length s

-- `is_char_boundary(n)`
abbrev pub is_char_boundary : ℕ → Text → Bool
is_char_boundary n [] = n == 0
is_char_boundary n (c ∷ s) =
    let rest = is_char_boundary (n - utf8_length c) s in (n == 0) || (leb (utf8_length c) n && rest)

-- `&s[n..]`, `none` where the slice panics
unfoldable pub from_byte : ℕ → Text → Option Text
from_byte n [] = if n == 0 then some [] else none
from_byte n (c ∷ s) =
    let rest = from_byte (n - utf8_length c) s in
    if n == 0 then some (c ∷ s) else if leb (utf8_length c) n then rest else none

abbrev char_bytes : ℕ → List ℕ
char_bytes c =
    if ltb c 128
    then c ∷ []
    else if ltb c 2048
    then (192 + c / 64) ∷ (128 + c % 64) ∷ []
    else if ltb c 65536
    then (224 + c / 4096) ∷ (128 + c / 64 % 64) ∷ (128 + c % 64) ∷ []
    else (240 + c / 262144) ∷ (128 + c / 4096 % 64) ∷ (128 + c / 64 % 64) ∷ (128 + c % 64) ∷ []

-- `as_bytes`
unfoldable pub as_bytes : Text → List ℕ
as_bytes [] = []
as_bytes (c ∷ s) = char_bytes c ++ as_bytes s
