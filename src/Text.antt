-- ===== src/Text.antt =====
-- Texts as lists of code points, their equality, and the decimal `to_string` and `parse` of the
-- unsigned integers.
pub mod Decimal
pub mod Keys
pub mod Split
pub mod Search
pub mod Bytes
use Prim.Native.Char.{code}
use foc_devnet.Base.{
  ℕ, zero, suc, ◌+◌, ◌-◌, ◌*◌, ◌/◌, ◌%◌, ◌≡◌, ◌↔◌, refl, arith, ltb, leb, ◌==◌, if◌then◌else◌, Bool,
  true, false, ◌&&◌, ◌||◌, not, Option, none, some, List, [], ◌∷◌, ◌++◌, String,
}

abbrev pub Text : Type 0
Text = List ℕ

abbrev pub codes : String → Text
codes String.[] = []
codes (String.◌∷◌ c s) = code c ∷ codes s

unfoldable pub text_eq : Text → Text → Bool
text_eq [] [] = true
text_eq [] (d ∷ t) = false
text_eq (c ∷ s) [] = false
text_eq (c ∷ s) (d ∷ t) = (c == d) && text_eq s t

pub text_eq→eq : (s t : Text) → text_eq s t ≡ true → s ≡ t
unfolding text_eq
text_eq→eq [] [] h = refl
text_eq→eq [] (d ∷ t) h = cc
text_eq→eq (c ∷ s) [] h = cc
text_eq→eq (c ∷ s) (d ∷ t) h = ground (arith, text_eq→eq s t)

pub text_eq_refl : (s : Text) → text_eq s s ≡ true
unfolding text_eq
text_eq_refl [] = refl
text_eq_refl (c ∷ s) = ground (arith, text_eq_refl s)

pub text_eq_iff : (s t : Text) → (text_eq s t ≡ true) ↔ (s ≡ t)
text_eq_iff s t = (text_eq→eq s t, λ e. rw e (text_eq_refl t))

abbrev pub is_digit : ℕ → Bool
is_digit c = leb b'0' c && leb c b'9'

-- `usize::to_string` and the like: the last digit behind the digits of the rest.
digits : ℕ → ℕ → Text
digits zero n = []
digits (suc fuel) n = elim (ltb n 10) [
  | true ↦ (b'0' + n) ∷ []
  | false ↦ digits fuel (n / 10) ++ (b'0' + n % 10) ∷ []
]

unfoldable pub to_string : ℕ → Text
unfolding digits
to_string n = digits (suc n) n

-- The loop of `from_str`, for the unsigned type with this largest value.
scan : ℕ → Text → ℕ → Option ℕ
scan max [] n = some n
scan max (c ∷ s) n =
    let rest = scan max s (n * 10 + (c - b'0')) in
    if is_digit c && leb (n * 10 + (c - b'0')) max then rest else none

-- `parse::<u16>()` and the like: a sign `+` may stand in front, and there is at least one digit.
unfoldable pub parse_uint : ℕ → Text → Option ℕ
unfolding scan
parse_uint max [] = none
parse_uint max (c ∷ []) = if is_digit c then scan max (c ∷ []) 0 else none
parse_uint max (c ∷ d ∷ s) = if c == b'+' then scan max (d ∷ s) 0 else scan max (c ∷ d ∷ s) 0

abbrev pub max_u16 : ℕ
max_u16 = 65535

abbrev pub max_u64 : ℕ
max_u64 = 18446744073709551615

-- `parse::<bool>()`
unfoldable pub parse_bool : Text → Option Bool
unfolding text_eq
parse_bool s =
    if text_eq s (codes "true")
    then some true
    else if text_eq s (codes "false")
    then some false
    else none

-- `bool::to_string`
unfoldable pub show_bool : Bool → Text
show_bool b = if b then codes "true" else codes "false"

pub parse_bool-show_bool : (b : Bool) → parse_bool (show_bool b) ≡ some b
unfolding parse_bool show_bool
parse_bool-show_bool true = refl
parse_bool-show_bool false = refl
