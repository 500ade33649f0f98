-- ===== src/Text/Decimal.antt =====
-- Printing and parsing decimals.
use foc_devnet.Base.{
  ℕ, zero, suc, ◌+◌, ◌-◌, ◌*◌, ◌/◌, ◌%◌, ◌<◌, ◌≤◌, ◌≡◌, ◌≢◌, refl, sym, ap, ◌∙◌, arith, ltb, true,
  false, Bool-cases, inl, inr, some, [], ◌∷◌, ◌++◌, append_assoc, append-nil, All, All-append,
}
use foc_devnet.Text.{Text, is_digit, digits, to_string, scan, parse_uint}

abbrev pub Digits : Text → Type 0
Digits = All (λ c. is_digit c ≡ true)

digits_small : (fuel n : ℕ) → ltb n 10 ≡ true → digits (suc fuel) n ≡ (b'0' + n) ∷ []
unfolding digits
digits_small fuel n h = rw (h, digits)

digits_large :
    (fuel n : ℕ)
    → ltb n 10 ≡ false
    → digits (suc fuel) n ≡ digits fuel (n / 10) ++ (b'0' + n % 10) ∷ []
unfolding digits
digits_large fuel n h = rw (h, digits)

digits-Digits : (fuel n : ℕ) → Digits (digits fuel n)
digits-Digits zero n = unfold digits in tt
digits-Digits (suc fuel) n = elim (Bool-cases (ltb n 10)) [
  | inl small ↦ rw (digits_small fuel n small) (ground arith, tt)
  | inr large ↦ rw (digits_large fuel n large) (
      All-append _ (digits fuel (n / 10)) ((b'0' + n % 10) ∷ []) (digits-Digits fuel (n / 10))
        (ground arith, tt))
]

pub to_string-Digits : (n : ℕ) → Digits (to_string n)
unfolding to_string
to_string-Digits n = digits-Digits (suc n) n

scan_digit :
    (max c : ℕ) (s : Text) (n : ℕ)
    → is_digit c ≡ true
    → n * 10 + (c - b'0') ≤ max
    → scan max (c ∷ s) n ≡ scan max s (n * 10 + (c - b'0'))
unfolding scan
scan_digit max c s n d h = ground arith

scan-digits :
    (fuel n max : ℕ) (rest : Text)
    → n < fuel
    → n ≤ max
    → scan max (digits fuel n ++ rest) 0 ≡ scan max rest n
scan-digits zero n max rest h le = absurd (omega arith)
scan-digits (suc fuel) n max rest h le = elim (Bool-cases (ltb n 10)) [
  | inl small ↦ rw (digits_small fuel n small) (
      scan_digit max (b'0' + n) rest 0 (ground arith) (omega arith)
      ∙ ap (scan max rest) (omega arith))
  | inr large ↦
      rw (digits_large fuel n large, append_assoc)
        (scan-digits fuel (n / 10) max ((b'0' + n % 10) ∷ rest) (ground arith) (omega arith)
          ∙ scan_digit max (b'0' + n % 10) rest (n / 10) (ground arith) (omega arith)
          ∙ ap (scan max rest) (omega arith))
]

-- `parse` starts its loop on every text that begins with a digit.
parse_uint-scan : (max : ℕ) (s : Text) → Digits s → s ≢ [] → parse_uint max s ≡ scan max s 0
unfolding parse_uint
parse_uint-scan max [] d h = absurd (h refl)
parse_uint-scan max (c ∷ []) d h = ground arith
parse_uint-scan max (c ∷ e ∷ s) d h = ground arith

snoc-ne-nil : (s : Text) (c : ℕ) → s ++ c ∷ [] ≢ []
snoc-ne-nil [] c h = cc
snoc-ne-nil (d ∷ s) c h = cc

digits-ne-nil : (fuel n : ℕ) → digits (suc fuel) n ≢ []
digits-ne-nil fuel n h = elim (Bool-cases (ltb n 10)) [
  | inl small ↦ cc (digits_small fuel n small, h)
  | inr large ↦
      snoc-ne-nil (digits fuel (n / 10)) (b'0' + n % 10) (sym (digits_large fuel n large) ∙ h)
]

pub to_string-ne-nil : (n : ℕ) → to_string n ≢ []
unfolding to_string
to_string-ne-nil n = digits-ne-nil n n

-- `parse` reads what `to_string` printed, at each unsigned type in which the number fits.
pub parse_uint-to_string : (n max : ℕ) → n ≤ max → parse_uint max (to_string n) ≡ some n
unfolding to_string
parse_uint-to_string n max h =
    parse_uint-scan max (to_string n) (to_string-Digits n) (to_string-ne-nil n)
    ∙ ap (λ s. scan max s 0) (sym (append-nil (digits (suc n) n)))
    ∙ scan-digits (suc n) n max [] (omega arith) h
    ∙ (unfold scan in refl)

pub to_string-injective : (m n : ℕ) → to_string m ≡ to_string n → m ≡ n
to_string-injective m n h =
    cc (
      parse_uint-to_string m (m + n) (omega arith),
      parse_uint-to_string n (m + n) (omega arith),
      h,
    )

scan_le : (max : ℕ) (s : Text) (m n : ℕ) → m ≤ max → scan max s m ≡ some n → n ≤ max
unfolding scan
scan_le max [] m n le h = ground arith
scan_le max (c ∷ s) m n le h = ground (arith, scan_le max s (m * 10 + (c - b'0')) n)

-- What is parsed is within the range of the type.
pub parse_uint-le : (max : ℕ) (s : Text) (n : ℕ) → parse_uint max s ≡ some n → n ≤ max
unfolding parse_uint
parse_uint-le max [] n h = cc
parse_uint-le max (c ∷ []) n h = ground (arith, scan_le max (c ∷ []) 0 n)
parse_uint-le max (c ∷ d ∷ s) n h =
    ground (arith, scan_le max (d ∷ s) 0 n, scan_le max (c ∷ d ∷ s) 0 n)
