-- ===== src/Text/Keys.antt =====
-- The keys of the shared context, `format!("pdp_sp_{}_address", sp_index)` and the like.
use mathlib.Core.List.{tail}
use foc_devnet.Base.{ℕ, ◌≡◌, refl, ap, arith, false, [], ◌∷◌, ◌++◌, String}
use foc_devnet.Text.{Text, codes, is_digit, to_string}
use foc_devnet.Text.Decimal.{Digits, to_string-Digits, to_string-injective}

abbrev pub indexed : String → ℕ → String → Text
indexed prefix i suffix = codes prefix ++ (to_string i ++ codes suffix)

-- The suffix of a key begins with a character that is no digit.
abbrev pub Separated : Text → Type 0
Separated [] = Unit
Separated (c ∷ s) = is_digit c ≡ false

Digits-apart :
    (xs ys s t : Text)
    → Digits xs
    → Digits ys
    → Separated s
    → Separated t
    → xs ++ s ≡ ys ++ t
    → (xs ≡ ys) × (s ≡ t)
Digits-apart [] [] s t hx hy hs ht e = (refl, e)
Digits-apart [] (d ∷ ys) [] t hx hy hs ht e = cc
Digits-apart [] (d ∷ ys) (c ∷ s) t hx hy hs ht e = ground arith
Digits-apart (c ∷ xs) [] s [] hx hy hs ht e = cc
Digits-apart (c ∷ xs) [] s (d ∷ t) hx hy hs ht e = ground arith
Digits-apart (c ∷ xs) (d ∷ ys) s t hx hy hs ht e =
    let rest = Digits-apart xs ys s t hx.1 hy.1 hs ht (ap tail e) in (cc (rest.0, e), rest.1)

pub append_cancel : (p s t : Text) → p ++ s ≡ p ++ t → s ≡ t
append_cancel [] s t e = e
append_cancel (c ∷ p) s t e = append_cancel p s t (ap tail e)

pub indexed-injective :
    (prefix : String) (i j : ℕ) (s t : String)
    → Separated (codes s)
    → Separated (codes t)
    → indexed prefix i s ≡ indexed prefix j t
    → (i ≡ j) × (codes s ≡ codes t)
indexed-injective prefix i j s t hs ht e =
    let parts =
      Digits-apart (to_string i) (to_string j) (codes s) (codes t) (to_string-Digits i)
        (to_string-Digits j) hs ht (append_cancel (codes prefix) _ _ e) in
    (to_string-injective i j parts.0, parts.1)
