-- ===== src/Pdp/Encoding.antt =====
-- src/commands/start/pdp_service_provider/registration.rs: the minimal encoding of a number.
use foc_devnet.Base.{
  ℕ, zero, suc, ◌+◌, ◌*◌, ◌/◌, ◌%◌, ◌^◌, ◌<◌, ◌≤◌, ◌≡◌, ◌≢◌, refl, sym, ap, ◌∙◌, arith, ◌==◌, List,
  [], ◌∷◌, ◌++◌, Bool-cases, ==_iff, inl, inr,
}
use foc_devnet.Text.{max_u64}
use foc_devnet.Pdp.Capabilities.{to_be_bytes, skip_zeros, minimal_bytes, from_be_bytes}

from_be_bytes-append :
    (xs : List ℕ) (b n : ℕ) → from_be_bytes (xs ++ b ∷ []) n ≡ from_be_bytes xs n * 256 + b
unfolding from_be_bytes
from_be_bytes-append [] b n = refl
from_be_bytes-append (x ∷ xs) b n = from_be_bytes-append xs b (n * 256 + x)

from_be_bytes-to_be_bytes :
    (n value : ℕ) → value < 256 ^ n → from_be_bytes (to_be_bytes n value) 0 ≡ value
unfolding from_be_bytes to_be_bytes
from_be_bytes-to_be_bytes zero value h = omega arith
from_be_bytes-to_be_bytes (suc n) value h =
    from_be_bytes-append (to_be_bytes n (value / 256)) (value % 256) 0
    ∙ ap (λ m. m * 256 + value % 256) (from_be_bytes-to_be_bytes n (value / 256) (omega arith))
    ∙ omega arith

zero_shift : (b : ℕ) → b ≡ 0 → 0 * 256 + b ≡ 0
zero_shift b h = omega arith

from_be_bytes-skip_zeros : (xs : List ℕ) → from_be_bytes (skip_zeros xs) 0 ≡ from_be_bytes xs 0
unfolding from_be_bytes skip_zeros
from_be_bytes-skip_zeros [] = refl
from_be_bytes-skip_zeros (b ∷ []) = refl
from_be_bytes-skip_zeros (b ∷ c ∷ xs) = elim (Bool-cases (b == 0)) [
  | inl e ↦
      rw (skip_zeros, e)
        (from_be_bytes-skip_zeros (c ∷ xs)
          ∙ ap (λ n. from_be_bytes xs (n * 256 + c)) (sym (zero_shift b ((==_iff b 0).0 e))))
  | inr e ↦ rw (skip_zeros, e) refl
]

skip_zeros-first :
    (xs : List ℕ)
    → from_be_bytes xs 0 ≢ 0
    → (b : ℕ) × (bytes : List ℕ) × (skip_zeros xs ≡ b ∷ bytes) × (b ≢ 0)
unfolding from_be_bytes skip_zeros
skip_zeros-first [] h = absurd (h refl)
skip_zeros-first (b ∷ []) h = (b, [], refl, λ e. h (omega arith))
skip_zeros-first (b ∷ c ∷ xs) h = elim (Bool-cases (b == 0)) [
  | inl e ↦
      rw (skip_zeros, e)
        (skip_zeros-first (c ∷ xs)
          (λ f. h (ap (λ n. from_be_bytes xs (n * 256 + c)) (zero_shift b ((==_iff b 0).0 e)) ∙ f)))
  | inr e ↦ rw (skip_zeros, e) (b, c ∷ xs, refl, λ f. cc (e, (==_iff b 0).1 f))
]

-- The bytes that stand for a `u64` other than 0 give back the number, and the first of them is not 0.
pub minimal_bytes_lem :
    (value : ℕ)
    → value ≤ max_u64
    → value ≢ 0
    → (from_be_bytes (minimal_bytes value) 0 ≡ value)
      × ((b : ℕ) × (bytes : List ℕ) × (minimal_bytes value ≡ b ∷ bytes) × (b ≢ 0))
unfolding minimal_bytes
minimal_bytes_lem value le h =
    let whole = from_be_bytes-to_be_bytes 8 value (omega arith) in
    (
      from_be_bytes-skip_zeros (to_be_bytes 8 value) ∙ whole,
      skip_zeros-first (to_be_bytes 8 value) (λ e. h (sym whole ∙ e)),
    )
