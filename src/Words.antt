-- ===== src/Words.antt =====
-- Arithmetic on `u16` and `u64` as the compiler emits it. A debug build panics on overflow, and a release
-- build wraps around; the crate sets neither otherwise.
use foc_devnet.Base.{
  ℕ, ◌+◌, ◌-◌, ◌%◌, ◌<◌, ◌≤◌, ◌≡◌, arith, ltb, leb, if◌then◌else◌, Outcome, ok, panic,
}

pub data Profile : Type 0 where
  debug release : Profile

abbrev pub u16_mod : ℕ
u16_mod = 65536

-- The result of an operation that does not fit.
abbrev pub overflowed {ℓ} : {E : Type ℓ} → Profile → ℕ → Outcome E ℕ
overflowed debug n = panic
overflowed release n = ok (n % u16_mod)

unfoldable pub add_u16 {ℓ} : {E : Type ℓ} → Profile → ℕ → ℕ → Outcome E ℕ
add_u16 p a b = if ltb (a + b) u16_mod then ok (a + b) else overflowed p (a + b)

unfoldable pub sub_u16 {ℓ} : {E : Type ℓ} → Profile → ℕ → ℕ → Outcome E ℕ
sub_u16 p a b = if leb b a then ok (a - b) else overflowed p (a + u16_mod - b)

pub add_u16-ok {ℓ} :
    {E : Type ℓ} (p : Profile) (a b : ℕ) → a + b < u16_mod → add_u16 {E = E} p a b ≡ ok (a + b)
unfolding add_u16
add_u16-ok p a b h = ground arith

pub sub_u16-ok {ℓ} :
    {E : Type ℓ} (p : Profile) (a b : ℕ) → b ≤ a → sub_u16 {E = E} p a b ≡ ok (a - b)
unfolding sub_u16
sub_u16-ok p a b h = ground arith

abbrev pub u64_mod : ℕ
u64_mod = 18446744073709551616

unfoldable pub add_u64 {ℓ} : {E : Type ℓ} → Profile → ℕ → ℕ → Outcome E ℕ
add_u64 debug a b = if ltb (a + b) u64_mod then ok (a + b) else panic
add_u64 release a b = if ltb (a + b) u64_mod then ok (a + b) else ok ((a + b) % u64_mod)

pub add_u64-ok {ℓ} :
    {E : Type ℓ} (p : Profile) (a b : ℕ) → a + b < u64_mod → add_u64 {E = E} p a b ≡ ok (a + b)
unfolding add_u64
add_u64-ok debug a b h = ground arith
add_u64-ok release a b h = ground arith
