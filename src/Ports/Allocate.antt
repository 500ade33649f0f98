-- ===== src/Ports/Allocate.antt =====
-- src/port_allocator.rs: the loop of `allocate` in a valid allocator.
use foc_devnet.Base.{
  ℕ, zero, suc, ◌+◌, ◌-◌, ◌<◌, ◌≤◌, ◌≡◌, refl, arith, leb, true, false, Bool-cases, inl, inr, ◌∷◌,
  if◌then◌else◌, Option, none, some, InRange, ◌≢◌, contains, Outcome, ok, err, length,
  range-le-length,
}
use native.Mathlib.Decide.{ℕ_discrete}
use foc_devnet.Base.Exec.{continue}
use foc_devnet.Words.{Profile, add_u16-ok}
use foc_devnet.Ports.{
  PortAllocator, PortError, no_available_ports, claim, round, allocate_loop, or_exhausted, allocate,
}
use foc_devnet.Ports.Invariant.{IsValid, last_port-ok}

-- The port behind the next one, and the start behind the last.
abbrev successor : PortAllocator → ℕ
successor a = if leb (a.start + a.count) (a.next + 1) then a.start else a.next + 1

-- How many rounds after that of `next` the loop comes to `q`.
abbrev distance : PortAllocator → ℕ → ℕ
distance a q = if leb a.next q then q - a.next else q + a.count - a.next

abbrev pub moved : PortAllocator → ℕ → PortAllocator
moved a n = record a { next = n }

abbrev pub taken : PortAllocator → ℕ → ℕ → PortAllocator
taken a port n = record a { allocated = port ∷ a.allocated; next = n }

-- What a search of `k` rounds comes to.
data Search (a : PortAllocator) (k : ℕ) (r : Outcome PortError (Option ℕ) × PortAllocator)
    : Type 0 where
  found :
      (port n : ℕ)
      → r ≡ (ok (some port), taken a port n)
      → InRange a.start a.count port
      → contains port a.allocated ≡ false
      → InRange a.start a.count n
      → Search a k r
  full :
      (n : ℕ)
      → r ≡ (ok none, moved a n)
      → InRange a.start a.count n
      → ((q : ℕ) → InRange a.start a.count q → distance a q < k → contains q a.allocated ≡ true)
      → Search a k r

module _ (p : Profile) where
  round_lem :
      (a : PortAllocator)
      → IsValid a
      → round p (a.start + a.count) a ≡ claim p a.next (moved a (successor a))
  unfolding round
  round_lem a v =
      let upper = v.upper in let fits = v.fits in rw (add_u16-ok p a.next 1 (omega arith))

  moved-IsValid :
      (a : PortAllocator) (n : ℕ) → IsValid a → InRange a.start a.count n → IsValid (moved a n)
  moved-IsValid a n v h = ground arith

  round_free :
      (a : PortAllocator)
      → IsValid a
      → contains a.next a.allocated ≡ false
      → round p (a.start + a.count) a ≡ (ok (some a.next), taken a a.next (successor a))
  unfolding claim
  round_free a v h = rw (round_lem a v, h)

  round_taken :
      (a : PortAllocator)
      → IsValid a
      → contains a.next a.allocated ≡ true
      → round p (a.start + a.count) a ≡ (ok none, moved a (successor a))
  unfolding claim
  round_taken a v h = rw (round_lem a v, h)

  -- Every round moves one step nearer to each port but the one it tries.
  distance-successor :
      (a : PortAllocator)
      → IsValid a
      → (q : ℕ) → InRange a.start a.count q
      → q ≢ a.next
      → distance (moved a (successor a)) q + 1 ≡ distance a q
  distance-successor a v q h ne = ground arith

  successor-InRange : (a : PortAllocator) → IsValid a → InRange a.start a.count (successor a)
  successor-InRange a v = ground arith

  widen :
      (a : PortAllocator) (k : ℕ) {r : Outcome PortError (Option ℕ) × PortAllocator}
      → IsValid a
      → contains a.next a.allocated ≡ true
      → Search (moved a (successor a)) k r
      → Search a (suc k) r
  widen a k v c (found port n e h f b) = found port n e h f b
  widen a k v c (full n e b h) = full n e b λ q within near. elim (ℕ_discrete q a.next) [
    | yes same ↦ rw same c
    | no other ↦ h q within (omega (arith, distance-successor a v q within other))
  ]

  allocate_loop-Search :
      (k : ℕ) (a : PortAllocator) → IsValid a → Search a k (allocate_loop p k (a.start + a.count) a)
  unfolding allocate_loop
  allocate_loop-Search zero a v =
      full a.next refl (v.lower, v.upper) (λ q within near. absurd (omega arith))
  allocate_loop-Search (suc k) a v = elim (Bool-cases (contains a.next a.allocated)) [
    | inl c ↦ rw (round_taken a v c) (
        widen a k v c (
          allocate_loop-Search k (moved a (successor a))
            (moved-IsValid a (successor a) v (successor-InRange a v))))
    | inr c ↦
        rw (round_free a v c)
          (found a.next (successor a) refl (v.lower, v.upper) c (successor-InRange a v))
  ]

-- What a call of `allocate` comes to in a valid allocator.
pub data Allocates (a : PortAllocator) (r : Outcome PortError ℕ × PortAllocator) : Type 0 where
  granted :
      (port n : ℕ)
      → r ≡ (ok port, taken a port n)
      → InRange a.start a.count port
      → contains port a.allocated ≡ false
      → InRange a.start a.count n
      → Allocates a r
  exhausted :
      (n : ℕ)
      → r ≡ (err (no_available_ports a.start (a.start + a.count - 1)), moved a n)
      → InRange a.start a.count n
      → a.count ≤ length a.allocated
      → Allocates a r

module _ (p : Profile) where
  distance-lt :
      (a : PortAllocator) → IsValid a → (q : ℕ) → InRange a.start a.count q → distance a q < a.count
  distance-lt a v q h = ground arith

  or_exhausted-Allocates :
      (a : PortAllocator) (r : Outcome PortError (Option ℕ) × PortAllocator)
      → IsValid a
      → Search a a.count r
      → Allocates a (continue r (or_exhausted p))
  unfolding or_exhausted
  or_exhausted-Allocates a r v (found port n e h f b) = granted port n (rw e) h f b
  or_exhausted-Allocates a r v (full n e b h) =
      exhausted n (rw (e, last_port-ok p (moved a n) (moved-IsValid p a n v b))) b (
        range-le-length a.count a.start a.allocated
          (λ q lo hi. h q (lo, hi) (distance-lt a v q (lo, hi))))

  pub allocate-Allocates : (a : PortAllocator) → IsValid a → Allocates a (allocate p a)
  unfolding allocate
  allocate-Allocates a v =
      rw (add_u16-ok p a.start a.count v.fits)
        (or_exhausted-Allocates a _ v (allocate_loop-Search p a.count a v))
