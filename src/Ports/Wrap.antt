-- ===== src/Ports/Wrap.antt =====
-- src/port_allocator.rs: the range that ends at port 65535, whose end 65536 is no `u16`.
use foc_devnet.Base.{
  ℕ, zero, suc, ◌+◌, ◌<◌, ◌≡◌, refl, arith, [], ◌∷◌, none, some, contains, ok, err, panic,
}
use foc_devnet.Words.{debug, release, add_u16, sub_u16, u16_mod}
use foc_devnet.Ports.{
  PortAllocator, PortError, no_available_ports, new, round, advance, claim, allocate_loop, allocate,
  last_port, or_exhausted,
}

abbrev pub fresh : ℕ → ℕ → PortAllocator
fresh start count = record { start = start; count = count; allocated = []; next = start }

abbrev pub one_taken : ℕ → ℕ → PortAllocator
one_taken start count = record {
  start = start;
  count = count;
  allocated = start ∷ [];
  next = start;
}

debug_panics :
    (start count : ℕ)
    → start + count ≡ u16_mod
    → allocate debug (fresh start count) ≡ (panic, fresh start count)
unfolding allocate add_u16
debug_panics start count h = ground arith

round-release :
    (start count : ℕ)
    → 0 < count
    → start + count ≡ u16_mod
    → (round release 0 (fresh start count) ≡ (ok (some start), one_taken start count))
      × (round release 0 (one_taken start count) ≡ (ok none, one_taken start count))
unfolding round advance claim add_u16 contains
round-release start count pos h = ground arith

loop-release :
    (k start count : ℕ)
    → 0 < count
    → start + count ≡ u16_mod
    → allocate_loop release k 0 (one_taken start count) ≡ (ok none, one_taken start count)
unfolding allocate_loop
loop-release zero start count pos h = refl
loop-release (suc k) start count pos h =
    rw ((round-release start count pos h).1) (loop-release k start count pos h)

end-release :
    (start count : ℕ) → start + count ≡ u16_mod → add_u16 {E = PortError} release start count ≡ ok 0
unfolding add_u16
end-release start count h = ground arith

last_port-release :
    (a : PortAllocator) → a.start + a.count ≡ u16_mod → last_port release a ≡ (ok 65535, a)
unfolding last_port sub_u16
last_port-release a h = rw (end-release a.start a.count h)

first-release :
    (count start : ℕ)
    → 0 < count
    → start + count ≡ u16_mod
    → allocate release (fresh start count) ≡ (ok start, one_taken start count)
unfolding allocate allocate_loop or_exhausted
first-release zero start pos h = absurd (omega arith)
first-release (suc k) start pos h =
    rw (end-release start (suc k) h, (round-release start (suc k) pos h).0)

second-release :
    (start count : ℕ)
    → 0 < count
    → start + count ≡ u16_mod
    → allocate release (one_taken start count)
      ≡ (err (no_available_ports start 65535), one_taken start count)
unfolding allocate or_exhausted
second-release start count pos h = rw (
  end-release start count h,
  loop-release count start count pos h,
  last_port-release (one_taken start count) h,
)

-- `new` accepts every nonempty range that ends at port 65535. In it a debug build panics on the first
-- `allocate`; a release build grants the first port, and answers the next call with the error that no
-- port is available, however many the range has.
pub allocate_to_last_port :
    (start count : ℕ)
    → 0 < count
    → start + count ≡ u16_mod
    → (new start count ≡ ok (fresh start count))
      × ((allocate debug (fresh start count)).0 ≡ panic)
      × ((allocate release (fresh start count)).0 ≡ ok start)
      × (allocate release (allocate release (fresh start count)).1
          ≡ (err (no_available_ports start 65535), one_taken start count))
unfolding new
allocate_to_last_port start count pos h = (
  ground arith,
  rw (debug_panics start count h),
  rw (first-release count start pos h),
  rw (first-release count start pos h) (second-release start count pos h),
)
