-- ===== src/Ports/Invariant.antt =====
-- The invariant of `PortAllocator`, for a range whose end is a `u16`, and how `new` and
-- `mark_allocated` meet it.
use foc_devnet.Base.{
  ℕ, ◌+◌, ◌-◌, ◌<◌, ◌≤◌, ◌≡◌, ◌↔◌, arith, ltb, leb, ◌||◌, true, Bool-cases, inl, inr, [],
  if◌then◌else◌, InRange, All, Distinct, contains, ok, err,
}
use foc_devnet.Words.{Profile, u16_mod, add_u16-ok, sub_u16-ok}
use foc_devnet.Ports.{PortAllocator, outside_range, new, mark_allocated, last_port, insert_port}

pub record IsValid (a : PortAllocator) : Type 0 where
  pub nonempty : 0 < a.count
  pub fits : a.start + a.count < u16_mod
  pub lower : a.start ≤ a.next
  pub upper : a.next < a.start + a.count
  pub distinct : Distinct a.allocated
  pub within : All (InRange a.start a.count) a.allocated

-- A range that `new` accepts is not empty and ends at 65535 at most; nothing is allocated in it,
-- and it is valid if its end, the port behind the last, is a `u16` too.
pub new-IsValid :
    (start count : ℕ) (a : PortAllocator)
    → new start count ≡ ok a
    → start + count < u16_mod
    → IsValid a × (a.start ≡ start) × (a.count ≡ count) × (a.allocated ≡ []) × (a.next ≡ start)
unfolding new
new-IsValid start count a h fits = ground arith

-- `new` returns an allocator with nothing allocated, whose next port is the first, exactly for the
-- nonempty ranges whose last port is at most 65535.
pub new-ok_iff :
    (start count : ℕ)
    → (new start count ≡ ok (record { start = start; count = count; allocated = []; next = start }))
      ↔ ((0 < count) × (start + count ≤ u16_mod))
unfolding new
new-ok_iff start count = (λ h. ground arith, λ h. ground arith)

module _ (p : Profile) (a : PortAllocator) (v : IsValid a) where
  pub last_port-ok : last_port p a ≡ (ok (a.start + a.count - 1), a)
  unfolding last_port
  last_port-ok =
      let fits = v.fits in
      let nonempty = v.nonempty in
      rw (add_u16-ok p a.start a.count fits, sub_u16-ok p (a.start + a.count) 1 (omega arith))

  -- In a valid allocator a port of the range is marked, whether or not it was allocated; any other is refused, and the
  -- allocator stays as it was.
  pub mark_allocated_lem :
      (port : ℕ)
      → mark_allocated p port a ≡ (
          if ltb port a.start || leb (a.start + a.count) port
          then (err (outside_range port a.start (a.start + a.count - 1)), a)
          else (ok tt, record a { allocated = insert_port port a.allocated }))
  unfolding mark_allocated
  mark_allocated_lem port = elim (Bool-cases (ltb port a.start || leb (a.start + a.count) port)) [
    | inl out ↦ rw (add_u16-ok p a.start a.count v.fits, out, last_port-ok)
    | inr within ↦ rw (add_u16-ok p a.start a.count v.fits, within)
  ]

  -- Marking keeps the invariant, and afterwards the port counts as allocated if it is of the range.
  pub mark_allocated-IsValid :
      (port : ℕ)
      → IsValid (mark_allocated p port a).1
        × (InRange a.start a.count port
            → contains port (mark_allocated p port a).1.allocated ≡ true)
  unfolding contains
  mark_allocated-IsValid port = rw mark_allocated_lem (ground arith)
