-- ===== src/Ports/Examples.antt =====
-- Runs of the port allocator.
use foc_devnet.Base.{
  ℕ, ◌≡◌, refl, arith, ◌≤◌, ◌<◌, ◌+◌, ◌==◌, if◌then◌else◌, Bool, true, false, List, [], ◌∷◌, ok,
  err, panic, contains, ◌↔◌,
}
use foc_devnet.Words.{debug, release, u16_mod}
use foc_devnet.Ports.{
  PortAllocator, no_available_ports, new, allocate, allocate_multiple, allocated_count,
  available_count,
}
use foc_devnet.Ports.Invariant.{IsValid, new-ok_iff}
use foc_devnet.Ports.Contract.{
  Grants, Refuses, GrantsAll, allocate-Grants, allocate-Refuses, allocate_multiple-GrantsAll,
}
use foc_devnet.Ports.Sessions.{Extends, Request, one, several, mark, serve, serve-Extends}
use foc_devnet.Ports.Wrap.{allocate_to_last_port, fresh, one_taken}

-- Three ports, the middle one taken.
abbrev part_taken : PortAllocator
part_taken = record { start = 5700; count = 3; allocated = 5701 ∷ []; next = 5700 }

part_taken-IsValid : IsValid part_taken
unfolding contains
part_taken-IsValid = record {
  nonempty = omega arith;
  fits = omega arith;
  lower = omega arith;
  upper = omega arith;
  distinct = (refl, tt);
  within = ((omega arith, omega arith), tt);
}

-- One port, and it is taken.
abbrev all_taken : PortAllocator
all_taken = record { start = 5700; count = 1; allocated = 5700 ∷ []; next = 5700 }

all_taken-IsValid : IsValid all_taken
unfolding contains
all_taken-IsValid = record {
  nonempty = omega arith;
  fits = omega arith;
  lower = omega arith;
  upper = omega arith;
  distinct = (refl, tt);
  within = ((omega arith, omega arith), tt);
}

abbrev requests : List Request
requests = one ∷ mark 5700 ∷ several 2 ∷ one ∷ []

serve-Extends_example :
    Extends part_taken (serve debug requests part_taken).0 (serve debug requests part_taken).1
serve-Extends_example = serve-Extends debug requests part_taken part_taken-IsValid

allocate_multiple-GrantsAll_example :
    GrantsAll part_taken 2 [] (allocate_multiple debug 2 part_taken)
unfolding available_count
allocate_multiple-GrantsAll_example =
    allocate_multiple-GrantsAll debug 2 part_taken part_taken-IsValid (omega arith)

allocate-Grants_example : Grants part_taken (allocate debug part_taken)
unfolding allocated_count
allocate-Grants_example = allocate-Grants debug part_taken part_taken-IsValid (omega arith)

allocate-Refuses_example : Refuses all_taken (allocate release all_taken)
unfolding allocated_count
allocate-Refuses_example = allocate-Refuses release all_taken all_taken-IsValid refl

new-ok_iff_example :
    (new 5700 100 ≡ ok (record { start = 5700; count = 100; allocated = []; next = 5700 }))
    ↔ ((0 < 100) × (5700 + 100 ≤ u16_mod))
new-ok_iff_example = new-ok_iff 5700 100

allocate_to_last_port_example :
    (new 65436 100 ≡ ok (fresh 65436 100))
    × ((allocate debug (fresh 65436 100)).0 ≡ panic)
    × ((allocate release (fresh 65436 100)).0 ≡ ok 65436)
    × (allocate release (allocate release (fresh 65436 100)).1
        ≡ (err (no_available_ports 65436 65535), one_taken 65436 100))
allocate_to_last_port_example = allocate_to_last_port 65436 100 (omega arith) refl

-- Port 5702 alone is in use.
abbrev available : ℕ → Bool
available q = if q == 5702 then false else true
