-- ===== src/Ports.antt =====
-- src/port_allocator.rs: the allocator of the contiguous port range. The proofs are in the modules
-- below this one.
mod Examples
pub mod Invariant
pub mod Allocate
pub mod Contract
pub mod Wrap
pub mod Sessions
pub mod Availability
use foc_devnet.Base.{
  ℕ, zero, suc, ◌+◌, ◌-◌, ◌<◌, ◌≤◌, ◌≡◌, arith, ltb, leb, ◌==◌, if◌then◌else◌, ◌||◌, Bool, true,
  false, not, Option, none, some, List, [], ◌∷◌, ◌++◌, length, contains, Outcome, ok, err, panic,
}
use foc_devnet.Base.Exec.{Exec, pure, raise, lift, gets, modify, ◌>>=◌, ◌>>◌, continue}
use foc_devnet.Words.{Profile, add_u16, sub_u16, u16_mod}

pub record PortAllocator : Type 0 where
  pub start : ℕ
  pub count : ℕ
  pub allocated : List ℕ
  pub next : ℕ

pub data PortError : Type 0 where
  empty_range : PortError
  range_exceeds_maximum : PortError
  no_available_ports : ℕ → ℕ → PortError
  outside_range : ℕ → ℕ → ℕ → PortError
  ports_in_use : List ℕ → PortError

-- `checked_add(count.saturating_sub(1))`: subtraction on ℕ stops at 0 as well.
unfoldable pub new : ℕ → ℕ → Outcome PortError PortAllocator
new start count =
    if count == 0
    then err empty_range
    else if ltb (start + (count - 1)) u16_mod
    then ok (record { start = start; count = count; allocated = []; next = start })
    else err range_exceeds_maximum

abbrev pub PortExec : Type 0 → Type 0
PortExec A = Exec PortAllocator PortError A

-- `HashSet::insert`
abbrev pub insert_port : ℕ → List ℕ → List ℕ
insert_port port ports = if contains port ports then ports else port ∷ ports

module _ (p : Profile) where
  -- `self.next += 1`, and back to the start behind the end
  advance : ℕ → PortExec Unit
  advance end = do
    next ← gets (λ a. a.next)
    after ← lift (add_u16 p next 1)
    modify (λ a. record a { next = if leb end after then a.start else after })

  -- The end of one round: the port of the round is taken if it is free.
  claim : ℕ → PortExec (Option ℕ)
  claim port a =
      if contains port a.allocated
      then (ok none, a)
      else (ok (some port), record a { allocated = port ∷ a.allocated })

  -- One round of the loop of `allocate`; `none` goes on to the next round.
  round : ℕ → PortExec (Option ℕ)
  unfolding advance claim
  round end = do port ← gets (λ a. a.next); advance end; claim port

  allocate_loop : ℕ → ℕ → PortExec (Option ℕ)
  allocate_loop zero end = pure none
  allocate_loop (suc k) end = do
    found ← round end
    elim found [ some port ↦ pure (some port) | none ↦ allocate_loop k end ]

  -- `self.start + self.count - 1`, in the order in which it is computed
  pub last_port : PortExec ℕ
  last_port = do
    start ← gets (λ a. a.start)
    count ← gets (λ a. a.count)
    end ← lift (add_u16 p start count)
    lift (sub_u16 p end 1)

  or_exhausted : Option ℕ → PortExec ℕ
  unfolding last_port
  or_exhausted (some port) = pure port
  or_exhausted none = do
    start ← gets (λ a. a.start)
    last ← last_port
    raise (no_available_ports start last)

  unfoldable pub allocate : PortExec ℕ
  unfolding allocate_loop round or_exhausted
  allocate = do
    start ← gets (λ a. a.start)
    count ← gets (λ a. a.count)
    end ← lift (add_u16 p start count)
    found ← allocate_loop count end
    or_exhausted found

  allocate_more : ℕ → List ℕ → PortExec (List ℕ)
  allocate_more zero ports = pure ports
  allocate_more (suc n) ports = do port ← allocate; allocate_more n (ports ++ port ∷ [])

  pub allocate_multiple : ℕ → PortExec (List ℕ)
  unfolding allocate_more
  allocate_multiple n = allocate_more n []

  unfoldable pub mark_allocated : ℕ → PortExec Unit
  unfolding last_port
  mark_allocated port = do
    start ← gets (λ a. a.start)
    count ← gets (λ a. a.count)
    end ← lift (add_u16 p start count)
    if ltb port start || leb end port
        then (do last ← last_port; raise (outside_range port start last))
        else modify (λ a. record a { allocated = insert_port port a.allocated })

unfoldable pub allocated_count : PortAllocator → ℕ
allocated_count a = length a.allocated

-- `usize` subtraction: the difference is never negative (`length-le-range`).
unfoldable pub available_count : PortAllocator → ℕ
available_count a = a.count - length a.allocated

pub range : Profile → PortExec (ℕ × ℕ)
unfolding last_port
range p = do start ← gets (λ a. a.start); last ← last_port p; pure (start, last)
