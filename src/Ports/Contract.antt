-- ===== src/Ports/Contract.antt =====
-- The contract of `allocate` and `allocate_multiple`, in terms of the counts that
-- `allocated_count` and `available_count` report.
use mathlib.Core.List.{reverse, reverse-cons}
use foc_devnet.Base.{
  ℕ, zero, suc, ◌+◌, ◌-◌, ◌<◌, ◌≤◌, ◌≡◌, refl, sym, ap, ◌∙◌, arith, false, [], List, ◌∷◌, ◌++◌,
  append_assoc, append-nil, InRange, contains, ok, err, length, length-le-range, Outcome,
}
use native.Mathlib.Decide.{dec_lt}
use foc_devnet.Base.Exec.{continue, continue-ok, continue-err}
use foc_devnet.Words.{Profile}
use foc_devnet.Ports.{
  PortAllocator, PortError, no_available_ports, allocate, allocate_multiple, allocate_more,
  allocated_count, available_count,
}
use foc_devnet.Ports.Invariant.{IsValid}
use foc_devnet.Ports.Allocate.{Allocates, granted, exhausted, allocate-Allocates}

-- In a valid allocator the two counts add up to the size of the range: the `usize` subtraction of
-- `available_count` never goes below zero.
pub available_count-add :
    (a : PortAllocator) → IsValid a → allocated_count a + available_count a ≡ a.count
unfolding allocated_count available_count
available_count-add a v =
    omega (arith, length-le-range a.count a.start a.allocated v.distinct v.within)

Allocates-IsValid :
    (a : PortAllocator) (r : Outcome PortError ℕ × PortAllocator)
    → IsValid a
    → Allocates a r
    → IsValid r.1
Allocates-IsValid a r v (granted port n e h f b) = rw e (ground arith)
Allocates-IsValid a r v (exhausted n e b full) = rw e (ground arith)

-- A port of the range that was free is granted and is the only one added; the range stays.
pub record Grants (a : PortAllocator) (r : Outcome PortError ℕ × PortAllocator) : Type 0 where
  pub port : ℕ
  pub result : r.0 ≡ ok port
  pub within : InRange a.start a.count port
  pub fresh : contains port a.allocated ≡ false
  pub kept : r.1.allocated ≡ port ∷ a.allocated
  pub same_start : r.1.start ≡ a.start
  pub same_count : r.1.count ≡ a.count

-- The error of an exhausted range is returned, and the set of allocated ports and the range stay.
pub record Refuses (a : PortAllocator) (r : Outcome PortError ℕ × PortAllocator) : Type 0 where
  pub result : r.0 ≡ err (no_available_ports a.start (a.start + a.count - 1))
  pub kept : r.1.allocated ≡ a.allocated
  pub same_start : r.1.start ≡ a.start
  pub same_count : r.1.count ≡ a.count

Allocates-Grants :
    (a : PortAllocator) (r : Outcome PortError ℕ × PortAllocator)
    → allocated_count a < a.count
    → Allocates a r
    → Grants a r
unfolding allocated_count
Allocates-Grants a r room (granted port n e h f b) = record {
  port = port;
  result = rw e;
  within = h;
  fresh = f;
  kept = rw e;
  same_start = rw e;
  same_count = rw e;
}
Allocates-Grants a r room (exhausted n e b full) = absurd (omega arith)

Allocates-Refuses :
    (a : PortAllocator) (r : Outcome PortError ℕ × PortAllocator)
    → IsValid a
    → allocated_count a ≡ a.count
    → Allocates a r
    → Refuses a r
unfolding allocated_count
Allocates-Refuses a r v none_left (granted port n e h f b) = absurd (
    omega
      (arith, length-le-range a.count a.start (port ∷ a.allocated) (f, v.distinct) (h, v.within)))
Allocates-Refuses a r v none_left (exhausted n e b full) = record {
  result = rw e;
  kept = rw e;
  same_start = rw e;
  same_count = rw e;
}

module _ (p : Profile) (a : PortAllocator) (v : IsValid a) where
  -- `allocate` keeps the invariant, whether or not it succeeds.
  pub allocate-IsValid : IsValid (allocate p a).1
  allocate-IsValid = Allocates-IsValid a (allocate p a) v (allocate-Allocates p a v)

  -- In a valid allocator with fewer ports allocated than the range has, `allocate` grants a port of
  -- the range that was free, and adds just that port to the allocated ones; the range stays.
  pub allocate-Grants : allocated_count a < a.count → Grants a (allocate p a)
  allocate-Grants room = Allocates-Grants a (allocate p a) room (allocate-Allocates p a v)

  -- In a valid allocator with every port allocated, `allocate` returns the error that names the
  -- range, and neither the allocated ports nor the range change.
  pub allocate-Refuses : allocated_count a ≡ a.count → Refuses a (allocate p a)
  allocate-Refuses none_left =
      Allocates-Refuses a (allocate p a) v none_left (allocate-Allocates p a v)

-- What a successful run of the loop of `allocate_multiple` leaves behind: `n` ports behind the ones
-- that it had, each added to the allocated ones, which are distinct and of the range (`valid`).
pub record GrantsAll (a : PortAllocator) (n : ℕ) (before : List ℕ)
    (r : Outcome PortError (List ℕ) × PortAllocator) : Type 0 where
  pub ports : List ℕ
  pub result : r.0 ≡ ok (before ++ ports)
  pub count : length ports ≡ n
  pub kept : r.1.allocated ≡ reverse ports ++ a.allocated
  pub valid : IsValid r.1
  pub same_start : r.1.start ≡ a.start
  pub same_count : r.1.count ≡ a.count

allocated_count-Grants :
    (a : PortAllocator) (r : Outcome PortError ℕ × PortAllocator)
    → Grants a r
    → allocated_count r.1 ≡ allocated_count a + 1
unfolding allocated_count
allocated_count-Grants a r g = omega (arith, ap length g.kept)

one_more :
    (a b : PortAllocator) (n port : ℕ) (before : List ℕ)
    (r : Outcome PortError (List ℕ) × PortAllocator)
    → b.allocated ≡ port ∷ a.allocated
    → b.start ≡ a.start
    → b.count ≡ a.count
    → GrantsAll b n (before ++ port ∷ []) r
    → GrantsAll a (suc n) before r
one_more a b n port before r kept start count g = record {
  ports = port ∷ g.ports;
  result = g.result ∙ ap ok (append_assoc before (port ∷ []) g.ports);
  count = ap suc g.count;
  kept = rw (g.kept, kept, reverse-cons, append_assoc);
  valid = g.valid;
  same_start = g.same_start ∙ start;
  same_count = g.same_count ∙ count;
}

-- The loop of `allocate_multiple` in a range with too few free ports: it fails, and the ports that
-- it took before it failed stay allocated, so that none is left.
pub record RunsOut (a : PortAllocator) (r : Outcome PortError (List ℕ) × PortAllocator)
    : Type 0 where
  pub result : r.0 ≡ err (no_available_ports a.start (a.start + a.count - 1))
  pub valid : IsValid r.1
  pub none_left : allocated_count r.1 ≡ r.1.count
  pub same_start : r.1.start ≡ a.start
  pub same_count : r.1.count ≡ a.count

RunsOut-later :
    (a b : PortAllocator) (r : Outcome PortError (List ℕ) × PortAllocator)
    → b.start ≡ a.start
    → b.count ≡ a.count
    → RunsOut b r
    → RunsOut a r
RunsOut-later a b r start count h = record {
  result = rw (← start, ← count) h.result;
  valid = h.valid;
  none_left = h.none_left;
  same_start = h.same_start ∙ start;
  same_count = h.same_count ∙ count;
}

module _ (p : Profile) where
  allocate_more-GrantsAll :
      (n : ℕ) (before : List ℕ) (a : PortAllocator)
      → IsValid a
      → n ≤ available_count a
      → GrantsAll a n before (allocate_more p n before a)
  unfolding allocate_more
  allocate_more-GrantsAll zero before a v room = record {
    ports = [];
    result = rw append-nil;
    count = refl;
    kept = refl;
    valid = v;
    same_start = refl;
    same_count = refl;
  }
  allocate_more-GrantsAll (suc n) before a v room =
      rw (continue-ok (allocate p a) (λ port. allocate_more p n (before ++ port ∷ [])) g.result) (
        one_more a b n g.port before _ g.kept g.same_start g.same_count (
          allocate_more-GrantsAll n (before ++ g.port ∷ []) b w (
            omega (
              arith,
              available_count-add a v,
              available_count-add b w,
              allocated_count-Grants a _ g,
              g.same_count,
            ))))
    where
      g : Grants a (allocate p a)
      g = allocate-Grants p a v (omega (arith, available_count-add a v))

      b : PortAllocator
      b = (allocate p a).1

      w : IsValid b
      w = allocate-IsValid p a v

  RunsOut-now :
      (a : PortAllocator) (f : ℕ → PortAllocator → Outcome PortError (List ℕ) × PortAllocator)
      → IsValid a
      → allocated_count a ≡ a.count
      → RunsOut a (continue (allocate p a) f)
  unfolding allocated_count
  RunsOut-now a f v none_left = rw (continue-err (allocate p a) f g.result) (record {
    result = refl;
    valid = allocate-IsValid p a v;
    none_left = ap length g.kept ∙ none_left ∙ sym g.same_count;
    same_start = g.same_start;
    same_count = g.same_count;
  })
    where
      g : Refuses a (allocate p a)
      g = allocate-Refuses p a v none_left

  allocate_more-RunsOut :
      (n : ℕ) (before : List ℕ) (a : PortAllocator)
      → IsValid a
      → available_count a < n
      → RunsOut a (allocate_more p n before a)
  unfolding allocate_more
  allocate_more-RunsOut zero before a v short = absurd (omega arith)
  allocate_more-RunsOut (suc n) before a v short = elim (dec_lt (allocated_count a) a.count) [
    | no full ↦ RunsOut-now a _ v (omega (arith, available_count-add a v))
    | yes room ↦
        let g = allocate-Grants p a v room in
        let b = (allocate p a).1 in
        let w = allocate-IsValid p a v in
        rw (continue-ok (allocate p a) (λ port. allocate_more p n (before ++ port ∷ [])) g.result) (
          RunsOut-later a b _ g.same_start g.same_count (
            allocate_more-RunsOut n (before ++ g.port ∷ []) b w (
              omega (
                arith,
                available_count-add a v,
                available_count-add b w,
                allocated_count-Grants a _ g,
                g.same_count,
              ))))
  ]

  -- In a valid allocator with at least `n` ports available, `allocate_multiple n` returns `n` ports,
  -- each added to the allocated ones, and the allocator stays valid over the same range.
  pub allocate_multiple-GrantsAll :
      (n : ℕ) (a : PortAllocator)
      → IsValid a
      → n ≤ available_count a
      → GrantsAll a n [] (allocate_multiple p n a)
  unfolding allocate_multiple
  allocate_multiple-GrantsAll n a v h = allocate_more-GrantsAll n [] a v h

  -- In a valid allocator with fewer than `n` ports available, `allocate_multiple n` returns the error
  -- of an exhausted range, and afterwards no port is available: the ports taken on the way are not
  -- given back.
  pub allocate_multiple-RunsOut :
      (n : ℕ) (a : PortAllocator)
      → IsValid a
      → available_count a < n
      → RunsOut a (allocate_multiple p n a)
  unfolding allocate_multiple
  allocate_multiple-RunsOut n a v h = allocate_more-RunsOut n [] a v h
