-- ===== src/Steps/Setup.antt =====
-- src/commands/start/step/mod.rs: what both executors do before the first step.
use foc_devnet.Base.{
  ℕ, zero, suc, ◌+◌, ◌-◌, ◌<◌, ◌≡◌, refl, sym, ap, ◌∙◌, arith, ltb, leb, ◌||◌, if◌then◌else◌, Bool,
  true, false, Bool-cases, ◌⊎◌, inl, inr, Option, none, some, [], InRange, contains, ok, err,
  map_err,
}
use foc_devnet.Base.Results.{ok-injective, bind-ok, map_err-ok}
use mathlib.Core.Path.{subst}
use native.Mathlib.Decide.{ℕ_discrete}
use foc_devnet.Words.{Profile, add_u16, add_u16-ok, u16_mod}
use foc_devnet.Ports.{PortAllocator, outside_range, new, mark_allocated, insert_port}
use foc_devnet.Ports.Invariant.{IsValid, new-IsValid, mark_allocated_lem, mark_allocated-IsValid}
use foc_devnet.Steps.{
  port_error, port_in_use, StepExecutionConfig, is_portainer, check_ports, mark_portainer, prepare,
}

-- What marking leaves for the steps.
Marked : Option ℕ → PortAllocator → PortAllocator → Type 0
Marked o a b =
    IsValid b
    × (b.start ≡ a.start)
    × (b.count ≡ a.count)
    × ((q : ℕ) → InRange a.start a.count q → contains q b.allocated ≡ is_portainer o q)

module _ (is_port_available : ℕ → Bool) where
  -- All that a start relies on when its preparation succeeds.
  pub record Prepared (c : StepExecutionConfig) (a : PortAllocator) : Type 0 where
    pub valid : IsValid a
    pub same_start : a.start ≡ c.port_start
    pub same_count : a.count ≡ c.port_count
    pub all_available :
        (q : ℕ)
        → InRange c.port_start c.port_count q
        → (is_portainer c.portainer_port q ≡ true) ⊎ (is_port_available q ≡ true)
    pub portainer_taken :
        (q : ℕ)
        → InRange c.port_start c.port_count q
        → contains q a.allocated ≡ is_portainer c.portainer_port q

module _ (p : Profile) where
  marks :
      (port : ℕ) (a : PortAllocator)
      → IsValid a
      → ltb port a.start || leb (a.start + a.count) port ≡ false
      → mark_allocated p port a ≡ (ok tt, record a { allocated = insert_port port a.allocated })
  marks port a v inside = mark_allocated_lem p a v port ∙ rw inside refl

module _ {E : Type 0} (p : Profile) (is_port_available : ℕ → Bool) where
  check_ports-ok :
      (skipped : Option ℕ) (port n : ℕ)
      → check_ports {E = E} p is_port_available skipped port n ≡ ok tt
      → (q : ℕ) → InRange port n q
      → (is_portainer skipped q ≡ true) ⊎ (is_port_available q ≡ true)
  unfolding check_ports
  check_ports-ok skipped port zero h q l = absurd (omega arith)
  check_ports-ok skipped port (suc n) h q l = elim (ℕ_discrete q port) [
    | yes here ↦ elim (Bool-cases (is_portainer skipped port)) [
      | inl s ↦ inl (ap (is_portainer skipped) here ∙ s)
      | inr s ↦ elim (Bool-cases (is_port_available port)) [
        | inl free ↦ inr (ap is_port_available here ∙ free)
        | inr busy ↦ cc (
          subst
              (λ b.
                (if b
                  then check_ports {E = E} p is_port_available skipped (port + 1) n
                  else (if is_port_available port
                      then check_ports {E = E} p is_port_available skipped (port + 1) n
                      else err (port_in_use port)))
                ≡ ok tt)
              s h,
          busy,
        )
      ]
    ]
    | no later ↦ check_ports-ok skipped (port + 1) n (past h) q (omega arith)
  ]
    where
      past :
          check_ports {E = E} p is_port_available skipped port (suc n) ≡ ok tt
          → check_ports {E = E} p is_port_available skipped (port + 1) n ≡ ok tt
      past h = ground arith

  -- Over a valid allocator the port of Portainer is marked when it is of the range. Outside of it, `execute_steps` goes on
  -- with nothing marked, and `execute_steps_parallel` fails.
  pub mark_portainer_lem :
      (guarded : Bool) (port : ℕ) (a : PortAllocator)
      → IsValid a
      → mark_portainer {E = E} p is_port_available guarded (a.start + a.count) (some port) a ≡ (
          if ltb port a.start || leb (a.start + a.count) port
          then (if guarded
              then ok a
              else err (port_error (outside_range port a.start (a.start + a.count - 1))))
          else ok (record a { allocated = insert_port port a.allocated }))
  unfolding mark_portainer
  mark_portainer_lem guarded port a v = rw (mark_allocated_lem p a v port) (ground arith)

  refused :
      {A : Type 0} (port : ℕ) (a b : PortAllocator)
      → IsValid a
      → ltb port a.start || leb (a.start + a.count) port ≡ true
      → mark_portainer {E = E} p is_port_available false (a.start + a.count) (some port) a ≡ ok b
      → A
  refused port a b v out h = cc (mark_portainer_lem false port a v, out, h)

  marked :
      (guarded : Bool) (o : Option ℕ) (a b : PortAllocator)
      → IsValid a
      → a.allocated ≡ []
      → mark_portainer {E = E} p is_port_available guarded (a.start + a.count) o a ≡ ok b
      → Marked o a b
  unfolding mark_portainer contains Marked
  marked guarded none a b v fresh h =
      subst (Marked none a) (ok-injective h) (v, refl, refl, λ q l. ap (contains q) fresh)
  marked guarded (some port) a b v fresh h =
      elim (Bool-cases (ltb port a.start || leb (a.start + a.count) port)) [
        | inl out ↦ elim (Bool-cases guarded) [
          | inl g ↦
              subst (Marked (some port) a)
                (ok-injective (sym (mark_portainer_lem guarded port a v ∙ rw (out, g) refl) ∙ h))
                (v, refl, refl, λ q l. ap (contains q) fresh ∙ ground arith)
          | inr g ↦ refused port a b v out (
              subst
                (λ g.
                  mark_portainer {E = E} p is_port_available g (a.start + a.count) (some port) a
                  ≡ ok b)
                g h)
        ]
        | inr inside ↦
            subst (Marked (some port) a)
              (ok-injective (sym (mark_portainer_lem guarded port a v ∙ rw inside refl) ∙ h))
              (
                subst (λ r. IsValid r.1) (marks p port a v inside)
                    (mark_allocated-IsValid p a v port).0,
                refl,
                refl,
                λ q l. rw fresh (ground arith),
              )
      ]

  assemble :
      (guarded : Bool) (c : StepExecutionConfig) (a b : PortAllocator) (end : ℕ)
      → c.port_start + c.port_count < u16_mod
      → new c.port_start c.port_count ≡ ok a
      → end ≡ c.port_start + c.port_count
      → check_ports {E = E} p is_port_available c.portainer_port c.port_start (end - c.port_start)
        ≡ ok tt
      → mark_portainer {E = E} p is_port_available guarded end c.portainer_port a ≡ ok b
      → Prepared is_port_available c b
  unfolding Marked
  assemble guarded c a b end fits created ends checked h =
      let (v, start, count, fresh, next) = new-IsValid c.port_start c.port_count a created fits in
      let (v', start', count', taken) = marked guarded c.portainer_port a b v fresh (
        subst (λ e. mark_portainer {E = E} p is_port_available guarded e c.portainer_port a ≡ ok b)
          (ends ∙ omega arith) h) in
      record {
        valid = v';
        same_start = start' ∙ start;
        same_count = count' ∙ count;
        all_available = λ q l.
            check_ports-ok c.portainer_port c.port_start (end - c.port_start) checked q
              (omega arith, omega arith);
        portainer_taken = λ q l. taken q (omega arith, omega arith);
      }

  -- A start whose preparation succeeds, over a range whose end is a `u16`, has a valid allocator over
  -- the range of the configuration; every port of it was available, but for the port of Portainer,
  -- and that port alone is taken.
  pub prepare-Prepared :
      (guarded : Bool) (c : StepExecutionConfig) (b : PortAllocator)
      → prepare {E = E} p is_port_available guarded c ≡ ok b
      → c.port_start + c.port_count < u16_mod
      → Prepared is_port_available c b
  unfolding prepare Marked
  prepare-Prepared guarded c b h fits =
      let (a, created, h₁) = bind-ok (map_err port_error (new c.port_start c.port_count)) _ h in
      let (end, added, h₂) = bind-ok (add_u16 p c.port_start c.port_count) _ h₁ in
      let (_, checked, h₃) =
        bind-ok
          (check_ports {E = E} p is_port_available c.portainer_port c.port_start
            (end - c.port_start))
          _ h₂ in
      assemble guarded c a b end fits (map_err-ok port_error _ created)
        (ok-injective (sym added ∙ add_u16-ok p c.port_start c.port_count fits)) checked h₃
