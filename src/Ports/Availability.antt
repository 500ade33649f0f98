-- ===== src/Ports/Availability.antt =====
-- src/port_allocator.rs, `verify_all_ports_available`: which ports of the range are in use. The socket
-- that `is_port_available` binds is a parameter.
use foc_devnet.Base.{
  ℕ, zero, suc, ◌+◌, ◌-◌, ◌<◌, ◌≡◌, ◌↔◌, refl, ap, ◌∙◌, arith, if◌then◌else◌, Bool, true, false,
  Bool-cases, inl, inr, List, [], ◌∷◌, InRange, contains, Outcome, ok, err,
}
use native.Mathlib.Decide.{ℕ_discrete}
use foc_devnet.Base.Exec.{gets, lift, ◌>>=◌}
use foc_devnet.Words.{Profile, add_u16, add_u16-ok}
use foc_devnet.Ports.{PortAllocator, PortExec, PortError, ports_in_use}
use foc_devnet.Ports.Invariant.{IsValid}

module _ (is_port_available : ℕ → Bool) where
  -- The ports in use among the `n` ports from `port` on.
  pub unavailable : ℕ → ℕ → List ℕ
  unavailable port zero = []
  unavailable port (suc n) =
      let rest = unavailable (port + 1) n in if is_port_available port then rest else port ∷ rest

  abbrev pub report : List ℕ → Outcome PortError (Unit {0})
  report [] = ok tt
  report (q ∷ ports) = err (ports_in_use (q ∷ ports))

  pub verify_all_ports_available : Profile → PortExec Unit
  unfolding unavailable
  verify_all_ports_available p = do
    start ← gets (λ a. a.start)
    count ← gets (λ a. a.count)
    end ← lift (add_u16 p start count)
    lift (report (unavailable start (end - start)))

  below : (q port n : ℕ) → q < port → contains q (unavailable port n) ≡ false
  unfolding unavailable contains
  below q port zero l = refl
  below q port (suc n) l = ground (arith, below q (port + 1) n)

  unavailable_lem :
      (port n q : ℕ)
      → InRange port n q
      → (contains q (unavailable port n) ≡ true) ↔ (is_port_available q ≡ false)
  unfolding unavailable contains
  unavailable_lem port zero q l = absurd (omega arith)
  unavailable_lem port (suc n) q l = elim (Bool-cases (is_port_available port)) [
    | inl free ↦ elim (ℕ_discrete q port) [
      | yes here ↦ rw free (
        (λ h. cc (below q (port + 1) n (omega arith), h)),
        λ h. cc (ap is_port_available here, free, h),
      )
      | no later ↦ rw free (unavailable_lem (port + 1) n q (omega arith, omega arith))
    ]
    | inr busy ↦ elim (ℕ_discrete q port) [
      | yes here ↦ rw busy ((λ h. ap is_port_available here ∙ busy), λ h. ground arith)
      | no later ↦
          let rest = unavailable_lem (port + 1) n q (omega arith, omega arith) in
          rw busy ((λ h. rest.0 (ground arith)), λ h. ground (arith, rest.1 h))
    ]
  ]

  none_unavailable :
      (port n : ℕ)
      → ((q : ℕ) → InRange port n q → is_port_available q ≡ true)
      → unavailable port n ≡ []
  unfolding unavailable
  none_unavailable port zero h = refl
  none_unavailable port (suc n) h =
      rw (h port (omega arith, omega arith))
        (none_unavailable (port + 1) n (λ q l. h q (omega arith, omega arith)))

  reports :
      (q : ℕ) (ports : List ℕ) → contains q ports ≡ true → report ports ≡ err (ports_in_use ports)
  unfolding contains
  reports q [] h = cc
  reports q (r ∷ ports) h = refl

  module _ (p : Profile) (a : PortAllocator) (v : IsValid a) where
    checked : verify_all_ports_available p a ≡ (report (unavailable a.start a.count), a)
    unfolding verify_all_ports_available
    checked =
        rw (add_u16-ok p a.start a.count v.fits)
          (ap (λ n. (report (unavailable a.start n), a)) (omega arith))

    -- In a valid allocator of whose range every port is available, the check succeeds and changes
    -- nothing.
    pub verify_all_ports_available-ok :
        ((q : ℕ) → InRange a.start a.count q → is_port_available q ≡ true)
        → verify_all_ports_available p a ≡ (ok tt, a)
    verify_all_ports_available-ok h =
        checked ∙ ap (λ ports. (report ports, a)) (none_unavailable a.start a.count h)

    -- If a port of the range of a valid allocator is not available, the check fails with a list of
    -- ports, and a port of the range is in that list exactly if it is not available.
    pub verify_all_ports_available-err :
        (q : ℕ)
        → InRange a.start a.count q
        → is_port_available q ≡ false
        → (ports : List ℕ) × (verify_all_ports_available p a ≡ (err (ports_in_use ports), a))
          × ((r : ℕ)
              → InRange a.start a.count r
              → (contains r ports ≡ true) ↔ (is_port_available r ≡ false))
    verify_all_ports_available-err q l busy = (
      unavailable a.start a.count,
      checked
          ∙ ap (λ r. (r, a))
              (reports q (unavailable a.start a.count)
                ((unavailable_lem a.start a.count q l).1 busy)),
      λ r k. unavailable_lem a.start a.count r k,
    )
