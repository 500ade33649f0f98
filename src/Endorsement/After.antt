-- ===== src/Endorsement/After.antt =====
-- src/commands/start/endorsement/endorsement_step.rs behind
-- src/commands/start/pdp_service_provider/pdp_service_provider_step.rs: what the endorsement asks of
-- the context is what the registration has left there.
use foc_devnet.Base.{
  ℕ, zero, suc, ◌+◌, ◌≤◌, ◌≡◌, refl, ap, ◌∙◌, arith, true, leb, some, [], ◌∷◌, All, ok,
  if◌then◌else◌,
}
use foc_devnet.Text.{Text, to_string, show_bool, parse_bool, text_eq, max_u64}
use foc_devnet.Text.Decimal.{parse_uint-to_string}
use foc_devnet.Dict.{lookup}
use foc_devnet.Program.{run, ret, pure, raise}
use foc_devnet.Program.Loops.{range, for_each, bind-run}
use foc_devnet.Context.{World, get}
use foc_devnet.Shell.{Failure, message, not_a_number}
use foc_devnet.Host.Files.{ok_or}
use foc_devnet.Host.{Host}
use foc_devnet.Host.Chain.{require, number}
use foc_devnet.Pdp.Providers.{sp_key}
use foc_devnet.Pdp.Executed.{execute-Ready}
use foc_devnet.Pdp.Matching.{All-range}
use foc_devnet.Pdp.Step
use foc_devnet.Pdp.Entries.{Ready}
use foc_devnet.Endorsement.Step.{check_sp, provider_id_of, true_or_not}

number-shown : (id : ℕ) (t : Text) → id ≤ max_u64 → t ≡ to_string id → number max_u64 t ≡ ok id
number-shown id t small shown =
    rw shown (ap (ok_or (not_a_number (to_string id))) (parse_uint-to_string id max_u64 small))

approved-true :
    (n i : ℕ) (b : Text) → leb i n ≡ true → b ≡ show_bool (leb i n) → true_or_not (some b) ≡ true
unfolding parse_bool show_bool text_eq
approved-true n i b le e = ap (λ b. true_or_not (some b)) (e ∙ ap show_bool le)

module _ {X : Type 0} where
  require-there :
      (key s : Text) (e : Failure) (w : World X)
      → lookup key w.state ≡ some s
      → run (require key e) w ≡ (ok s, w)
  unfolding require get run
  require-there key s e w h = ap (λ o. run (ret (ok_or e o)) w) h

  pub provider_id_of-there :
      (i id : ℕ) (t : Text) (w : World X)
      → lookup (sp_key i "_provider_id") w.state ≡ some t
      → id ≤ max_u64
      → t ≡ to_string id
      → run (provider_id_of i) w ≡ (ok id, w)
  unfolding provider_id_of run
  provider_id_of-there i id t w there small shown =
      bind-run (require (sp_key i "_provider_id") _) _ t w w
        (require-there (sp_key i "_provider_id") t _ w there)
      ∙ ap (λ r. run (ret r) w) (number-shown id t small shown)

  pub check_sp-Ready :
      (n i : ℕ) (w : World X) → leb i n ≡ true → Ready n i w.state → run (check_sp i) w ≡ (ok tt, w)
  unfolding check_sp get run
  check_sp-Ready n i w le
        ((s, there, u), (t, id_there, (id, small, shown)), (b, b_there, approved)) =
      bind-run (require (sp_key i "_address") _) _ s w w
        (require-there (sp_key i "_address") s _ w there)
      ∙ bind-run (provider_id_of i) _ id w w (provider_id_of-there i id t w id_there small shown)
      ∙ ap
          (λ c.
            run
              (if c
                then pure tt
                else raise (
                    message "PDP SP {} must be approved before it can be endorsed"
                      (to_string i ∷ [])))
              w)
          (ap true_or_not b_there ∙ approved-true n i b le approved)

module _ {X : Type 0} where
  pub checks-Ready :
      (n first count : ℕ) (w : World X)
      → first + count ≤ n + 1
      → All (λ i. Ready n i w.state) (range first count)
      → run (for_each (range first count) check_sp) w ≡ (ok tt, w)
  unfolding for_each run
  checks-Ready n first zero w le ready = refl
  checks-Ready n first (suc count) w le ready =
      bind-run (check_sp first) _ tt w w (check_sp-Ready n first w (ground arith) ready.0)
      ∙ checks-Ready n (first + 1) count w (omega arith) ready.1

module _ {X : Type 0} (host : Host X) where
  -- If the registration of `active` providers, the first `n` of them approved, has succeeded, then at
  -- once behind it the checks of the endorsement of at most `n` and at most `active` providers all
  -- succeed and change nothing: address, ID and approval of each are in the context.
  pub check_sp-execute :
      (active n endorsed : ℕ) (w v : World X)
      → endorsed ≤ n
      → endorsed ≤ active
      → run (Step.execute host active n) w ≡ (ok tt, v)
      → run (for_each (range 1 endorsed) check_sp) v ≡ (ok tt, v)
  check_sp-execute active n endorsed w v few there h = checks-Ready n 1 endorsed v (omega arith) (
      All-range (λ i. Ready n i v.state) 1 endorsed active there
        (execute-Ready host active n w v h))
