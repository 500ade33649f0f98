-- ===== src/Pdp/Loop.antt =====
-- src/commands/start/pdp_service_provider/pdp_service_provider_step.rs: what the loop over the
-- providers has done when it has met no error.
use foc_devnet.Base.{ℕ, List, [], ◌∷◌, All, Outcome, ok, err, panic}
use foc_devnet.Text.{show_bool}
use foc_devnet.Dict.{Dict, insert}
use foc_devnet.Program.{Keeps, Keeps-bind}
use foc_devnet.Program.Caught.{Keeps-if, Keeps-catch}
use foc_devnet.Context.{set}
use foc_devnet.Shell.{Failure}
use foc_devnet.Host.{Host}
use foc_devnet.Host.Frame.{Closed, Of, set-Keeps}
use foc_devnet.Pdp.Registration.{register_single_provider, add_to_approved_list}
use foc_devnet.Pdp.Providers.{
  Addresses, SpData, Registered, register, approve, register_one, register_all, sp_key,
  after_approval, after_registration,
}
use foc_devnet.Pdp.Laws.{register_single_provider-Keeps, add_to_approved_list-Keeps}

module _ {X : Type 0} (host : Host X) (a : Addresses) (Q : Dict → Type 0) (closed : Closed Q) where
  abbrev pub Stable : SpData → Type 0
  Stable d =
      (m : Dict)
      → Q m
      → Q (insert (sp_key d.sp_index "_is_approved") (show_bool d.should_approve) m)

  pub approve-Keeps : (d : SpData) (id : ℕ) → Keeps (Of Q) (approve host a d id)
  unfolding approve
  approve-Keeps d id =
      Keeps-if (Of Q) d.should_approve _ _
        (Keeps-catch Failure (Of Q) (add_to_approved_list host _)
          (add_to_approved_list-Keeps host Q closed _))
        tt

  register-Keeps : (d : SpData) → Keeps (Of Q) (register host a d)
  unfolding register
  register-Keeps d =
      Keeps-catch Failure (Of Q) (register_single_provider host _)
        (register_single_provider-Keeps host Q closed _)

  after_approval-Keeps :
      (d : SpData) (id : ℕ) (done : Registered) (r : Outcome Failure (Unit {0}))
      → Keeps (Of Q) (after_approval host d id done r)
  after_approval-Keeps d id done (ok u) = tt
  after_approval-Keeps d id done (err e) = tt
  after_approval-Keeps d id done panic = tt

  after_registration-Keeps :
      (d : SpData) (done : Registered) (r : Outcome Failure ℕ)
      → Stable d
      → Keeps (Of Q) (after_registration host a d done r)
  after_registration-Keeps d done (ok id) stable =
      Keeps-bind (Of Q) (set (sp_key d.sp_index "_is_approved") (show_bool d.should_approve)) _
        (set-Keeps X Q _ _ stable)
        λ u.
          Keeps-bind (Of Q) (approve host a d id) _ (approve-Keeps d id)
            (after_approval-Keeps d id done)
  after_registration-Keeps d done (err e) stable = tt
  after_registration-Keeps d done panic stable = tt

  register_one-Keeps :
      (d : SpData) (done : Registered) → Stable d → Keeps (Of Q) (register_one host a d done)
  unfolding register_one
  register_one-Keeps d done stable =
      Keeps-bind (Of Q) (register host a d) _ (register-Keeps d)
        λ r. after_registration-Keeps d done r stable

  pub register_all-Keeps :
      (ds : List SpData) (done : Registered)
      → All Stable ds
      → Keeps (Of Q) (register_all host a ds done)
  unfolding register_all
  register_all-Keeps [] done stable = tt
  register_all-Keeps (d ∷ ds) done stable =
      Keeps-bind (Of Q) (register_one host a d done) _ (register_one-Keeps d done stable.0)
        λ more. register_all-Keeps ds more stable.1
