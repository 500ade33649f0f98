-- ===== src/Host/Frame.antt =====
-- The commands of the steps leave the values of the context about the providers: each is kept under a
-- key of its own.
use mathlib.Core.Path.{subst}
use foc_devnet.Base.{◌≡◌, ◌≢◌, refl, sym, ap, ◌∙◌, none, some, List, ◌++◌}
use foc_devnet.Text.{Text, codes}
use foc_devnet.Text.Split.{strip_prefix, strip_prefix-append}
use foc_devnet.Dict.{Dict, lookup, insert, lookup-insert_ne}
use foc_devnet.Program.{Program, ret, act, locked, Keeps, Keeps-bind}
use foc_devnet.Program.Caught.{Keeps-if}
use foc_devnet.Context.{
  World, save, put, set, save_command, record_command, history_key, save_to_file,
}
use foc_devnet.Context.Laws.{save-context}
use foc_devnet.Shell.{Failure}
use foc_devnet.Shell.Log.{on_outside, run_and_log_command_strings}
use foc_devnet.Host.{Host}
use foc_devnet.Host.Chain.{in_builder, builder_args}

-- A key that does not begin as those of a provider
abbrev pub Other : Text → Type 0
Other k = strip_prefix (codes "pdp_sp_") k ≡ none

-- What holds of a state still holds when a value comes under another key.
abbrev pub Closed : (Dict → Type 0) → Type 0
Closed Q = (k c : Text) (m : Dict) → Other k → Q m → Q (insert k c m)

pub Other-ne : (k s : Text) → Other k → k ≢ codes "pdp_sp_" ++ s
Other-ne k s other e =
    cc (sym other, ap (strip_prefix (codes "pdp_sp_")) e, strip_prefix-append (codes "pdp_sp_") s)

-- What is said of the value under a key of a provider is closed.
pub lookup-Closed :
    (R : Text → Type 0) (s : Text)
    → Closed (λ m. (v : Text) × (lookup (codes "pdp_sp_" ++ s) m ≡ some v) × R v)
lookup-Closed R s k c m other (v, there, r) =
    (v, lookup-insert_ne k (codes "pdp_sp_" ++ s) c m (Other-ne k s other) ∙ there, r)

module _ {X : Type 0} (Q : Dict → Type 0) where
  -- `Q` of the state of the context
  abbrev pub Of : World X → Type 0
  Of w = Q w.state

  Of-save : (w : World X) → Of w → Of (save w).1
  Of-save w h = subst Q (sym (ap (λ c. c.state) (save-context w))) h

  pub on_outside-Keeps : {A : Type 0} (m : Program X Failure A) → Keeps Of (on_outside m)
  unfolding on_outside
  on_outside-Keeps (ret r) = tt
  on_outside-Keeps (act u k) = λ w h. (h, on_outside-Keeps (k w.outside))

module _ (X : Type 0) (Q : Dict → Type 0) where
  pub set-Keeps :
      (k v : Text)
      → ((m : Dict) → Q m → Q (insert k v m))
      → Keeps (Of Q) (set {X = X} {E = Failure} k v)
  unfolding set put save_to_file
  set-Keeps k v c = λ w h. (c w.state h, λ w h. (Of-save Q w h, tt))

module _ {X : Type 0} (host : Host X) (Q : Dict → Type 0) (closed : Closed Q) where
  save_command-Keeps :
      (k c : Text) → Other k → Keeps (Of Q) (save_command {X = X} {E = Failure} k c)
  unfolding save_command put record_command save_to_file strip_prefix
  save_command-Keeps k c other =
      λ w h. (closed history_key _ _ refl (closed k c w.state other h), λ w h. (Of-save Q w h, tt))

  pub in_builder-Keeps :
      (container_name : Text) (command : List Text) (key : Text) (failed : Text → Failure)
      → Other key
      → Keeps (Of Q) (in_builder host container_name command key failed)
  unfolding in_builder run_and_log_command_strings
  in_builder-Keeps container_name command key failed other =
      Keeps-bind (Of Q)
        (run_and_log_command_strings host.launch (codes "docker")
          (builder_args container_name command) key)
        _
        (Keeps-bind (Of Q) (save_command key _) _ (save_command-Keeps key _ other) (λ u.
          on_outside-Keeps Q
            (locked (host.launch (codes "docker") (builder_args container_name command)))))
        (λ output. Keeps-if (Of Q) output.success _ _ tt tt)
