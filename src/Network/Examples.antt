-- ===== src/Network/Examples.antt =====
-- A Docker that keeps a list of the names of its networks, and runs of the calls on it.
use foc_devnet.Base.{
  ◌≡◌, ◌∙◌, refl, sym, ap, arith, if◌then◌else◌, ◌↔◌, true, false, List, [], ◌∷◌, ◌++◌, ok, err,
}
use foc_devnet.Base.Results.{ok-injective}
use foc_devnet.Text.{Text, codes, text_eq, to_string, is_digit}
use foc_devnet.Text.Search.{trim, trim_end, contains_text, starts_with}
use foc_devnet.Program.{run}
use foc_devnet.Program.Loops.{for_each}
use foc_devnet.Shell.{Launch, not_launched, docker_command, run_command}
use foc_devnet.Network.{
  network_exists, create_network, delete_network, create_all_networks, delete_all_networks,
  is_foc_devnet_network,
}
use foc_devnet.Network.Laws.{Networks}
use foc_devnet.Shell.Simulated.{
  shown, without, printing, exists, shown-printed, exists-without, exists-with,
}
use foc_devnet.Network.Cleanup.{one_of, run_networks, delete_all_networks-create_all_networks}
use foc_devnet.Network.Pattern.{is_foc_devnet_network_iff, RunAndSuffix}

abbrev listing_docker : Launch (List Text)
listing_docker program (net ∷ rm ∷ name ∷ []) x = (ok (printing name), without name x)
listing_docker program (net ∷ create ∷ driver ∷ bridge ∷ name ∷ []) x =
    (ok (printing name), name ∷ x)
listing_docker program (net ∷ ls ∷ flag ∷ filter ∷ format ∷ names ∷ []) x =
    (ok (printing (shown filter x)), x)
listing_docker program args x = (err (not_launched program), x)

listing_docker-Networks : Networks listing_docker exists
listing_docker-Networks = record {
  ls_prints = λ n o x y (h, s).
      sym (ap (λ o. o.stdout) (ok-injective (ap (λ r. r.0) h))) ∙ shown-printed n x;
  ls_keeps = λ n m o x y (h, s). ap (λ r. exists m r.1) (sym h);
  create_adds = λ n m o x y (h, s). ap (λ r. exists m r.1) (sym h) ∙ exists-with n m x;
  rm_removes = λ n m o x y (h, s). ap (λ r. exists m r.1) (sym h) ∙ exists-without n m x;
}

abbrev bridge : Text
bridge = codes "bridge"

abbrev before : List Text
before = bridge ∷ []

delete_all_networks-create_all_networks_example :
    exists bridge before
    ≡ (if one_of bridge (run_networks (codes "r") 5) then false else exists bridge before)
unfolding run create_all_networks delete_all_networks for_each create_network delete_network
    network_exists docker_command run_command text_eq trim trim_end contains_text starts_with
    to_string
delete_all_networks-create_all_networks_example =
    delete_all_networks-create_all_networks listing_docker listing_docker-Networks (codes "r") 1
      before (run (create_all_networks listing_docker (codes "r") 1) before).1 before (omega arith)
      refl refl bridge

abbrev compose_network : Text
compose_network = codes "foc_observer_default"

is_foc_devnet_network_iff_example :
    (is_foc_devnet_network is_digit compose_network ≡ true)
    ↔ ((rest : Text) × (compose_network ≡ codes "foc_" ++ rest) × RunAndSuffix is_digit rest)
is_foc_devnet_network_iff_example = is_foc_devnet_network_iff is_digit compose_network
