-- ===== src/Containers/Names.antt =====
-- src/docker/containers.rs and src/commands/stop.rs: the names of one run beside each other.
use foc_devnet.Base.{◌≡◌, ◌≢◌, refl, Bool, true, false, ◌&&◌, not, List, [], ◌∷◌, ◌++◌, map, All}
use foc_devnet.Text.{Text, codes, to_string, text_eq, text_eq_iff}
use foc_devnet.Text.Keys.{append_cancel}
use foc_devnet.Containers.{
  builder_container_name, portainer_container_name, db_container_names, get_run_containers,
}

-- No two of the texts are equal.
abbrev pub Apart : List Text → Type 0
Apart [] = Unit
Apart (s ∷ texts) = All (λ t. s ≢ t) texts × Apart texts

differs : Text → List Text → Bool
differs s [] = true
differs s (t ∷ texts) = not (text_eq s t) && differs s texts

apart : List Text → Bool
unfolding differs
apart [] = true
apart (s ∷ texts) = differs s texts && apart texts

-- What is written behind the run ID.
abbrev suffixes : List Text
suffixes =
    codes "-portainer"
    ∷ codes "-builder"
    ∷ codes "-curio-1"
    ∷ codes "-curio-2"
    ∷ codes "-curio-3"
    ∷ codes "-curio-4"
    ∷ codes "-curio-5"
    ∷ codes "-postgres-1"
    ∷ codes "-scylla-1"
    ∷ codes "-postgres-2"
    ∷ codes "-scylla-2"
    ∷ codes "-postgres-3"
    ∷ codes "-scylla-3"
    ∷ codes "-postgres-4"
    ∷ codes "-scylla-4"
    ∷ codes "-postgres-5"
    ∷ codes "-scylla-5"
    ∷ codes "-lotus-miner"
    ∷ codes "-lotus"
    ∷ []

abbrev named : Text → List Text → List Text
named run_id = map (λ s. codes "foc-" ++ (run_id ++ s))

and_parts : (b c : Bool) → b && c ≡ true → (b ≡ true) × (c ≡ true)
and_parts true c h = (refl, h)
and_parts false c h = cc

differs-All :
    (run_id s : Text) (texts : List Text)
    → differs s texts ≡ true
    → All (λ t. codes "foc-" ++ (run_id ++ s) ≢ t) (named run_id texts)
unfolding differs
differs-All run_id s [] h = tt
differs-All run_id s (t ∷ texts) h = (
  λ e. cc (
    (text_eq_iff s t).1 (append_cancel run_id s t (append_cancel (codes "foc-") _ _ e)),
    (and_parts (not (text_eq s t)) (differs s texts) h).0,
  ),
  differs-All run_id s texts (and_parts (not (text_eq s t)) (differs s texts) h).1,
)

apart-Apart : (run_id : Text) (texts : List Text) → apart texts ≡ true → Apart (named run_id texts)
unfolding apart
apart-Apart run_id [] h = tt
apart-Apart run_id (s ∷ texts) h = (
  differs-All run_id s texts (and_parts (differs s texts) (apart texts) h).0,
  apart-Apart run_id texts (and_parts (differs s texts) (apart texts) h).1,
)

-- Of every run ID, the containers that a stop removes by name, Portainer's and the builder's have
-- names that all differ: no container is named twice, and a stop does not name Portainer's.
pub get_run_containers-Apart :
    (run_id : Text)
    → Apart (
        portainer_container_name run_id
        ∷ builder_container_name run_id
        ∷ map (λ c. c.0) (get_run_containers run_id))
unfolding get_run_containers db_container_names to_string apart text_eq
get_run_containers-Apart run_id = apart-Apart run_id suffixes refl
