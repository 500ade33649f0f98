-- ===== src/Dict.antt =====
-- `HashMap<String, String>` as an association list with each key once, and its laws.
use foc_devnet.Base.{◌≡◌, ◌≢◌, refl, arith, if◌then◌else◌, Bool, Option, none, some, List, [], ◌∷◌}
use foc_devnet.Text.{Text, text_eq, text_eq_iff, text_eq_refl}

abbrev pub Dict : Type 0
Dict = List (Text × Text)

unfoldable pub lookup : Text → Dict → Option Text
lookup k [] = none
lookup k ((j, v) ∷ m) = if text_eq j k then some v else lookup k m

unfoldable pub insert : Text → Text → Dict → Dict
insert k v [] = (k, v) ∷ []
insert k v ((j, w) ∷ m) = if text_eq j k then (k, v) ∷ m else (j, w) ∷ insert k v m

-- `for (key, value) in items { state.insert(key, value); }`
unfoldable pub insert_all : List (Text × Text) → Dict → Dict
insert_all [] m = m
insert_all ((k, v) ∷ items) m = insert_all items (insert k v m)

unfoldable pub keys : Dict → List Text
keys [] = []
keys ((k, v) ∷ m) = k ∷ keys m

unfoldable pub filter_keys : (Text → Bool) → List Text → List Text
filter_keys test [] = []
filter_keys test (k ∷ ks) = if test k then k ∷ filter_keys test ks else filter_keys test ks

pub lookup-insert :
    (k j v : Text) (m : Dict)
    → lookup j (insert k v m) ≡ (if text_eq k j then some v else lookup j m)
unfolding lookup insert
lookup-insert k j v [] = refl
lookup-insert k j v ((i, w) ∷ m) =
    ground (arith, text_eq_iff k j, text_eq_iff i k, text_eq_iff i j, lookup-insert k j v m)

pub lookup-insert_self : (k v : Text) (m : Dict) → lookup k (insert k v m) ≡ some v
lookup-insert_self k v m = rw (lookup-insert, text_eq_refl)

pub lookup-insert_ne : (k j v : Text) (m : Dict) → k ≢ j → lookup j (insert k v m) ≡ lookup j m
lookup-insert_ne k j v m h = rw lookup-insert (ground (arith, text_eq_iff k j))
