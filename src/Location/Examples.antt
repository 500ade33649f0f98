-- ===== src/Location/Examples.antt =====
-- Locations as they stand on the command line.
use foc_devnet.Base.{◌≡◌, ◌≢◌, refl, arith, [], ◌∷◌, ◌++◌, Outcome, ok}
use foc_devnet.Text.{Text, codes}
use foc_devnet.Text.Split.{Lacks, Word, is_whitespace}
use foc_devnet.Location.{Location, LocationError, local_source, git_tag, resolve_with_default}
use foc_devnet.Location.Parse.{resolve_with_default-written, resolve_with_default-local_colon}

abbrev url : Text
url = codes "https://github.com/filecoin-project/lotus.git"

abbrev v1 : Text
v1 = codes "v1"

abbrev lotus_v1 : Location
lotus_v1 = git_tag url v1

-- The remote has one tag.
abbrev one_tag : Text → Text → Outcome LocationError Text
one_tag u selector = ok (codes "ab" ++ b'\t' ∷ (codes "refs/tags/" ++ v1) ++ b'\n' ∷ [])

v1-Lacks : Lacks b':' v1
v1-Lacks = (λ e. omega arith, (λ e. omega arith, tt))

v_star-Lacks : Lacks b':' (codes "v*")
v_star-Lacks = (λ e. omega arith, (λ e. omega arith, tt))

resolve_with_default-written_example :
    (resolve_with_default one_tag
        (codes "gittag:https://github.com/filecoin-project/lotus.git:v1")
        (codes "d")
      ≡ ok lotus_v1)
    × (resolve_with_default one_tag (codes "gittag:v1") (codes "d") ≡ ok (git_tag (codes "d") v1))
resolve_with_default-written_example =
    resolve_with_default-written one_tag lotus_v1 (codes "d") v1-Lacks

resolve_with_default-local_colon_example :
    (resolve_with_default one_tag (codes "local:/a:v1") (codes "d") ≡ ok (local_source v1))
    × (codes "/a:v1" ≢ v1)
resolve_with_default-local_colon_example =
    resolve_with_default-local_colon one_tag (codes "/a") v1 (codes "d") v1-Lacks

ab-Word : Word (codes "ab")
unfolding is_whitespace
ab-Word = (refl, (refl, tt))

v1-Word : Word v1
unfolding is_whitespace
v1-Word = (refl, (refl, tt))
