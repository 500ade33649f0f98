-- ===== src/Location.antt =====
-- src/config.rs, `Location`: where a component's code comes from, and how a location is read from
-- the command line. `git ls-remote` is a parameter.
mod Examples
pub mod Parse
use foc_devnet.Base.{
  ℕ, ◌≡◌, refl, arith, if◌then◌else◌, Bool, true, false, Option, none, some, List, [], ◌∷◌, ◌++◌,
  Outcome, ok, err, panic, ◌>>=◌, ◌>>◌,
}
use foc_devnet.Text.{Text, codes, text_eq}
use foc_devnet.Text.Split.{split_once, split_last, strip_prefix, second_word, first_line}

pub data Location : Type 0 where
  local_source : Text → Location
  git_commit : Text → Text → Location
  git_tag : Text → Text → Location
  git_branch : Text → Text → Location

pub data LocationError : Type 0 where
  ls_remote_failed : Text → LocationError
  no_tags : Text → Text → LocationError
  unexpected_output : Text → LocationError
  unexpected_tag_ref : Text → LocationError
  invalid_format : Text → LocationError
  unknown_type : Text → LocationError

abbrev pub ok_or {ℓ} : {A : Type ℓ} → Option A → LocationError → Outcome LocationError A
ok_or none e = err e
ok_or (some a) e = ok a

abbrev url_and_selector : Text → Text → Option (Text × Text) → Text × Text
url_and_selector default_url remaining none = (default_url, remaining)
url_and_selector default_url remaining (some (url, selector)) = (url, selector)

-- `ls_remote url selector` is what the command prints, or the error that ends it.
module _ (ls_remote : Text → Text → Outcome LocationError Text) where
  unfoldable pub resolve_latest_tag : Text → Text → Outcome LocationError Text
  resolve_latest_tag url selector = do
    stdout ← ls_remote url selector
    line ← ok_or (first_line stdout) (no_tags selector url)
    tag_ref ← ok_or (second_word line) (unexpected_output line)
    ok_or (strip_prefix (codes "refs/tags/") tag_ref) (unexpected_tag_ref tag_ref)

  -- The location behind its type: `latesttag` is resolved to a tag.
  canonicalize_parts : Text → Text × Text → Outcome LocationError (Text × Text × Text)
  canonicalize_parts location_type (url, selector) =
      if text_eq location_type (codes "latesttag")
      then (do tag ← resolve_latest_tag url selector; ok (codes "gittag", url, tag))
      else ok (location_type, url, selector)

  unfoldable pub canonicalize_location : Text → Text → Outcome LocationError (Text × Text × Text)
  unfolding canonicalize_parts
  canonicalize_location location default_url =
      if text_eq location (codes "latesttag")
      then (do
        tag ← resolve_latest_tag default_url (codes "*")
        ok (codes "gittag", default_url, tag))
      else do
        (location_type, remaining) ← ok_or (split_once b':' location) (invalid_format location)
        canonicalize_parts location_type
            (url_and_selector default_url remaining (split_last b':' remaining))

  unfoldable pub resolve_with_default : Text → Text → Outcome LocationError Location
  resolve_with_default location default_url = do
    (loc_type, url, selector) ← canonicalize_location location default_url
    if text_eq loc_type (codes "local")
        then ok (local_source selector)
        else if text_eq loc_type (codes "gittag")
        then ok (git_tag url selector)
        else if text_eq loc_type (codes "gitcommit")
        then ok (git_commit url selector)
        else if text_eq loc_type (codes "gitbranch")
        then ok (git_branch url selector)
        else err (unknown_type loc_type)
