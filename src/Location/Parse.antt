-- ===== src/Location/Parse.antt =====
-- src/config.rs, `Location`: how the written forms are read, and which texts are refused.
use foc_devnet.Base.{
  ℕ, ◌≡◌, ◌≢◌, refl, ap, arith, ◌||◌, length, length-append, All-append, Bool, true, false, [], ◌∷◌,
  ◌++◌, Outcome, ok, err,
}
use foc_devnet.Text.{Text, codes, text_eq}
use foc_devnet.Text.Split.{
  Lacks, Word, Word-Lacks, is_whitespace, first_line-append, second_word-tab, split_once,
  split_once-append, split_once-none, split_last-none, split_last-append, strip_prefix-append,
}
use foc_devnet.Location.{
  Location, local_source, git_commit, git_tag, git_branch, LocationError, invalid_format,
  unknown_type, canonicalize_location, resolve_with_default, resolve_latest_tag,
}

-- The form `type:url:value`, and `local:dir`.
abbrev pub written : Location → Text
written (local_source dir) = codes "local" ++ b':' ∷ dir
written (git_commit url commit) = codes "gitcommit" ++ b':' ∷ (url ++ b':' ∷ commit)
written (git_tag url tag) = codes "gittag" ++ b':' ∷ (url ++ b':' ∷ tag)
written (git_branch url branch) = codes "gitbranch" ++ b':' ∷ (url ++ b':' ∷ branch)

-- The form `type:value`, which leaves the URL to the default.
abbrev pub written_short : Location → Text
written_short (local_source dir) = codes "local" ++ b':' ∷ dir
written_short (git_commit url commit) = codes "gitcommit" ++ b':' ∷ commit
written_short (git_tag url tag) = codes "gittag" ++ b':' ∷ tag
written_short (git_branch url branch) = codes "gitbranch" ++ b':' ∷ branch

abbrev pub with_url : Text → Location → Location
with_url url (local_source dir) = local_source dir
with_url url (git_commit _ commit) = git_commit url commit
with_url url (git_tag _ tag) = git_tag url tag
with_url url (git_branch _ branch) = git_branch url branch

-- The directory, commit, tag or branch.
abbrev pub value : Location → Text
value (local_source dir) = dir
value (git_commit url commit) = commit
value (git_tag url tag) = tag
value (git_branch url branch) = branch

longer : (front back : Text) → front ++ b':' ∷ back ≢ back
longer front back e = omega (arith, ap length e, length-append {0} front (b':' ∷ back))

module _ (ls_remote : Text → Text → Outcome LocationError Text) where
  long_form :
      (l : Location) (default_url : Text)
      → Lacks b':' (value l)
      → resolve_with_default ls_remote (written l) default_url ≡ ok l
  unfolding resolve_with_default canonicalize_location split_once text_eq
  long_form (local_source dir) d h = rw (split_last-none b':' dir h)
  long_form (git_commit url v) d h = rw (split_last-append b':' url v h)
  long_form (git_tag url v) d h = rw (split_last-append b':' url v h)
  long_form (git_branch url v) d h = rw (split_last-append b':' url v h)

  short_form :
      (l : Location) (default_url : Text)
      → Lacks b':' (value l)
      → resolve_with_default ls_remote (written_short l) default_url ≡ ok (with_url default_url l)
  unfolding resolve_with_default canonicalize_location split_once text_eq
  short_form (local_source v) d h = rw (split_last-none b':' v h)
  short_form (git_commit url v) d h = rw (split_last-none b':' v h)
  short_form (git_tag url v) d h = rw (split_last-none b':' v h)
  short_form (git_branch url v) d h = rw (split_last-none b':' v h)

  -- Whatever `git ls-remote` does, a location in its written form is read back, and one in the short
  -- form is read with the default URL, provided that its value (the directory, commit, tag or
  -- branch) has no colon. The URL may have colons.
  pub resolve_with_default-written :
      (l : Location) (default_url : Text)
      → Lacks b':' (value l)
      → (resolve_with_default ls_remote (written l) default_url ≡ ok l)
        × (resolve_with_default ls_remote (written_short l) default_url
            ≡ ok (with_url default_url l))
  resolve_with_default-written l d h = (long_form l d h, short_form l d h)

  -- Of a local directory with a colon in its path only what stands behind the last colon is kept:
  -- another directory.
  pub resolve_with_default-local_colon :
      (front back default_url : Text)
      → Lacks b':' back
      → (resolve_with_default ls_remote (written (local_source (front ++ b':' ∷ back))) default_url
          ≡ ok (local_source back))
        × (front ++ b':' ∷ back ≢ back)
  unfolding resolve_with_default canonicalize_location split_once text_eq
  resolve_with_default-local_colon front back d h =
      (rw (split_last-append b':' front back h), longer front back)

  -- A text with no colon other than `latesttag` is refused for its format.
  resolve_with_default-no_colon :
      (s default_url : Text)
      → Lacks b':' s
      → text_eq s (codes "latesttag") ≡ false
      → resolve_with_default ls_remote s default_url ≡ err (invalid_format s)
  unfolding resolve_with_default canonicalize_location
  resolve_with_default-no_colon s d h other = rw (other, split_once-none b':' s h)

-- The types that a location may begin with.
abbrev pub is_known_type : Text → Bool
is_known_type t =
    text_eq t (codes "latesttag")
    || text_eq t (codes "local")
    || text_eq t (codes "gittag")
    || text_eq t (codes "gitcommit")
    || text_eq t (codes "gitbranch")

not_with_colon : (a b s : Text) → Lacks b':' s → text_eq (a ++ b':' ∷ b) s ≡ false
unfolding text_eq
not_with_colon [] b [] h = refl
not_with_colon [] b (c ∷ s) h = ground arith
not_with_colon (d ∷ a) b [] h = refl
not_with_colon (d ∷ a) b (c ∷ s) h = ground (arith, not_with_colon a b s h.1)

latesttag-Lacks : Lacks b':' (codes "latesttag")
latesttag-Lacks = omega arith

tags-Word : (tag : Text) → Word tag → Word (codes "refs/tags/" ++ tag)
unfolding is_whitespace
tags-Word tag h = All-append _ (codes "refs/tags/") tag tags h
  where
    tags : Word (codes "refs/tags/")
    tags = ground arith

line-Lacks :
    (sep : ℕ) (hash rest : Text)
    → is_whitespace sep ≡ true
    → b'\t' ≢ sep
    → Word hash
    → Word rest
    → Lacks sep (hash ++ b'\t' ∷ rest)
line-Lacks sep hash rest sp tab hv hr =
    All-append _ hash (b'\t' ∷ rest) (Word-Lacks sep hash sp hv) (tab, Word-Lacks sep rest sp hr)

module _ (ls_remote : Text → Text → Outcome LocationError Text) where
  -- A text whose part before the first colon is none of the five known types is refused for its type.
  pub resolve_with_default-unknown_type :
      (t rest default_url : Text)
      → Lacks b':' t
      → is_known_type t ≡ false
      → resolve_with_default ls_remote (t ++ b':' ∷ rest) default_url ≡ err (unknown_type t)
  unfolding resolve_with_default canonicalize_location
  resolve_with_default-unknown_type t rest d h other =
      rw
        (not_with_colon t rest (codes "latesttag") latesttag-Lacks, split_once-append b':' t rest h)
        (ground arith)

  latest_lem :
      (url selector tag more : Text) (v : ℕ) (vs : Text)
      → Word (v ∷ vs)
      → Word tag
      → ls_remote url selector
        ≡ ok ((v ∷ vs) ++ b'\t' ∷ (codes "refs/tags/" ++ tag) ++ b'\n' ∷ more)
      → resolve_latest_tag ls_remote url selector ≡ ok tag
  unfolding resolve_latest_tag is_whitespace
  latest_lem url selector tag more v vs hv ht e = rw (
    e,
    first_line-append v (vs ++ b'\t' ∷ (codes "refs/tags/" ++ tag)) more
        (line-Lacks b'\n' (v ∷ vs) (codes "refs/tags/" ++ tag) newline (omega arith) hv
          (tags-Word tag ht))
        (line-Lacks b'\r' (v ∷ vs) (codes "refs/tags/" ++ tag) return (omega arith) hv
          (tags-Word tag ht)),
    second_word-tab v vs b'r' (codes "efs/tags/" ++ tag) hv (tags-Word tag ht),
    strip_prefix-append (codes "refs/tags/") tag,
  )
    where
      newline : is_whitespace b'\n' ≡ true
      newline = refl

      return : is_whitespace b'\r' ≡ true
      return = refl

  -- If `git ls-remote` prints a hash, a tab, `refs/tags/` and a tag on its first line, where hash and
  -- tag have no white space and the hash is not empty, then `latesttag:url:selector`, with no colon in
  -- the selector, is that tag of that URL.
  resolve_with_default-latesttag :
      (url selector tag more default_url : Text) (v : ℕ) (vs : Text)
      → Lacks b':' selector
      → Word (v ∷ vs)
      → Word tag
      → ls_remote url selector
        ≡ ok ((v ∷ vs) ++ b'\t' ∷ (codes "refs/tags/" ++ tag) ++ b'\n' ∷ more)
      → resolve_with_default ls_remote
          (codes "latesttag" ++ b':' ∷ (url ++ b':' ∷ selector))
          default_url
        ≡ ok (git_tag url tag)
  unfolding resolve_with_default canonicalize_location split_once text_eq
  resolve_with_default-latesttag url selector tag more d v vs hs hv ht e =
      rw (split_last-append b':' url selector hs, latest_lem url selector tag more v vs hv ht e)
