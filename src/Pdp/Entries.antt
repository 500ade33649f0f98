-- ===== src/Pdp/Entries.antt =====
-- src/commands/start/pdp_service_provider: the entries of the context about one provider.
use foc_devnet.Base.{ℕ, ◌≤◌, ◌≡◌, sym, ap, ◌∙◌, leb, some, ◌++◌, Bool-cases, inl, inr, String}
use foc_devnet.Text.{Text, codes, to_string, show_bool, max_u64, text_eq, text_eq_iff}
use foc_devnet.Text.Keys.{Separated, indexed-injective}
use foc_devnet.Dict.{Dict, lookup, insert, lookup-insert_self, lookup-insert_ne}
use foc_devnet.Host.Frame.{Closed, lookup-Closed}
use foc_devnet.Pdp.Providers.{sp_key}

-- The state has a value under the key of this provider and suffix, and `R` holds of it.
abbrev pub Entry : (Text → Type 0) → ℕ → String → Dict → Type 0
Entry R i suffix m = (v : Text) × (lookup (sp_key i suffix) m ≡ some v) × R v

pub Entry-Closed : (R : Text → Type 0) (i : ℕ) (suffix : String) → Closed (Entry R i suffix)
Entry-Closed R i suffix = lookup-Closed R (to_string i ++ codes suffix)

-- A value that comes under a key of a provider has to be right if it is the same entry.
pub Entry-insert :
    (R : Text → Type 0) (i j : ℕ) (s t : String) (v : Text) (m : Dict)
    → Separated (codes s)
    → Separated (codes t)
    → (i ≡ j → codes s ≡ codes t → R v)
    → Entry R i s m
    → Entry R i s (insert (sp_key j t) v m)
Entry-insert R i j s t v m hs ht same (u, there, r) =
    elim (Bool-cases (text_eq (sp_key j t) (sp_key i s))) [
      | inl e ↦
          let equal = (text_eq_iff (sp_key j t) (sp_key i s)).0 e in
          let (ij, st) = indexed-injective "pdp_sp_" i j s t hs ht (sym equal) in
          (
            v,
            ap (λ k. lookup k (insert (sp_key j t) v m)) (sym equal) ∙ lookup-insert_self _ v m,
            same ij st,
          )
      | inr e ↦ (
        u,
        lookup-insert_ne (sp_key j t) (sp_key i s) v m
              (λ equal. cc (e, (text_eq_iff (sp_key j t) (sp_key i s)).1 equal))
            ∙ there,
        r,
      )
    ]

-- Whether the provider is to be approved, of the first `n`.
abbrev pub ApprovedIs : ℕ → ℕ → Dict → Type 0
ApprovedIs n i = Entry (λ v. v ≡ show_bool (leb i n)) i "_is_approved"

abbrev pub IsId : Text → Type 0
IsId v = (id : ℕ) × (id ≤ max_u64) × (v ≡ to_string id)

abbrev pub HasId : ℕ → Dict → Type 0
HasId i = Entry IsId i "_provider_id"

abbrev pub HasAddress : ℕ → Dict → Type 0
HasAddress i = Entry (λ v. Unit) i "_address"

-- What the context says of a registered provider, the first `n` of which are approved.
abbrev pub Ready : ℕ → ℕ → Dict → Type 0
Ready n i m = HasAddress i m × HasId i m × ApprovedIs n i m
