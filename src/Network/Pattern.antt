-- ===== src/Network/Pattern.antt =====
-- src/docker/network.rs: the pattern of the names of networks, read as what it takes apart.
use foc_devnet.Base.{
  ℕ, ◌≡◌, ◌≢◌, ◌↔◌, refl, sym, ap, ◌∙◌, arith, ◌==◌, ◌&&◌, ◌||◌, not, Bool, true, false, [], ◌∷◌,
  ◌++◌, All, ◌⊎◌, inl, inr, Bool-cases, ==_iff,
}
use foc_devnet.Text.{Text, codes, text_eq, text_eq→eq, text_eq_refl}
use foc_devnet.Text.Split.{strip_prefix}
use foc_devnet.Network.{
  all_decimal, some_decimal, matches_behind, suffix_later, is_known_suffix, is_foc_devnet_network,
}

abbrev OnOneLine : Text → Type 0
OnOneLine = All (λ c. c ≢ b'\n')

matches→behind :
    (p : Text) (f : Text → Bool) (s : Text)
    → matches_behind p f s ≡ true
    → (rest : Text) × (s ≡ p ++ rest) × (f rest ≡ true)
unfolding strip_prefix
matches→behind [] f s h = (s, refl, h)
matches→behind (c ∷ p) f [] h = cc
matches→behind (c ∷ p) f (d ∷ s) h = elim (Bool-cases (c == d)) [
  | inl same ↦
      let (rest, e, holds) = matches→behind p f s (ground (arith, h, same)) in
      (rest, cc ((==_iff c d).0 same, e), holds)
  | inr other ↦ absurd (ground (arith, h, other))
]

either : (a k l : Bool) → not a && (k || l) ≡ true → (a ≡ false) × ((k ≡ true) ⊎ (l ≡ true))
either true k l h = cc
either false true l h = (refl, inl refl)
either false false l h = (refl, inr h)

no_line_end : (c : ℕ) → (c == b'\n') ≡ false → c ≢ b'\n'
no_line_end c h = ground arith

behind→matches :
    (p : Text) (f : Text → Bool) (s : Text) → f s ≡ true → matches_behind p f (p ++ s) ≡ true
unfolding strip_prefix
behind→matches [] f s h = h
behind→matches (c ∷ p) f s h = ground (arith, behind→matches p f s h)

one_character : (c : ℕ) (k l : Bool) → c ≢ b'\n' → k ≡ true → not (c == b'\n') && (k || l) ≡ true
one_character c k l h e = ground arith

more_characters : (c : ℕ) (k l : Bool) → c ≢ b'\n' → l ≡ true → not (c == b'\n') && (k || l) ≡ true
more_characters c true l h e = ground arith
more_characters c false l h e = ground arith

any_of : (a b c : Bool) → (a || b || c) ≡ true → (a ≡ true) ⊎ ((b ≡ true) ⊎ (c ≡ true))
any_of true b c h = inl refl
any_of false true c h = inr (inl refl)
any_of false false c h = inr (inr h)

module _ (is_decimal : ℕ → Bool) where
  abbrev pub OnlyDigits : Text → Type 0
  OnlyDigits = All (λ c. is_decimal c ≡ true)

  -- `_lot-net`, `_lot-m-net`, or `_cur-m-net-` and at least one decimal digit
  abbrev pub IsSuffix : Text → Type 0
  IsSuffix s =
      (s ≡ codes "_lot-net")
      ⊎ ((s ≡ codes "_lot-m-net")
          ⊎ ((digits : Text) × (s ≡ codes "_cur-m-net-" ++ digits)
              × (digits ≢ [])
              × OnlyDigits digits))

  all-digits : (s : Text) → all_decimal is_decimal s ≡ true → OnlyDigits s
  all-digits [] h = tt
  all-digits (c ∷ s) h = (ground arith, all-digits s (ground arith))

  digits-all : (s : Text) → OnlyDigits s → all_decimal is_decimal s ≡ true
  digits-all [] h = refl
  digits-all (c ∷ s) h = rw (h.0, digits-all s h.1) refl

  digits-some : (s : Text) → s ≢ [] → OnlyDigits s → some_decimal is_decimal s ≡ true
  digits-some [] ne h = absurd (ne refl)
  digits-some (c ∷ s) ne h = digits-all (c ∷ s) h

  some-digits : (s : Text) → some_decimal is_decimal s ≡ true → (s ≢ []) × OnlyDigits s
  some-digits [] h = cc
  some-digits (c ∷ s) h = ((λ e. cc), all-digits (c ∷ s) h)

  known→IsSuffix : (s : Text) → is_known_suffix is_decimal s ≡ true → IsSuffix s
  known→IsSuffix s h =
      elim (any_of (text_eq (codes "_lot-net") s) (text_eq (codes "_lot-m-net") s) _ h) [
        | inl e ↦ inl (sym (text_eq→eq _ s e))
        | inr (inl e) ↦ inr (inl (sym (text_eq→eq _ s e)))
        | inr (inr e) ↦
            let (digits, same, holds) =
              matches→behind (codes "_cur-m-net-") (some_decimal is_decimal) s e in
            let (ne, decimal) = some-digits digits holds in inr (inr (digits, same, ne, decimal))
      ]

  IsSuffix→known : (s : Text) → IsSuffix s → is_known_suffix is_decimal s ≡ true
  IsSuffix→known s (inl e) = rw (e, text_eq_refl) refl
  IsSuffix→known s (inr (inl e)) =
      ground (arith, ap (text_eq (codes "_lot-m-net")) e ∙ text_eq_refl (codes "_lot-m-net"))
  IsSuffix→known s (inr (inr h)) = ground (
    arith,
    ap (matches_behind (codes "_cur-m-net-") (some_decimal is_decimal)) h.1
        ∙ behind→matches (codes "_cur-m-net-") (some_decimal is_decimal) h.0
            (digits-some h.0 h.2 h.3),
  )

  -- A non-empty text on one line and one of the suffixes behind it.
  abbrev pub RunAndSuffix : Text → Type 0
  RunAndSuffix s =
      (run_id : Text) × (suffix : Text) × (s ≡ run_id ++ suffix)
      × (run_id ≢ [])
      × OnOneLine run_id
      × IsSuffix suffix

  later→parts : (s : Text) → suffix_later is_decimal s ≡ true → RunAndSuffix s
  unfolding suffix_later
  later→parts [] h = cc
  later→parts (c ∷ s) h =
      let (line, split) =
        either (c == b'\n') (is_known_suffix is_decimal s) (suffix_later is_decimal s) h in
      elim split [
        | inl known ↦ (c ∷ [], s, refl, (λ e. cc), (no_line_end c line, tt), known→IsSuffix s known)
        | inr later ↦
            let (r, suffix, e, ne, lines, known) = later→parts s later in
            (c ∷ r, suffix, ap (λ t. c ∷ t) e, (λ e. cc), (no_line_end c line, lines), known)
      ]

  parts→later :
      (c : ℕ) (r suffix : Text)
      → OnOneLine (c ∷ r)
      → is_known_suffix is_decimal suffix ≡ true
      → suffix_later is_decimal (c ∷ r ++ suffix) ≡ true
  unfolding suffix_later
  parts→later c [] suffix h k = one_character c (is_known_suffix is_decimal suffix) _ h.0 k
  parts→later c (d ∷ r) suffix h k =
      more_characters c (is_known_suffix is_decimal _) _ h.0 (parts→later d r suffix h.1 k)

  -- The text is `foc_` and a run ID, and nothing else, up to a suffix.
  parts→network :
      (name r suffix : Text)
      → name ≡ codes "foc_" ++ (r ++ suffix)
      → r ≢ []
      → OnOneLine r
      → is_known_suffix is_decimal suffix ≡ true
      → is_foc_devnet_network is_decimal name ≡ true
  unfolding is_foc_devnet_network
  parts→network name [] suffix e ne line known = absurd (ne refl)
  parts→network name (c ∷ r) suffix e ne line known = rw e (
      behind→matches (codes "foc_") (suffix_later is_decimal) ((c ∷ r) ++ suffix)
        (parts→later c r suffix line known))

  network→parts :
      (name : Text)
      → is_foc_devnet_network is_decimal name ≡ true
      → (rest : Text) × (name ≡ codes "foc_" ++ rest) × RunAndSuffix rest
  unfolding is_foc_devnet_network
  network→parts name h =
      let (rest, e, later) = matches→behind (codes "foc_") (suffix_later is_decimal) name h in
      (rest, e, later→parts rest later)

  -- A name is one of the scheme of the networks exactly if it is `foc_`, a run ID that is not empty
  -- and has no line end, and `_lot-net`, `_lot-m-net`, or `_cur-m-net-` with at least one decimal digit
  -- and nothing else behind it.
  pub is_foc_devnet_network_iff :
      (name : Text)
      → (is_foc_devnet_network is_decimal name ≡ true)
        ↔ ((rest : Text) × (name ≡ codes "foc_" ++ rest) × RunAndSuffix rest)
  is_foc_devnet_network_iff name = (
    network→parts name,
    λ (rest, e, (r, suffix, parts, ne, line, known)).
        parts→network name r suffix (e ∙ ap (λ t. codes "foc_" ++ t) parts) ne line
          (IsSuffix→known suffix known),
  )
