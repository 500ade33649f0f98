-- ===== src/Text/Split.antt =====
-- The methods of `str` that the source takes texts apart with, and their laws.
use foc_devnet.Base.{
  ℕ, ◌≡◌, ◌≢◌, refl, ap, arith, leb, ◌==◌, if◌then◌else◌, Bool, true, false, ◌&&◌, ◌||◌, Option,
  none, some, [], ◌∷◌, ◌++◌, All,
}
use foc_devnet.Text.{Text}

-- `split_once(sep)`: at the first separator.
unfoldable pub split_once : ℕ → Text → Option (Text × Text)
split_once sep [] = none
split_once sep (c ∷ s) =
    if c == sep
    then some ([], s)
    else elim (split_once sep s) [ none ↦ none | some (a, b) ↦ some (c ∷ a, b) ]

-- `rfind(sep)` and the two slices around it: at the last separator.
unfoldable pub split_last : ℕ → Text → Option (Text × Text)
split_last sep [] = none
split_last sep (c ∷ s) = elim (split_last sep s) [
  | some (a, b) ↦ some (c ∷ a, b)
  | none ↦ if c == sep then some ([], s) else none
]

-- `strip_prefix`
unfoldable pub strip_prefix : Text → Text → Option Text
strip_prefix [] s = some s
strip_prefix (c ∷ p) [] = none
strip_prefix (c ∷ p) (d ∷ s) = if c == d then strip_prefix p s else none

-- `char::is_whitespace`
unfoldable pub is_whitespace : ℕ → Bool
is_whitespace c =
    (leb 0x9 c && leb c 0xd)
    || (c == 0x20)
    || (c == 0x85)
    || (c == 0xa0)
    || (c == 0x1680)
    || (leb 0x2000 c && leb c 0x200a)
    || (c == 0x2028)
    || (c == 0x2029)
    || (c == 0x202f)
    || (c == 0x205f)
    || (c == 0x3000)

unfoldable pub skip_space : Text → Text
unfolding is_whitespace
skip_space [] = []
skip_space (c ∷ s) = if is_whitespace c then skip_space s else c ∷ s

unfoldable pub take_word : Text → Text
unfolding is_whitespace
take_word [] = []
take_word (c ∷ s) = if is_whitespace c then [] else c ∷ take_word s

unfoldable pub drop_word : Text → Text
unfolding is_whitespace
drop_word [] = []
drop_word (c ∷ s) = if is_whitespace c then c ∷ s else drop_word s

abbrev nonempty : Text → Option Text
nonempty [] = none
nonempty (c ∷ s) = some (c ∷ s)

-- `split_whitespace().nth(1)`
unfoldable pub second_word : Text → Option Text
unfolding skip_space take_word drop_word
second_word s = nonempty (take_word (skip_space (drop_word (skip_space s))))

-- A line up to `\n` or `\r\n`.
take_line : Text → Text
take_line [] = []
take_line (c ∷ []) = if c == b'\n' then [] else c ∷ []
take_line (c ∷ d ∷ s) =
    let rest = take_line (d ∷ s) in
    if (c == b'\n') || ((c == b'\r') && (d == b'\n')) then [] else c ∷ rest

-- `lines().next()`: the empty text has no line.
unfoldable pub first_line : Text → Option Text
unfolding take_line
first_line [] = none
first_line (c ∷ s) = some (take_line (c ∷ s))

-- The character does not stand in the text.
abbrev pub Lacks : ℕ → Text → Type 0
Lacks sep = All (λ c. c ≢ sep)

module _ (sep : ℕ) where
  pub split_once-append : (a b : Text) → Lacks sep a → split_once sep (a ++ sep ∷ b) ≡ some (a, b)
  unfolding split_once
  split_once-append [] b h = ground arith
  split_once-append (c ∷ a) b h = ground (arith, split_once-append a b h.1)

  pub split_once-none : (s : Text) → Lacks sep s → split_once sep s ≡ none
  unfolding split_once
  split_once-none [] h = refl
  split_once-none (c ∷ s) h = ground (arith, split_once-none s h.1)

  pub split_last-none : (s : Text) → Lacks sep s → split_last sep s ≡ none
  unfolding split_last
  split_last-none [] h = refl
  split_last-none (c ∷ s) h = ground (arith, split_last-none s h.1)

  pub split_last-append : (a b : Text) → Lacks sep b → split_last sep (a ++ sep ∷ b) ≡ some (a, b)
  unfolding split_last
  split_last-append [] b h = ground (arith, split_last-none b h)
  split_last-append (c ∷ a) b h = ground (arith, split_last-append a b h)

pub strip_prefix-append : (p s : Text) → strip_prefix p (p ++ s) ≡ some s
unfolding strip_prefix
strip_prefix-append [] s = refl
strip_prefix-append (c ∷ p) s = ground (arith, strip_prefix-append p s)

abbrev pub Word : Text → Type 0
Word = All (λ c. is_whitespace c ≡ false)

pub take_word-append :
    (w : Text) (c : ℕ) (s : Text) → Word w → is_whitespace c ≡ true → take_word (w ++ c ∷ s) ≡ w
unfolding take_word
take_word-append [] c s h sp = rw sp
take_word-append (d ∷ w) c s h sp = rw (h.0, take_word-append w c s h.1 sp)

pub take_word-all : (w : Text) → Word w → take_word w ≡ w
unfolding take_word
take_word-all [] h = refl
take_word-all (d ∷ w) h = rw (h.0, take_word-all w h.1)

pub drop_word-append :
    (w : Text) (c : ℕ) (s : Text) → Word w → is_whitespace c ≡ true → drop_word (w ++ c ∷ s) ≡ c ∷ s
unfolding drop_word
drop_word-append [] c s h sp = rw sp
drop_word-append (d ∷ w) c s h sp = rw h.0 (drop_word-append w c s h.1 sp)

-- The second of two words that a tab divides.
pub second_word-tab :
    (v : ℕ) (vs : Text) (w : ℕ) (ws : Text)
    → Word (v ∷ vs)
    → Word (w ∷ ws)
    → second_word ((v ∷ vs) ++ b'\t' ∷ (w ∷ ws)) ≡ some (w ∷ ws)
unfolding second_word
second_word-tab v vs w ws hv hw =
    rw (hv.0, hv.0, drop_word-append vs b'\t' (w ∷ ws) hv.1 refl, hw.0, hw.0, take_word-all ws hw.1)

-- A text without line ends is the first line of itself with one behind it.
take_line-append :
    (s rest : Text) → Lacks b'\n' s → Lacks b'\r' s → take_line (s ++ b'\n' ∷ rest) ≡ s
unfolding take_line
take_line-append [] [] h k = refl
take_line-append [] (c ∷ rest) h k = refl
take_line-append (c ∷ []) rest h k = ground (arith, take_line-append [] rest tt tt)
take_line-append (c ∷ d ∷ s) rest h k = ground (arith, take_line-append (d ∷ s) rest h.1 k.1)

pub first_line-append :
    (c : ℕ) (s rest : Text)
    → Lacks b'\n' (c ∷ s)
    → Lacks b'\r' (c ∷ s)
    → first_line ((c ∷ s) ++ b'\n' ∷ rest) ≡ some (c ∷ s)
unfolding first_line
first_line-append c s rest h k = ap some (take_line-append (c ∷ s) rest h k)

pub Word-Lacks : (sep : ℕ) (w : Text) → is_whitespace sep ≡ true → Word w → Lacks sep w
Word-Lacks sep [] sp h = tt
Word-Lacks sep (c ∷ w) sp h = ((λ e. cc (h.0, sp, ap is_whitespace e)), Word-Lacks sep w sp h.1)
