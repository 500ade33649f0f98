-- ===== src/Text/Search.antt =====
-- The methods of `str` that look through a text: `trim`, `contains`, `starts_with`, `lines`, `split`.
use foc_devnet.Base.{
  ℕ, ◌==◌, ◌&&◌, ◌||◌, if◌then◌else◌, Bool, true, false, Option, none, some, List, [], ◌∷◌, ◌++◌,
}
use foc_devnet.Text.{Text}
use foc_devnet.Text.Split.{is_whitespace, skip_space}

-- `starts_with`
unfoldable pub starts_with : Text → Text → Bool
starts_with [] s = true
starts_with (c ∷ p) [] = false
starts_with (c ∷ p) (d ∷ s) = (c == d) && starts_with p s

-- `contains`
unfoldable pub contains_text : Text → Text → Bool
unfolding starts_with
contains_text p [] = starts_with p []
contains_text p (c ∷ s) = starts_with p (c ∷ s) || contains_text p s

unfoldable pub all_space : Text → Bool
unfolding is_whitespace
all_space [] = true
all_space (c ∷ s) = is_whitespace c && all_space s

-- `trim_end`
unfoldable pub trim_end : Text → Text
unfolding all_space
trim_end [] = []
trim_end (c ∷ s) = let rest = trim_end s in if all_space (c ∷ s) then [] else c ∷ rest

-- `trim`
unfoldable pub trim : Text → Text
unfolding skip_space trim_end
trim s = trim_end (skip_space s)

-- The pieces between the separators; there is one more of them than separators.
unfoldable pub split_on : ℕ → Text → List Text
split_on sep [] = [] ∷ []
split_on sep (c ∷ s) = elim (split_on sep s) [
  | [] ↦ [] ∷ []
  | piece ∷ pieces ↦ if c == sep then [] ∷ piece ∷ pieces else (c ∷ piece) ∷ pieces
]

abbrev drop_last_empty : List Text → List Text
drop_last_empty [] = []
drop_last_empty ([] ∷ []) = []
drop_last_empty ((c ∷ s) ∷ []) = (c ∷ s) ∷ []
drop_last_empty (s ∷ t ∷ texts) = s ∷ drop_last_empty (t ∷ texts)

abbrev drop_return : Text → Text
drop_return [] = []
drop_return (c ∷ []) = if c == b'\r' then [] else c ∷ []
drop_return (c ∷ d ∷ s) = c ∷ drop_return (d ∷ s)

abbrev each_line : List Text → List Text
each_line [] = []
each_line (s ∷ texts) = drop_return s ∷ each_line texts

-- `lines()`: a line end at the end of the text begins no line, and `\r` before `\n` is dropped.
unfoldable pub lines : Text → List Text
unfolding split_on
lines s = each_line (drop_last_empty (split_on b'\n' s))

abbrev pub join : Text → List Text → Text
join sep [] = []
join sep (s ∷ []) = s
join sep (s ∷ t ∷ texts) = s ++ (sep ++ join sep (t ∷ texts))

-- `trim_start_matches` and `trim_end_matches` of a character
unfoldable pub trim_start_matches : ℕ → Text → Text
trim_start_matches sep [] = []
trim_start_matches sep (c ∷ s) = if c == sep then trim_start_matches sep s else c ∷ s

abbrev keep_unless : ℕ → ℕ → Text → Text
keep_unless sep c [] = if c == sep then [] else c ∷ []
keep_unless sep c (d ∷ s) = c ∷ d ∷ s

unfoldable pub trim_end_matches : ℕ → Text → Text
trim_end_matches sep [] = []
trim_end_matches sep (c ∷ s) = keep_unless sep c (trim_end_matches sep s)

abbrev begins_word : Text → List Text → ℕ → List Text
begins_word [] rest c = (c ∷ []) ∷ rest
begins_word (d ∷ s) [] c = (c ∷ []) ∷ []
begins_word (d ∷ s) (word ∷ rest) c =
    if is_whitespace d then (c ∷ []) ∷ word ∷ rest else (c ∷ word) ∷ rest

-- `split_whitespace`
unfoldable pub split_whitespace : Text → List Text
unfolding is_whitespace
split_whitespace [] = []
split_whitespace (c ∷ s) =
    let rest = split_whitespace s in if is_whitespace c then rest else begins_word s rest c

-- `last`
abbrev pub last : List Text → Option Text
last [] = none
last (s ∷ []) = some s
last (s ∷ t ∷ texts) = last (t ∷ texts)
