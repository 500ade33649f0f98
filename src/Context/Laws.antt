-- ===== src/Context/Laws.antt =====
-- What a thread reads back from the context, and what its methods leave in the file.
use foc_devnet.Base.{
  ◌≡◌, ◌≢◌, refl, sym, ap, ◌∙◌, All, append_assoc, if◌then◌else◌, none, some, List, [], ◌∷◌, ◌++◌,
  ok,
}
use foc_devnet.Text.{Text, text_eq}
use foc_devnet.Dict.{Dict, lookup, insert, lookup-insert, lookup-insert_self, lookup-insert_ne}
use foc_devnet.Program.{Program, run, pure, ◌>>◌}
use foc_devnet.Context.{
  World, Write, written, not_created, cut_short, holds, set, get, save_command, get_command_history,
  save, next_write, history_key, or_empty, longer_history, record_command, put,
}

-- A key is looked up after two writes of the history.
record_command_lem :
    (k c j : Text) (m : Dict)
    → k ≢ history_key
    → (lookup history_key (record_command k c m)
        ≡ some (longer_history (or_empty (lookup history_key m)) c))
      × (lookup k (record_command k c m) ≡ some c)
      × (k ≢ j → j ≢ history_key → lookup j (record_command k c m) ≡ lookup j m)
unfolding record_command
record_command_lem k c j m h = (
  rw (lookup-insert_self, lookup-insert_ne k history_key c m h),
  rw
      (lookup-insert_ne history_key k
        (longer_history (or_empty (lookup history_key (insert k c m))) c) (insert k c m)
        (λ e. h (sym e)))
      (lookup-insert_self k c m),
  λ other apart.
      lookup-insert_ne history_key j
        (longer_history (or_empty (lookup history_key (insert k c m))) c) (insert k c m)
        (λ e. apart (sym e))
      ∙ lookup-insert_ne k j c m other,
)

module _ {X : Type 0} where
  next_write-context : (os : List Write) (w : World X) → (next_write os w).1.context ≡ w.context
  unfolding next_write
  next_write-context [] w = refl
  next_write-context (written ∷ os) w = refl
  next_write-context (not_created ∷ os) w = refl
  next_write-context (cut_short ∷ os) w = refl

  -- A save changes nothing of the context, whatever comes of it.
  pub save-context : (w : World X) → (save w).1.context ≡ w.context
  unfolding save
  save-context w = next_write-context w.writes w

  next_write-outside : (os : List Write) (w : World X) → (next_write os w).1.outside ≡ w.outside
  unfolding next_write
  next_write-outside [] w = refl
  next_write-outside (written ∷ os) w = refl
  next_write-outside (not_created ∷ os) w = refl
  next_write-outside (cut_short ∷ os) w = refl

  -- Nor does it change the world outside the context and its file.
  pub save-outside : (w : World X) → (save w).1.outside ≡ w.outside
  unfolding save
  save-outside w = next_write-outside w.writes w

  save-file : (w : World X) → w.writes ≡ [] → (save w).1.file ≡ holds w.state
  unfolding save next_write
  save-file w h = rw (h, next_write)

  save-state : (w : World X) → (save w).1.state ≡ w.state
  save-state w = ap (λ c. c.state) (save-context w)

module _ {X E : Type 0} where
  -- `get` after `set` returns the new value of the key and the old value of any other, whatever comes
  -- of the save.
  get-set :
      (k j v : Text) (w : World X)
      → (run (set k v >> get {E = E} j) w).0 ≡ ok (if text_eq k j then some v else lookup j w.state)
  unfolding run set get put
  get-set k j v w = rw (save-state (put (insert k v) w)) (rw lookup-insert)

module _ (X E : Type 0) where
  -- If the coming writes of the file system all succeed, the file holds exactly the state of the
  -- context after a `set`.
  pub set-file :
      (k v : Text) (w : World X)
      → w.writes ≡ []
      → (run (set {E = E} k v) w).1.file ≡ holds (run (set {E = E} k v) w).1.state
  unfolding run set put
  set-file k v w h =
      save-file (put (insert k v) w) h ∙ ap holds (sym (save-state (put (insert k v) w)))

-- The commands that are saved one after the other, each under its key.
module _ {X E : Type 0} where
  pub save_commands : List (Text × Text) → Program (World X) E (Unit {0})
  save_commands [] = pure tt
  save_commands ((k, c) ∷ cs) = save_command k c >> save_commands cs

longer_all : List (Text × Text) → Text → Text
longer_all [] h = h
longer_all ((k, c) ∷ cs) h = longer_all cs (longer_history h c)

module _ {X : Type 0} where
  history : World X → Text
  history w = or_empty (lookup history_key w.state)

module _ (X E : Type 0) where
  save_commands-longer :
      (cs : List (Text × Text)) (w : World X)
      → All (λ c. c.0 ≢ history_key) cs
      → history (run (save_commands {E = E} cs) w).1 ≡ longer_all cs (history w)
  unfolding run save_commands save_command longer_all history put
  save_commands-longer [] w h = refl
  save_commands-longer ((k, c) ∷ cs) w h =
      let w₁ = put (record_command k c) w in
      save_commands-longer cs (save w₁).1 h.1
      ∙ ap (longer_all cs) (
          ap (λ m. or_empty (lookup history_key m)) (save-state w₁)
          ∙ ap or_empty (record_command_lem k c k w.state h.0).0)

-- The commands with a line end between each two.
abbrev pub join_lines : List (Text × Text) → Text
join_lines [] = []
join_lines ((k, c) ∷ []) = c
join_lines ((k, c) ∷ d ∷ cs) = c ++ b'\n' ∷ join_lines (d ∷ cs)

longer_all-join :
    (k c : Text) (cs : List (Text × Text)) (h : Text)
    → All (λ d. d.1 ≢ []) ((k, c) ∷ cs)
    → h ≢ []
    → longer_all ((k, c) ∷ cs) h ≡ h ++ b'\n' ∷ join_lines ((k, c) ∷ cs)
unfolding longer_all
longer_all-join k c cs [] f ne = absurd (ne refl)
longer_all-join k c [] (x ∷ h) f ne = refl
longer_all-join k c ((k', d) ∷ cs) (x ∷ h) f ne =
    longer_all-join k' d cs ((x ∷ h) ++ b'\n' ∷ c) f.1 (λ e. cc)
    ∙ append_assoc (x ∷ h) (b'\n' ∷ c) (b'\n' ∷ join_lines ((k', d) ∷ cs))

longer_all-nil :
    (cs : List (Text × Text)) → All (λ d. d.1 ≢ []) cs → longer_all cs [] ≡ join_lines cs
unfolding longer_all
longer_all-nil [] f = refl
longer_all-nil ((k, c) ∷ []) f = refl
longer_all-nil ((k, c) ∷ (k', d) ∷ cs) f = longer_all-join k' d cs c f.1 f.0

module _ (X E : Type 0) where
  -- Commands that are saved in a row into a context with no history, none of them empty and none
  -- under the key of the history, make up the history, in their order, a line each.
  pub get_command_history-save_commands :
      (cs : List (Text × Text)) (w : World X)
      → lookup history_key w.state ≡ none
      → All (λ c. c.0 ≢ history_key) cs
      → All (λ c. c.1 ≢ []) cs
      → (run (get_command_history {E = E}) (run (save_commands {E = E} cs) w).1).0
        ≡ ok (join_lines cs)
  unfolding get_command_history run history
  get_command_history-save_commands cs w new h f = ap ok (
      save_commands-longer X E cs w h
      ∙ ap (λ o. longer_all cs (or_empty o)) new
      ∙ longer_all-nil cs f)
