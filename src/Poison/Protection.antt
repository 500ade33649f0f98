-- ===== src/Poison/Protection.antt =====
-- What the poison file tells the next command.
use foc_devnet.Base.{
  ◌≡◌, refl, sym, ap, ◌∙◌, Bool, true, false, List, [], ◌∷◌, Outcome, ok, err, panic,
}
use foc_devnet.Base.Exec.{continue, ◌>>=◌}
use foc_devnet.Poison.{
  Effect, done, refused, broken_off, Home, MainError, MainExec, next_effect, file_operation,
  poison_file_path, remove_file, check_and_recover_poison, create_poison, remove_poison, Commands,
  start, stop, clean, build, init, status, version, Bodies, handle, main,
}

module _ {S : Type 0} where
  abbrev Absent : Home S → Type 0
  Absent h = h.poison ≡ false

  -- A home directory on which every operation of the file system is done.
  abbrev pub home : Bool → Bool → S → Home S
  home d p x = record { state_dir = d; poison = p; effects = []; rest = x }

module _ {E : Type 0} where
  -- The poison file is left behind by a command that does not succeed.
  abbrev pub stays : Outcome (MainError E) (Unit {0}) → Bool
  stays (ok a) = false
  stays _ = true

module _ {S E : Type 0} where
  next_effect-ok :
      (os : List Effect) (h : Home S)
      → (next_effect {E = E} os (λ h. record h { poison = false }) h).0 ≡ ok tt
      → (next_effect {E = E} os (λ h. record h { poison = false }) h).1.poison ≡ false
  unfolding next_effect
  next_effect-ok [] h e = refl
  next_effect-ok (done ∷ os) h e = refl
  next_effect-ok (refused ∷ os) h e = cc
  next_effect-ok (broken_off ∷ os) h e = refl

  remove_file-ok :
      (b : Bool) (h : Home S)
      → h.poison ≡ b
      → (remove_file {E = E} b h).0 ≡ ok tt
      → (remove_file {E = E} b h).1.poison ≡ false
  unfolding remove_file file_operation
  remove_file-ok true h e k = next_effect-ok h.effects h k
  remove_file-ok false h e k = e

  -- Inversion of a call and what follows it.
  last_ok :
      {A B : Type 0} (r : Outcome (MainError E) A × Home S) (f : A → MainExec S E B)
      (P : Home S → Type 0)
      → ((a : A) (h : Home S) (b : B) → (f a h).0 ≡ ok b → P (f a h).1)
      → (b : B) → (continue r f).0 ≡ ok b
      → P (continue r f).1
  last_ok (ok a, h) f P k b e = k a h b e
  last_ok (err x, h) f P k b e = cc
  last_ok (panic, h) f P k b e = cc

  -- When `main` succeeds there is no poison file, whatever the commands do to it and whatever becomes
  -- of the operations on the file system.
  pub main-ok :
      (b : Bodies S E) (command : Commands) (h : Home S)
      → (main b command h).0 ≡ ok tt
      → (main b command h).1.poison ≡ false
  unfolding main remove_poison
  main-ok b command h e =
      last_ok (b.prepare_run h) _ Absent
        (λ _ h₁ _.
          last_ok (check_and_recover_poison h₁) _ Absent
            (λ _ h₂ _.
              last_ok (handle b command h₂) _ Absent
                (λ _ h₃ _ k. remove_file-ok h₃.poison h₃ refl k) tt)
            tt)
        tt e

  -- The commands that write the poison file at once, and what they run behind it.
  abbrev pub Protects : Bodies S E → Commands → MainExec S E (Unit {0}) → Type 0
  Protects b (start parallel) body = body ≡ b.start_cluster parallel
  Protects b stop body = body ≡ b.stop_cluster
  Protects b (clean all images) body = body ≡ b.clean_all all images
  Protects b (build project) body = body ≡ b.load_config_and_build project
  Protects b (init options) body = ⊥
  Protects b status body = ⊥
  Protects b (version notty) body = ⊥

  handle_protected :
      (b : Bodies S E) (command : Commands) (body : MainExec S E (Unit {0}))
      → Protects b command body
      → (d : Bool) (x : S) → handle b command (home d false x) ≡ body (home true true x)
  unfolding handle create_poison poison_file_path file_operation next_effect
  handle_protected b (start parallel) body e d x = λ i. sym e i (home true true x)
  handle_protected b stop body e d x = λ i. sym e i (home true true x)
  handle_protected b (clean all images) body e d x = λ i. sym e i (home true true x)
  handle_protected b (build project) body e d x = λ i. sym e i (home true true x)
  handle_protected b (init options) body e d x = absurd e
  handle_protected b status body e d x = absurd e
  handle_protected b (version notty) body e d x = absurd e

  recovers :
      (d p : Bool) (x : S)
      → check_and_recover_poison {E = E} (home d p x) ≡ (ok tt, home true false x)
  unfolding check_and_recover_poison poison_file_path remove_file file_operation next_effect
  recovers d true x = refl
  recovers d false x = refl

  finishes :
      (o : Outcome (MainError E) (Unit {0})) (d : Bool) (x : S)
      → continue (o, home d true x) (λ _. remove_poison) ≡ (o, home d (stays o) x)
  unfolding remove_poison remove_file file_operation next_effect
  finishes (ok a) d x = refl
  finishes (err e) d x = refl
  finishes panic d x = refl

  -- The file system does every operation. Whether or not an earlier command left a poison file, a
  -- start, stop, clean or build runs with a fresh one in place. If it comes back without having
  -- touched that file, `main` returns its result, and the file is gone exactly if the command
  -- succeeded.
  pub main_lem :
      (b : Bodies S E) (command : Commands) (body : MainExec S E (Unit {0}))
      → Protects b command body
      → (h : Home S) (d p d' : Bool) (x x' : S) (o : Outcome (MainError E) (Unit {0}))
      → b.prepare_run h ≡ (ok tt, home d p x)
      → body (home true true x) ≡ (o, home d' true x')
      → main b command h ≡ (o, home d' (stays o) x')
  unfolding main
  main_lem b command body e h d p d' x x' o prepared ran =
      ap
        (λ r.
          continue r
            (λ _. check_and_recover_poison >>= λ _. handle b command >>= λ _. remove_poison))
        prepared
      ∙ ap (λ r. continue r (λ _. handle b command >>= λ _. remove_poison)) (recovers d p x)
      ∙ ap (λ r. continue r (λ _. remove_poison)) (handle_protected b command body e true x ∙ ran)
      ∙ finishes o d' x'
