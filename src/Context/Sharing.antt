-- ===== src/Context/Sharing.antt =====
-- The context shared by threads: what all its methods keep of the port allocator.
use foc_devnet.Base.{ℕ, ◌≡◌, refl, sym, ap, ◌∙◌, false, Bool, Outcome, List, [], ◌∷◌, map, All}
use mathlib.Core.Path.{subst}
use foc_devnet.Words.{Profile}
use foc_devnet.Text.{Text}
use foc_devnet.Ports.{PortAllocator, PortError, allocate, allocate_multiple}
use foc_devnet.Ports.Sessions.{
  Extends, Extends-trans, Extends-forget, Gives, gives, fails, allocate-Gives,
  allocate_multiple-Gives,
}
use foc_devnet.Dict.{Dict}
use foc_devnet.Program.{Program, pure, ◌>>◌, Keeps, Keeps-bind, modify}
use foc_devnet.Program.Interleaving.{Interleaves, Interleaves-Keeps}
use foc_devnet.Context.{
  World, save, put, save_to_file, set, set_multi, get, get_keys_matching, save_command,
  get_command_history, with_allocator, allocate_port, allocate_multiple_ports,
}
use foc_devnet.Context.Laws.{save-context}

-- The allocator is valid and no thread has panicked with its lock; since `a`, no port was given back.
pub record Holds {X : Type 0} (a : PortAllocator) (w : World X) : Type 0 where
  pub grown : Extends a [] w.port_allocator
  pub healthy : w.allocator_poisoned ≡ false

module _ {X : Type 0} (a : PortAllocator) where
  same_context :
      (w v : World X)
      → v.port_allocator ≡ w.port_allocator
      → v.allocator_poisoned ≡ w.allocator_poisoned
      → Holds a w
      → Holds a v
  same_context w v e f h = record {
    grown = subst (Extends a []) (sym e) h.grown;
    healthy = f ∙ h.healthy;
  }

  save-Holds : (w : World X) → Holds a w → Holds a (save w).1
  save-Holds w h =
      same_context w (save w).1 (ap (λ c. c.port_allocator) (save-context w))
        (ap (λ c. c.allocator_poisoned) (save-context w)) h

  grown_to :
      {A : Type 0} (ports : A → List ℕ) (w : World X)
      (m : PortAllocator → Outcome PortError A × PortAllocator)
      → Holds a w
      → Gives ports w.port_allocator (m w.port_allocator)
      → Holds a (with_allocator m w).1
  unfolding with_allocator
  grown_to ports w m h (gives x e y) =
      rw (h.healthy, e)
        (record {
          grown = Extends-trans a _ _ [] [] h.grown (Extends-forget _ _ _ y);
          healthy = refl;
        })
  grown_to ports w m h (fails x e y) =
      rw (h.healthy, e) (record { grown = Extends-trans a _ _ [] [] h.grown y; healthy = refl })

-- A call of a method of the context.
pub data Call : Type 0 where
  save_call : Call
  set_call : Text → Text → Call
  set_multi_call : List (Text × Text) → Call
  get_call : Text → Call
  get_keys_call : (Text → Bool) → Call
  save_command_call : Text → Text → Call
  get_history_call : Call
  allocate_call : Call
  allocate_multiple_call : ℕ → Call

module _ {X : Type 0} (p : Profile) where
  -- The call, as a thread makes it; the first error of the allocator ends the thread.
  perform : Call → Program (World X) PortError (Unit {0})
  perform save_call = save_to_file >> pure tt
  perform (set_call k v) = set k v
  perform (set_multi_call items) = set_multi items
  perform (get_call k) = get k >> pure tt
  perform (get_keys_call test) = get_keys_matching test >> pure tt
  perform (save_command_call k c) = save_command k c
  perform get_history_call = get_command_history >> pure tt
  perform allocate_call = allocate_port p (λ e. e) >> pure tt
  perform (allocate_multiple_call n) = allocate_multiple_ports p (λ e. e) n >> pure tt

  pub perform_all : List Call → Program (World X) PortError (Unit {0})
  unfolding perform
  perform_all [] = pure tt
  perform_all (c ∷ cs) = perform c >> perform_all cs

  put_save-Keeps :
      (a : PortAllocator) (f : Dict → Dict)
      → Keeps (Holds a) (modify {W = World X} {E = PortError} (put f) >> save_to_file >> pure tt)
  unfolding put save_to_file
  put_save-Keeps a f =
      λ w h. (same_context a w (put f w) refl refl h, λ v g. (save-Holds a v g, tt))

module _ (X : Type 0) (p : Profile) where
  perform-Keeps : (a : PortAllocator) (c : Call) → Keeps (Holds {X = X} a) (perform p c)
  unfolding perform save_to_file set set_multi get get_keys_matching save_command
      get_command_history allocate_port allocate_multiple_ports
  perform-Keeps a save_call = λ w h. (save-Holds a w h, tt)
  perform-Keeps a (set_call k v) = put_save-Keeps p a _
  perform-Keeps a (set_multi_call items) = put_save-Keeps p a _
  perform-Keeps a (get_call k) = λ w h. (h, tt)
  perform-Keeps a (get_keys_call test) = λ w h. (h, tt)
  perform-Keeps a (save_command_call k c) = put_save-Keeps p a _
  perform-Keeps a get_history_call = λ w h. (h, tt)
  perform-Keeps a allocate_call =
      Keeps-bind (Holds a) (allocate_port p (λ e. e)) _
        (λ w h. (grown_to a (λ q. q ∷ []) w (allocate p) h (allocate-Gives p _ h.grown.valid), tt))
        (λ _. tt)
  perform-Keeps a (allocate_multiple_call n) =
      Keeps-bind (Holds a) (allocate_multiple_ports p (λ e. e) n) _
        (λ w h. (
          grown_to a (λ gs. gs) w (allocate_multiple p n) h
              (allocate_multiple-Gives p n _ h.grown.valid),
          tt,
        ))
        (λ _. tt)

  perform_all-Keeps :
      (a : PortAllocator) (cs : List Call) → Keeps (Holds {X = X} a) (perform_all p cs)
  unfolding perform_all
  perform_all-Keeps a [] = tt
  perform_all-Keeps a (c ∷ cs) =
      Keeps-bind (Holds a) (perform p c) _ (perform-Keeps a c) (λ _. perform_all-Keeps a cs)

  threads-Keep :
      (a : PortAllocator) (threads : List (List Call))
      → All (Keeps (Holds {X = X} a)) (map (perform_all p) threads)
  threads-Keep a [] = tt
  threads-Keep a (cs ∷ threads) = (perform_all-Keeps a cs, threads-Keep a threads)

module _ {X : Type 0} (p : Profile) where
  -- Threads that make any calls of the methods of the context, in any order in which their actions can
  -- come, leave the allocator valid over the same range, with every port still allocated that was
  -- allocated before, and its lock never poisoned.
  pub perform_all-Holds :
      (threads : List (List Call)) (a : PortAllocator) (w w' : World X)
      (rs : List (Outcome PortError (Unit {0})))
      → Holds a w
      → Interleaves rs w' (map (perform_all p) threads) w
      → Holds a w'
  perform_all-Holds threads a w w' rs h i =
      Interleaves-Keeps (Holds a) i (threads-Keep X p a threads) h
