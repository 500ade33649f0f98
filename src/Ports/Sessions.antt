-- ===== src/Ports/Sessions.antt =====
-- src/port_allocator.rs: sequences of requests to one allocator, in the order in which threads come to
-- its lock.
use foc_devnet.Base.{
  ℕ, zero, suc, ◌≡◌, refl, sym, ap, ◌∙◌, arith, true, false, Bool-cases, inl, inr, [], List, ◌∷◌,
  ◌++◌, append_assoc, append-nil, InRange, All, All-append, Distinct, contains, Outcome, ok, err,
  ◌==◌, ==_iff,
}
use native.Mathlib.Decide.{dec_lt}
use foc_devnet.Base.Exec.{continue, continue-ok, continue-err}
use foc_devnet.Words.{Profile}
use foc_devnet.Ports.{
  PortAllocator, PortError, allocate, allocate_multiple, allocate_more, mark_allocated,
  allocated_count,
}
use foc_devnet.Ports.Invariant.{IsValid, mark_allocated_lem, mark_allocated-IsValid}
use foc_devnet.Ports.Contract.{
  Grants, Refuses, allocate-IsValid, allocate-Grants, allocate-Refuses, available_count-add,
}

-- From `a` to `b` the ports `gs` were granted: distinct ports of the range, free before and taken
-- after; what was taken stays taken.
pub record Extends (a : PortAllocator) (gs : List ℕ) (b : PortAllocator) : Type 0 where
  pub valid : IsValid b
  pub grows : (q : ℕ) → contains q a.allocated ≡ true → contains q b.allocated ≡ true
  pub taken : All (λ g. contains g b.allocated ≡ true) gs
  pub free : All (λ g. contains g a.allocated ≡ false) gs
  pub distinct : Distinct gs
  pub within : All (InRange a.start a.count) gs
  pub same_start : b.start ≡ a.start
  pub same_count : b.count ≡ a.count

contains-append :
    (q : ℕ) (gs hs : List ℕ)
    → contains q gs ≡ false
    → contains q hs ≡ false
    → contains q (gs ++ hs) ≡ false
unfolding contains
contains-append q [] hs h k = k
contains-append q (g ∷ gs) hs h k = ground (arith, contains-append q gs hs)

-- A taken port is none of the free ones.
pub not-contains :
    (q : ℕ) (hs xs : List ℕ)
    → contains q xs ≡ true
    → All (λ h. contains h xs ≡ false) hs
    → contains q hs ≡ false
unfolding contains
not-contains q [] xs h f = refl
not-contains q (x ∷ hs) xs h f = elim (Bool-cases (x == q)) [
  | inl same ↦ cc (h, f.0, ap (λ y. contains y xs) ((==_iff x q).0 same))
  | inr other ↦ rw other (not-contains q hs xs h f.1)
]

Distinct-append :
    (gs hs xs : List ℕ)
    → Distinct gs
    → Distinct hs
    → All (λ g. contains g xs ≡ true) gs
    → All (λ h. contains h xs ≡ false) hs
    → Distinct (gs ++ hs)
Distinct-append [] hs xs dg dh t f = dh
Distinct-append (g ∷ gs) hs xs dg dh t f = (
  contains-append g gs hs dg.0 (not-contains g hs xs t.0 f),
  Distinct-append gs hs xs dg.1 dh t.1 f,
)

All-map {ℓ κ ι} :
    {A : Type ℓ} {P : A → Type κ} {Q : A → Type ι} (f : (x : A) → P x → Q x) (xs : List A)
    → All P xs
    → All Q xs
All-map f [] h = tt
All-map f (x ∷ xs) h = (f x h.0, All-map f xs h.1)

pub Extends-refl : (a : PortAllocator) → IsValid a → Extends a [] a
Extends-refl a v = record {
  valid = v;
  grows = λ q h. h;
  taken = tt;
  free = tt;
  distinct = tt;
  within = tt;
  same_start = refl;
  same_count = refl;
}

pub Extends-trans :
    (a b c : PortAllocator) (gs hs : List ℕ)
    → Extends a gs b
    → Extends b hs c
    → Extends a (gs ++ hs) c
Extends-trans a b c gs hs x y = record {
  valid = y.valid;
  grows = λ q h. y.grows q (x.grows q h);
  taken = All-append _ gs hs (All-map (λ g. y.grows g) gs x.taken) y.taken;
  free = All-append _ gs hs x.free (All-map (λ h. absent h) hs y.free);
  distinct = Distinct-append gs hs b.allocated x.distinct y.distinct x.taken y.free;
  within = All-append _ gs hs x.within (All-map (λ h. moved h) hs y.within);
  same_start = y.same_start ∙ x.same_start;
  same_count = y.same_count ∙ x.same_count;
}
  where
    absent : (h : ℕ) → contains h b.allocated ≡ false → contains h a.allocated ≡ false
    absent h f = elim (Bool-cases (contains h a.allocated)) [
      | inl old ↦ cc (x.grows h old, f)
      | inr new ↦ new
    ]

    moved : (h : ℕ) → InRange b.start b.count h → InRange a.start a.count h
    moved h r = omega (arith, x.same_start, x.same_count)

-- The ports may be kept back: a failed call returns none of them.
pub Extends-forget : (a b : PortAllocator) (gs : List ℕ) → Extends a gs b → Extends a [] b
Extends-forget a b gs x = record {
  valid = x.valid;
  grows = x.grows;
  taken = tt;
  free = tt;
  distinct = tt;
  within = tt;
  same_start = x.same_start;
  same_count = x.same_count;
}

Grants-Extends :
    (a : PortAllocator) (r : Outcome PortError ℕ × PortAllocator)
    → IsValid r.1
    → (g : Grants a r) → Extends a (g.port ∷ []) r.1
unfolding contains
Grants-Extends a r v g = record {
  valid = v;
  grows = λ q h. rw g.kept (ground arith);
  taken = (rw g.kept (ground arith), tt);
  free = (g.fresh, tt);
  distinct = (refl, tt);
  within = (g.within, tt);
  same_start = g.same_start;
  same_count = g.same_count;
}

Refuses-Extends :
    (a : PortAllocator) (r : Outcome PortError ℕ × PortAllocator)
    → IsValid r.1
    → Refuses a r
    → Extends a [] r.1
Refuses-Extends a r v g = record {
  valid = v;
  grows = λ q h. rw g.kept h;
  taken = tt;
  free = tt;
  distinct = tt;
  within = tt;
  same_start = g.same_start;
  same_count = g.same_count;
}

-- A call that grants `gs`, or fails.
pub data Gives {A : Type 0} (ports : A → List ℕ) (a : PortAllocator)
    (r : Outcome PortError A × PortAllocator) : Type 0 where
  gives : (x : A) → r.0 ≡ ok x → Extends a (ports x) r.1 → Gives ports a r
  fails : (e : PortError) → r.0 ≡ err e → Extends a [] r.1 → Gives ports a r

module _ (p : Profile) where
  pub allocate-Gives : (a : PortAllocator) → IsValid a → Gives (λ q. q ∷ []) a (allocate p a)
  allocate-Gives a v = elim (dec_lt (allocated_count a) a.count) [
    | yes room ↦
        let g = allocate-Grants p a v room in
        gives g.port g.result (Grants-Extends a (allocate p a) (allocate-IsValid p a v) g)
    | no full ↦
        let g = allocate-Refuses p a v (omega (arith, available_count-add a v)) in
        fails _ g.result (Refuses-Extends a (allocate p a) (allocate-IsValid p a v) g)
  ]

  data GivesMore (before : List ℕ) (a : PortAllocator)
      (r : Outcome PortError (List ℕ) × PortAllocator) : Type 0 where
    gives_more : (gs : List ℕ) → r.0 ≡ ok (before ++ gs) → Extends a gs r.1 → GivesMore before a r
    fails_later : (e : PortError) → r.0 ≡ err e → Extends a [] r.1 → GivesMore before a r

  after_one :
      (before : List ℕ) (a b : PortAllocator) (q : ℕ)
      (r : Outcome PortError (List ℕ) × PortAllocator)
      → Extends a (q ∷ []) b
      → GivesMore (before ++ q ∷ []) b r
      → GivesMore before a r
  after_one before a b q r x (gives_more gs e y) =
      gives_more (q ∷ gs) (e ∙ ap ok (append_assoc before (q ∷ []) gs))
        (Extends-trans a b r.1 (q ∷ []) gs x y)
  after_one before a b q r x (fails_later e h y) =
      fails_later e h (Extends-trans a b r.1 [] [] (Extends-forget a b (q ∷ []) x) y)

  allocate_more-GivesMore :
      (n : ℕ) (before : List ℕ) (a : PortAllocator)
      → IsValid a
      → GivesMore before a (allocate_more p n before a)
  unfolding allocate_more
  allocate_more-GivesMore zero before a v =
      gives_more [] (ap ok (sym (append-nil before))) (Extends-refl a v)
  allocate_more-GivesMore (suc n) before a v =
      go (allocate-Gives a v)
        (λ q w. allocate_more-GivesMore n (before ++ q ∷ []) (allocate p a).1 w)
    where
      go :
          Gives (λ q. q ∷ []) a (allocate p a)
          → ((q : ℕ)
              → IsValid (allocate p a).1
              → GivesMore
                  (before ++ q ∷ [])
                  (allocate p a).1
                  (allocate_more p n (before ++ q ∷ []) (allocate p a).1))
          → GivesMore before a (continue (allocate p a) (λ q. allocate_more p n (before ++ q ∷ [])))
      go (gives q e x) more =
          rw (continue-ok (allocate p a) (λ q'. allocate_more p n (before ++ q' ∷ [])) e)
            (after_one before a (allocate p a).1 q _ x (more q x.valid))
      go (fails e h x) more =
          rw (continue-err (allocate p a) (λ q'. allocate_more p n (before ++ q' ∷ [])) h)
            (fails_later e refl x)

  all_at_once :
      (a : PortAllocator) (r : Outcome PortError (List ℕ) × PortAllocator)
      → GivesMore [] a r
      → Gives (λ gs. gs) a r
  all_at_once a r (gives_more gs e x) = gives gs e x
  all_at_once a r (fails_later e h x) = fails e h x

  pub allocate_multiple-Gives :
      (n : ℕ) (a : PortAllocator) → IsValid a → Gives (λ gs. gs) a (allocate_multiple p n a)
  unfolding allocate_multiple
  allocate_multiple-Gives n a v = all_at_once a _ (allocate_more-GivesMore n [] a v)

  mark_allocated-Extends :
      (port : ℕ) (a : PortAllocator) → IsValid a → Extends a [] (mark_allocated p port a).1
  unfolding contains
  mark_allocated-Extends port a v = record {
    valid = (mark_allocated-IsValid p a v port).0;
    grows = λ q h. rw (mark_allocated_lem p a v port) (ground arith);
    taken = tt;
    free = tt;
    distinct = tt;
    within = tt;
    same_start = rw (mark_allocated_lem p a v port) (ground arith);
    same_count = rw (mark_allocated_lem p a v port) (ground arith);
  }

-- A request of some thread; each holds the lock of the allocator until it is answered.
pub data Request : Type 0 where
  one : Request
  several : ℕ → Request
  mark : ℕ → Request

-- The ports that a call returned.
abbrev returned {ℓ} : {A : Type ℓ} → (A → List ℕ) → Outcome PortError A → List ℕ
returned ports (ok x) = ports x
returned ports _ = []

module _ (p : Profile) where
  pub answer : Request → PortAllocator → List ℕ × PortAllocator
  answer one a = (returned (λ q. q ∷ []) (allocate p a).0, (allocate p a).1)
  answer (several n) a =
      (returned (λ gs. gs) (allocate_multiple p n a).0, (allocate_multiple p n a).1)
  answer (mark port) a = ([], (mark_allocated p port a).1)

  -- The ports that all requests were granted, in order, and the allocator behind the last.
  pub serve : List Request → PortAllocator → List ℕ × PortAllocator
  unfolding answer
  serve [] a = ([], a)
  serve (r ∷ rs) a = let (gs, b) = answer r a in let (hs, c) = serve rs b in (gs ++ hs, c)

  returned-Extends :
      {A : Type 0} (ports : A → List ℕ) (a : PortAllocator)
      (r : Outcome PortError A × PortAllocator)
      → Gives ports a r
      → Extends a (returned ports r.0) r.1
  returned-Extends ports a r (gives x e y) = rw e y
  returned-Extends ports a r (fails e h y) = rw h y

  pub answer-Extends :
      (r : Request) (a : PortAllocator) → IsValid a → Extends a (answer r a).0 (answer r a).1
  unfolding answer
  answer-Extends one a v = returned-Extends (λ q. q ∷ []) a (allocate p a) (allocate-Gives p a v)
  answer-Extends (several n) a v =
      returned-Extends (λ gs. gs) a (allocate_multiple p n a) (allocate_multiple-Gives p n a v)
  answer-Extends (mark port) a v = mark_allocated-Extends p port a v

  -- Whatever requests come to a valid allocator, in whatever order and whether or not they fail, the
  -- ports that they return are all distinct, lie in the range, were free at the start and are taken
  -- at the end; no port is ever given back, and the allocator stays valid.
  pub serve-Extends :
      (rs : List Request) (a : PortAllocator) → IsValid a → Extends a (serve rs a).0 (serve rs a).1
  unfolding serve
  serve-Extends [] a v = Extends-refl a v
  serve-Extends (r ∷ rs) a v =
      let x = answer-Extends r a v in
      Extends-trans a (answer r a).1 _ (answer r a).0 _ x (serve-Extends rs (answer r a).1 x.valid)
