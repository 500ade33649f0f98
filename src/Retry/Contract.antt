-- ===== src/Retry/Contract.antt =====
-- What a retried operation comes to, by how often it fails first.
use foc_devnet.Base.{
  ℕ, zero, suc, ◌+◌, ◌<◌, ◌≤◌, ◌≡◌, refl, ap, ◌∙◌, arith, Option, none, some, List, [], ◌∷◌, ◌++◌,
  length, Outcome, ok, err,
}
use foc_devnet.Words.{Profile, add_u64, add_u64-ok, u64_mod}
use foc_devnet.Retry.{
  RetryError, last_error, pause, retry_from, retry_with_backoff, retry_with_fixed_delay,
  or_no_error,
}

module _ {S E T : Type 0} (operation : S → Outcome E T × S) where
  -- The operation, called again and again from the state `s` on, fails with the errors `es` and leaves
  -- the state `t`.
  pub data FailsWith (t : S) : List E → S → Type 0 where
    not_yet : FailsWith t [] t
    fails_first :
        {s s' : S} {es : List E} (e : E)
        → operation s ≡ (err e, s')
        → FailsWith t es s'
        → FailsWith t (e ∷ es) s

-- The pauses behind `n` failed attempts, the first of them `attempt`.
abbrev pub pauses : (ℕ → ℕ) → ℕ → ℕ → List ℕ
pauses d attempt zero = []
pauses d attempt (suc n) = d attempt ∷ pauses d (attempt + 1) n

-- The pauses between `n` attempts.
abbrev pub pauses_between : (ℕ → ℕ) → ℕ → ℕ → List ℕ
pauses_between d attempt zero = []
pauses_between d attempt (suc n) = pauses d attempt n

-- The last of the errors, or the one before them.
abbrev pub final_error : {E : Type 0} → Option E → List E → Option E
final_error last [] = last
final_error last (e ∷ es) = final_error (some e) es

module _ {S E T : Type 0} (operation : S → Outcome E T × S) (delay : ℕ → Outcome (RetryError E) ℕ)
    (d : ℕ → ℕ) (max_retries : ℕ) (fits : (k : ℕ) → k ≤ max_retries → delay k ≡ ok (d k)) where
  pause-again :
      (attempt : ℕ)
      → attempt < max_retries
      → pause operation delay max_retries attempt ≡ ok (d attempt ∷ [])
  unfolding pause
  pause-again attempt l = rw (fits attempt (omega arith)) (ground arith)

  pause-last :
      (attempt : ℕ) → attempt ≡ max_retries → pause operation delay max_retries attempt ≡ ok []
  unfolding pause
  pause-last attempt l = ground arith

  fails_again :
      (n attempt : ℕ) (last : Option E) (s s' : S) (e : E) (ds : List ℕ)
      → operation s ≡ (err e, s')
      → pause operation delay max_retries attempt ≡ ok ds
      → retry_from operation delay max_retries (suc n) attempt last s ≡ (
          let r = retry_from operation delay max_retries n (attempt + 1) (some e) s' in
          (r.0, r.1, ds ++ r.2))
  unfolding retry_from
  fails_again n attempt last s s' e ds g k =
      rw (retry_from, g, k)
        (ap
          (λ o.
            let r = retry_from operation delay max_retries n (attempt + 1) (some e) o.1 in
            (r.0, r.1, ds ++ r.2))
          g)

  succeeds_from :
      (es : List E) (n attempt : ℕ) (last : Option E) (s t u : S) (x : T)
      → FailsWith operation t es s
      → operation t ≡ (ok x, u)
      → length es < n
      → attempt + n ≡ suc max_retries
      → retry_from operation delay max_retries n attempt last s
        ≡ (ok x, u, pauses d attempt (length es))
  unfolding retry_from
  succeeds_from [] zero attempt last s t u x not_yet h l f = absurd (omega arith)
  succeeds_from (e ∷ es) zero attempt last s t u x fs h l f = absurd (omega arith)
  succeeds_from [] (suc n) attempt last s t u x not_yet h l f =
      rw (retry_from, h) (ap (λ r. (ok x, r.1, [])) h)
  succeeds_from (e ∷ es) (suc n) attempt last s t u x (fails_first _ g fs) h l f =
      fails_again n attempt last _ _ e (d attempt ∷ []) g (pause-again attempt (omega arith))
      ∙ ap (λ r. (r.0, r.1, d attempt ∷ r.2))
          (succeeds_from es n (attempt + 1) (some e) _ t u x fs h (omega arith) (omega arith))

  gives_up_from :
      (es : List E) (n attempt : ℕ) (last : Option E) (s t : S)
      → FailsWith operation t es s
      → length es ≡ n
      → attempt + n ≡ suc max_retries
      → retry_from operation delay max_retries n attempt last s
        ≡ (err (or_no_error (final_error last es)), t, pauses_between d attempt n)
  unfolding retry_from
  gives_up_from [] zero attempt last s t not_yet l f = refl
  gives_up_from [] (suc n) attempt last s t not_yet l f = absurd (omega arith)
  gives_up_from (e ∷ es) zero attempt last s t fs l f = absurd (omega arith)
  gives_up_from (e ∷ []) (suc zero) attempt last s t (fails_first _ g not_yet) l f =
      rw (retry_from, g, pause-last attempt (omega arith))
        (ap (λ r. (err (last_error e), r.1, [])) g)
  gives_up_from (e ∷ []) (suc (suc n)) attempt last s t fs l f = absurd (omega arith)
  gives_up_from (e ∷ e' ∷ es) (suc zero) attempt last s t fs l f = absurd (omega arith)
  gives_up_from (e ∷ e' ∷ es) (suc (suc n)) attempt last s t (fails_first _ g fs) l f =
      fails_again (suc n) attempt last _ _ e (d attempt ∷ []) g (pause-again attempt (omega arith))
      ∙ ap (λ r. (r.0, r.1, d attempt ∷ r.2))
          (gives_up_from (e' ∷ es) (suc n) (attempt + 1) (some e) _ t fs (omega arith)
            (omega arith))

module _ {S E T : Type 0} (operation : S → Outcome E T × S) (s t : S) (es : List E)
    (fails : FailsWith operation t es s) where
  backoff :
      (p : Profile) (base m : ℕ)
      → base + m < u64_mod
      → (k : ℕ) → k ≤ m
      → add_u64 {E = RetryError E} p base k ≡ ok (base + k)
  backoff p base m fits k l = add_u64-ok p base k (omega arith)

  -- An operation fails a number of times and then succeeds, and more attempts are allowed than it
  -- failed. Both functions return its result and stop. They slept behind each failure: a fixed time,
  -- or the base delay plus the number of the attempt, where the base delay plus the allowed attempts
  -- is a `u64`.
  pub retry-ok :
      (p : Profile) (delay_secs max_retries : ℕ) (u : S) (x : T)
      → delay_secs + max_retries < u64_mod
      → operation t ≡ (ok x, u)
      → length es < max_retries
      → (retry_with_backoff p operation max_retries delay_secs s
          ≡ (ok x, u, pauses (λ k. delay_secs + k) 1 (length es)))
        × (retry_with_fixed_delay operation max_retries delay_secs s
            ≡ (ok x, u, pauses (λ k. delay_secs) 1 (length es)))
  unfolding retry_with_backoff retry_with_fixed_delay
  retry-ok p base m u x fits h l = (
    succeeds_from operation (add_u64 p base) (λ k. base + k) m (backoff p base m fits) es m 1 none s
        t u x fails h l (omega arith),
    succeeds_from operation (λ k. ok base) (λ k. base) m (λ k l. refl) es m 1 none s t u x fails h l
        (omega arith),
  )

  -- An operation fails as often as attempts are allowed. Both functions return the last error, or an
  -- error of their own when no attempt is allowed, and call the operation no more. They slept between
  -- two attempts and not behind the last: a fixed time, or the base delay plus the number of the
  -- attempt, where the base delay plus the allowed attempts is a `u64`.
  pub retry-err :
      (p : Profile) (delay_secs max_retries : ℕ)
      → delay_secs + max_retries < u64_mod
      → length es ≡ max_retries
      → (retry_with_backoff p operation max_retries delay_secs s ≡ (
        err (or_no_error (final_error none es)),
        t,
        pauses_between (λ k. delay_secs + k) 1 max_retries,
      ))
        × (retry_with_fixed_delay operation max_retries delay_secs s ≡ (
          err (or_no_error (final_error none es)),
          t,
          pauses_between (λ k. delay_secs) 1 max_retries,
        ))
  unfolding retry_with_backoff retry_with_fixed_delay
  retry-err p base m fits l = (
    gives_up_from operation (add_u64 p base) (λ k. base + k) m (backoff p base m fits) es m 1 none s
        t fails l (omega arith),
    gives_up_from operation (λ k. ok base) (λ k. base) m (λ k l. refl) es m 1 none s t fails l
        (omega arith),
  )
