-- ===== src/Retry.antt =====
-- src/utils/retry.rs: a validation that is tried again until it succeeds. The operation is a closure
-- with a state of its own; the pauses are returned in the order in which the thread sleeps.
mod Examples
pub mod Contract
use foc_devnet.Base.{
  ℕ, zero, suc, ◌+◌, ltb, if◌then◌else◌, Option, none, some, List, [], ◌∷◌, ◌++◌, Outcome, ok, err,
  panic,
}
use foc_devnet.Base.Results
use foc_devnet.Words.{Profile, add_u64}

abbrev pub default_max_retries : ℕ
default_max_retries = 6

abbrev pub default_retry_delay_secs : ℕ
default_retry_delay_secs = 4

pub data RetryError (E : Type 0) : Type 0 where
  last_error : E → RetryError E
  failed_with_no_error : RetryError E

abbrev pub or_no_error : {E : Type 0} → Option E → RetryError E
or_no_error none = failed_with_no_error
or_no_error (some e) = last_error e

module _ {S E T : Type 0} (operation : S → Outcome E T × S) (delay : ℕ → Outcome (RetryError E) ℕ)
    (max_retries : ℕ) where
  -- The sleep behind a failed attempt, if another one follows.
  pub pause : ℕ → Outcome (RetryError E) (List ℕ)
  pause attempt =
      if ltb attempt max_retries then Results.◌>>=◌ (delay attempt) (λ d. ok (d ∷ [])) else ok []

  -- The loop from `attempt` on, with `n` attempts left.
  pub retry_from : ℕ → ℕ → Option E → S → Outcome (RetryError E) T × S × List ℕ
  retry_from zero attempt last s = (err (or_no_error last), s, [])
  retry_from (suc n) attempt last s =
      let (r, s') = operation s in
      elim r [
        | ok x ↦ (ok x, s', [])
        | panic ↦ (panic, s', [])
        | err e ↦ elim (pause attempt) [
          | ok slept ↦
              let (r', s'', more) = retry_from n (attempt + 1) (some e) s' in
              (r', s'', slept ++ more)
          | err x ↦ (err x, s', [])
          | panic ↦ (panic, s', [])
        ]
      ]

module _ {S E T : Type 0} (p : Profile) (operation : S → Outcome E T × S)
    (max_retries base_delay_secs : ℕ) where
  pub retry_with_backoff : S → Outcome (RetryError E) T × S × List ℕ
  unfolding retry_from
  retry_with_backoff =
      retry_from operation (λ attempt. add_u64 p base_delay_secs attempt) max_retries max_retries 1
        none

module _ {S E T : Type 0} (operation : S → Outcome E T × S) (max_retries delay_secs : ℕ) where
  pub retry_with_fixed_delay : S → Outcome (RetryError E) T × S × List ℕ
  unfolding retry_from
  retry_with_fixed_delay =
      retry_from operation (λ attempt. ok delay_secs) max_retries max_retries 1 none
