-- ===== src/Program/Catch.antt =====
-- `match` on the `Result` of a call, and `retry_with_fixed_delay` of src/utils/retry.rs around a call
-- that acts on the world, where a sleep is time that passes.
use foc_devnet.Base.{
  ℕ, zero, suc, ◌+◌, ltb, if◌then◌else◌, Option, none, some, Outcome, ok, err, panic,
}
use foc_devnet.Program.{Program, ret, act, pure, raise, ◌>>=◌, ◌>>◌}

module _ {W E D A : Type 0} where
  abbrev pub caught : Outcome E A → Program W D (Outcome E A)
  caught (ok a) = pure (ok a)
  caught (err e) = pure (err e)
  caught panic = ret panic

  -- The result handed to the caller, who goes on; a panic is no result.
  unfoldable pub catch : Program W E A → Program W D (Outcome E A)
  catch (ret r) = caught r
  catch (act u k) = act u (λ w. catch (k w))

module _ {E : Type 0} where
  abbrev pub or_last : E → Option E → E
  or_last no_error none = no_error
  or_last no_error (some e) = e

module _ {W E : Type 0} (sleep : ℕ → Program W E (Unit {0})) (max_retries delay_secs : ℕ) where
  abbrev pub pause : ℕ → Program W E (Unit {0})
  pause attempt = if ltb attempt max_retries then sleep delay_secs else pure tt

module _ {W E A : Type 0} where
  -- The `match` on the result of an attempt, where `again` goes on behind an error.
  abbrev pub tried : (E → Program W E A) → Outcome E A → Program W E A
  tried again (ok a) = pure a
  tried again (err e) = again e
  tried again panic = ret panic

module _ {W E A : Type 0} (sleep : ℕ → Program W E (Unit {0})) (no_error : E)
    (max_retries delay_secs : ℕ) where
  -- `n` attempts from `attempt` on; the operation may count them.
  unfoldable pub attempts : (ℕ → Program W E A) → ℕ → ℕ → Option E → Program W E A
  attempts operation zero attempt last = raise (or_last no_error last)
  attempts operation (suc n) attempt last =
      catch (operation attempt)
      >>= tried λ e.
        pause sleep max_retries delay_secs attempt >> attempts operation n (attempt + 1) (some e)

  unfoldable pub retry_counting : (ℕ → Program W E A) → Program W E A
  unfolding attempts
  retry_counting operation = attempts operation max_retries 1 none

module _ {W E A : Type 0} (sleep : ℕ → Program W E (Unit {0})) (no_error : E)
    (operation : Program W E A) (max_retries delay_secs : ℕ) where
  unfoldable pub retry_program : Program W E A
  unfolding retry_counting
  retry_program = retry_counting sleep no_error max_retries delay_secs (λ attempt. operation)
