-- ===== src/Retry/Examples.antt =====
-- An operation that fails a number of times.
use foc_devnet.Base.{ℕ, zero, suc, ◌≡◌, refl, arith, [], ◌∷◌, Outcome, ok, err}
use foc_devnet.Words.{debug}
use foc_devnet.Retry.{last_error, retry_with_backoff, retry_with_fixed_delay}
use foc_devnet.Retry.Contract.{FailsWith, not_yet, fails_first, retry-ok, retry-err}

-- It succeeds when the counter has run down; its errors are the counts.
abbrev countdown : ℕ → Outcome ℕ (Unit {0}) × ℕ
countdown zero = (ok tt, 0)
countdown (suc n) = (err (suc n), n)

fails_twice : FailsWith countdown 0 (2 ∷ 1 ∷ []) 2
fails_twice = fails_first 2 refl (fails_first 1 refl not_yet)

retry-ok_example :
    (retry_with_backoff debug countdown 6 4 2 ≡ (ok tt, 0, 5 ∷ 6 ∷ []))
    × (retry_with_fixed_delay countdown 6 4 2 ≡ (ok tt, 0, 4 ∷ 4 ∷ []))
retry-ok_example =
    retry-ok countdown 2 0 (2 ∷ 1 ∷ []) fails_twice debug 4 6 0 tt (omega arith) refl (omega arith)

retry-err_example :
    (retry_with_backoff debug countdown 2 4 2 ≡ (err (last_error 1), 0, 5 ∷ []))
    × (retry_with_fixed_delay countdown 2 4 2 ≡ (err (last_error 1), 0, 4 ∷ []))
retry-err_example = retry-err countdown 2 0 (2 ∷ 1 ∷ []) fails_twice debug 4 2 (omega arith) refl
