-- ===== src/Pdp/Matching.antt =====
-- src/commands/start/pdp_service_provider/pdp_service_provider_step.rs: the lists of the providers, of
-- their data and of their IDs beside each other.
use mathlib.Core.Path.{subst}
use foc_devnet.Base.{ℕ, zero, suc, ◌+◌, ◌≤◌, arith, List, [], ◌∷◌, All}
use foc_devnet.Text.{max_u64}
use foc_devnet.Program.Loops.{range}
use foc_devnet.Pdp.Providers.{SpData}
use foc_devnet.Pdp.Registered.{Paired}
use foc_devnet.Pdp.Stored.{Listed}

-- What holds of the first is asked of fewer.
pub All-range :
    (Q : ℕ → Type 0) (first n k : ℕ) → n ≤ k → All Q (range first k) → All Q (range first n)
All-range Q first zero k le h = tt
All-range Q first (suc n) zero le h = absurd (omega arith)
All-range Q first (suc n) (suc k) le h = (h.0, All-range Q (first + 1) n k (omega arith) h.1)

-- The providers of the data are those of the list.
pub All-Listed :
    (Q : ℕ → Type 0) (is : List ℕ) (ds : List SpData)
    → Listed is ds
    → All (λ d. Q d.sp_index) ds
    → All Q is
All-Listed Q [] [] listed h = tt
All-Listed Q [] (d ∷ ds) listed h = absurd listed
All-Listed Q (i ∷ is) [] listed h = absurd listed
All-Listed Q (i ∷ is) (d ∷ ds) listed h = (subst Q listed.0 h.0, All-Listed Q is ds listed.1 h.1)

pub All-Paired :
    (Q : ℕ → Type 0) (ds : List SpData) (ids : List (ℕ × ℕ))
    → Paired ds ids
    → All (λ p. Q p.0) ids
    → All (λ d. Q d.sp_index) ds
All-Paired Q [] [] paired h = tt
All-Paired Q [] (p ∷ ids) paired h = absurd paired
All-Paired Q (d ∷ ds) [] paired h = absurd paired
All-Paired Q (d ∷ ds) ((i, id) ∷ ids) (same, small, paired) h =
    (subst Q same h.0, All-Paired Q ds ids paired h.1)

pub Paired-small :
    (ds : List SpData) (ids : List (ℕ × ℕ)) → Paired ds ids → All (λ p. p.1 ≤ max_u64) ids
Paired-small [] [] paired = tt
Paired-small [] (p ∷ ids) paired = absurd paired
Paired-small (d ∷ ds) [] paired = absurd paired
Paired-small (d ∷ ds) ((i, id) ∷ ids) (same, small, paired) = (small, Paired-small ds ids paired)

pub All-zip :
    (P Q R : ℕ → Type 0) (is : List ℕ)
    → All P is
    → All Q is
    → All R is
    → All (λ i. P i × Q i × R i) is
All-zip P Q R [] p q r = tt
All-zip P Q R (i ∷ is) p q r = ((p.0, q.0, r.0), All-zip P Q R is p.1 q.1 r.1)
