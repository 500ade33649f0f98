-- ===== src/Tokens/Nonces.antt =====
-- src/commands/start/usdfc_funding/usdfc_funding_step.rs: the nonces of the transfers and the sizes of
-- the batches.
use foc_devnet.Base.{
  ◌≡◌, refl, ap, arith, ℕ, zero, suc, ◌+◌, ◌*◌, ◌≤◌, List, [], ◌∷◌, ◌++◌, All, length,
}
use foc_devnet.Tokens.Batches.{chunks, chunks_into, with_nonces, enumerated}

module _ {A : Type 0} where
  abbrev pub concatenated : List (List A) → List A
  concatenated [] = []
  concatenated (xs ∷ rest) = xs ++ concatenated rest

module _ {A : Type 0} where
  -- The elements with the numbers from `n` on
  abbrev pub counted : ℕ → List A → List (ℕ × A)
  counted n [] = []
  counted n (x ∷ xs) = (n, x) ∷ counted (n + 1) xs

  abbrev AtMost : ℕ → List A → Type 0
  AtMost n xs = length xs ≤ n

  counted_cons :
      (m n i : ℕ) (x : A) (xs : List A) {rest : List (ℕ × A)}
      → rest ≡ counted i xs
      → m ≡ n
      → i ≡ n + 1
      → (m, x) ∷ rest ≡ counted n (x ∷ xs)
  counted_cons m n i x xs h e f = rw (h, e, f) refl

  chunks_into-nonces :
      (room k j : ℕ) (xs : List A)
      → room + j ≡ 6
      → with_nonces k j (chunks_into room xs).0
          ++ concatenated (enumerated (k + 1) (chunks_into room xs).1)
        ≡ counted (k * 6 + j + 1) xs
  unfolding chunks_into with_nonces enumerated
  chunks_into-nonces room k j [] e = refl
  chunks_into-nonces zero k j (x ∷ xs) e =
      let rest = chunks_into-nonces 5 (k + 1) 1 xs refl in
      counted_cons ((k + 1) * 6 + 0 + 1) (k * 6 + j + 1) ((k + 1) * 6 + 1 + 1) x xs rest
        (omega (arith, e)) (omega (arith, e))
  chunks_into-nonces (suc room) k j (x ∷ xs) e =
      let rest = chunks_into-nonces room k (j + 1) xs (omega (arith, e)) in
      counted_cons (k * 6 + j + 1) (k * 6 + j + 1) (k * 6 + (j + 1) + 1) x xs rest refl
        (omega arith)

  chunks_into-AtMost :
      (room : ℕ) (xs : List A)
      → (length (chunks_into room xs).0 ≤ room) × All (AtMost 6) (chunks_into room xs).1
  unfolding chunks_into
  chunks_into-AtMost room [] = (omega arith, tt)
  chunks_into-AtMost zero (x ∷ xs) =
      let (within, rest) = chunks_into-AtMost 5 xs in (omega arith, (omega (arith, within), rest))
  chunks_into-AtMost (suc room) (x ∷ xs) =
      let (within, rest) = chunks_into-AtMost room xs in (omega (arith, within), rest)

  enumerated_lem : (xs : List A) → concatenated (enumerated 0 (chunks xs)) ≡ counted 1 xs
  unfolding chunks chunks_into enumerated with_nonces
  enumerated_lem [] = refl
  enumerated_lem (x ∷ xs) = ap (λ l. (1, x) ∷ l) (chunks_into-nonces 5 0 1 xs refl)

  -- The batches have at most six transfers each, and the nonces that the threads of all batches take, in
  -- their order, count the transfers from 1 on: every transfer is in one batch, in the order of the list,
  -- no two have one nonce and none is left out.
  pub enumerated-chunks :
      (xs : List A)
      → (concatenated (enumerated 0 (chunks xs)) ≡ counted 1 xs) × All (AtMost 6) (chunks xs)
  unfolding chunks
  enumerated-chunks xs = (enumerated_lem xs, (chunks_into-AtMost 0 xs).1)
