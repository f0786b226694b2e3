-- ===== src/Prelude/Chunks.antt =====
-- The loop `for i := 0; i < len(xs); i += size { xs[i:min(i+size, len(xs))] }` of several
-- functions. Its fuel counts rounds, and `none` means that the rounds given were not enough.
use otel_aws_log_processor.Prelude.{
  ℕ, zero, suc, ◌≤◌, ◌<◌, ◌≡◌, refl, List, [], ◌∷◌, ◌++◌, Option, none, some, arith, length, take,
  drop, All, take-append-drop, length-take, length-drop,
}

module _ {ℓ} {A : Type ℓ} where
  unfoldable pub chunks : ℕ → ℕ → List A → Option (List (List A))
  chunks f size [] = some []
  chunks zero size (x ∷ xs) = none
  chunks (suc f) size (x ∷ xs) = elim (chunks f size (drop size (x ∷ xs))) [
    | none ↦ none
    | some bs ↦ some (take size (x ∷ xs) ∷ bs)
  ]

  abbrev pub concat : List (List A) → List A
  concat [] = []
  concat (b ∷ bs) = b ++ concat bs

  -- A batch is not empty and has at most `size` elements.
  abbrev pub FitsSize : ℕ → List A → Type 0
  FitsSize size b = (0 < length b) × (length b ≤ size)

  pub record Cut (size : ℕ) (xs : List A) (bs : List (List A)) : Type ℓ where
    pub whole : concat bs ≡ xs
    pub sizes : All (FitsSize size) bs

  Cut-cons :
      (size : ℕ) (x : A) (xs : List A) (bs : List (List A))
      → 0 < size
      → Cut size (drop size (x ∷ xs)) bs
      → Cut size (x ∷ xs) (take size (x ∷ xs) ∷ bs)
  Cut-cons size x xs bs h c = record {
    whole = rw (c.whole) (take-append-drop size (x ∷ xs));
    sizes = (
      (omega (arith, length-take size (x ∷ xs)), omega (arith, length-take size (x ∷ xs))),
      c.sizes,
    );
  }

  chunks-cons :
      (f size : ℕ) (x : A) (xs : List A) (bs : List (List A))
      → chunks f size (drop size (x ∷ xs)) ≡ some bs
      → chunks (suc f) size (x ∷ xs) ≡ some (take size (x ∷ xs) ∷ bs)
  unfolding chunks
  chunks-cons f size x xs bs p = rw (p, chunks)

  -- With as many rounds as elements, a positive size cuts the list into fitting batches.
  pub chunks-Cut :
      (f size : ℕ) (xs : List A)
      → 0 < size
      → length xs ≤ f
      → (bs : List (List A)) × (chunks f size xs ≡ some bs) × Cut size xs bs
  chunks-Cut f size [] h e = ([], unfold chunks in refl, record { whole = refl; sizes = tt })
  chunks-Cut zero size (x ∷ xs) h e = absurd (omega arith)
  chunks-Cut (suc f) size (x ∷ xs) h e =
      let (bs, p, c) =
        chunks-Cut f size (drop size (x ∷ xs)) h (omega (arith, length-drop size (x ∷ xs))) in
      (take size (x ∷ xs) ∷ bs, chunks-cons f size x xs bs p, Cut-cons size x xs bs h c)
