-- ===== src/Prelude/Assoc.antt =====
-- A Go map with string keys, as the list of its entries in the order of their first writes. The
-- program ranges over a map in no particular order; a model that ranges takes this one.
use otel_aws_log_processor.Prelude.{
  ◌≡◌, refl, List, [], ◌∷◌, Option, none, some, arith, if◌then◌else◌, Text, text_eq, text_eq_iff,
}

module _ {ℓ} {V : Type ℓ} where
  unfoldable pub lookup : Text → List (Text × V) → Option V
  lookup k [] = none
  lookup k ((j, v) ∷ m) = if text_eq j k then some v else lookup k m

  unfoldable pub put : Text → V → List (Text × V) → List (Text × V)
  put k v [] = (k, v) ∷ []
  put k v ((j, w) ∷ m) = if text_eq j k then (j, v) ∷ m else (j, w) ∷ put k v m

  pub lookup-put :
      (k j : Text) (v : V) (m : List (Text × V))
      → lookup j (put k v m) ≡ (if text_eq k j then some v else lookup j m)
  unfolding lookup put
  lookup-put k j v [] = refl
  lookup-put k j v ((i, w) ∷ m) =
      ground (arith, text_eq_iff k j, text_eq_iff i k, text_eq_iff i j, lookup-put k j v m)

  -- for k, v := range from { into[k] = v }
  unfoldable pub put_all : List (Text × V) → List (Text × V) → List (Text × V)
  unfolding put
  put_all [] into = into
  put_all ((k, v) ∷ from) into = put_all from (put k v into)
