-- ===== src/Prelude/Sets.antt =====
-- map[string]struct{}: the elements in the order in which they came in, none twice.
pub mod Laws
use otel_aws_log_processor.Prelude.{
  Bool, true, not, ◌&&◌, List, [], ◌∷◌, ◌++◌, if◌then◌else◌, any, Text, text_eq,
}

unfoldable pub mem : Text → List Text → Bool
mem k xs = any (text_eq k) xs

unfoldable pub insert : Text → List Text → List Text
unfolding mem
insert k xs = if mem k xs then xs else xs ++ k ∷ []

unfoldable pub insert_all : List Text → List Text → List Text
unfolding insert
insert_all [] into = into
insert_all (k ∷ ks) into = insert_all ks (insert k into)

unfoldable pub nodup : List Text → Bool
unfolding mem
nodup [] = true
nodup (x ∷ xs) = not (mem x xs) && nodup xs
