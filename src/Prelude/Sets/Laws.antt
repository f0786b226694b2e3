-- ===== src/Prelude/Sets/Laws.antt =====
-- Membership, duplicates and length of the sets.
use otel_aws_log_processor.Prelude.{
  ◌+◌, ◌≤◌, ◌≡◌, refl, true, false, ◌||◌, List, [], ◌∷◌, ◌++◌, Text, text_eq, text_eq_iff, arith,
  length, length-append, Bool-cases, inl, inr, ◌⊎◌,
}
use otel_aws_log_processor.Prelude.Sets.{mem, insert, insert_all, nodup}

pub mem-append_one :
    (j k : Text) (xs : List Text) → mem j (xs ++ k ∷ []) ≡ (mem j xs || text_eq j k)
unfolding mem
mem-append_one j k [] = ground arith
mem-append_one j k (x ∷ xs) = ground (arith, mem-append_one j k xs)

pub mem-insert : (j k : Text) (xs : List Text) → mem j (insert k xs) ≡ (mem j xs || text_eq j k)
unfolding insert
mem-insert j k xs = elim (Bool-cases (mem k xs)) [
  | inl p ↦ rw (p) (same (Bool-cases (text_eq j k)) p)
  | inr p ↦ rw (p) (mem-append_one j k xs)
]
  where
    same :
        (text_eq j k ≡ true) ⊎ (text_eq j k ≡ false)
        → mem k xs ≡ true
        → mem j xs ≡ (mem j xs || text_eq j k)
    same (inl q) p = rw ((text_eq_iff j k).0 q, p) refl
    same (inr q) p = ground arith

pub nodup-append_one :
    (k : Text) (xs : List Text) → mem k xs ≡ false → nodup xs ≡ true → nodup (xs ++ k ∷ []) ≡ true
unfolding nodup mem
nodup-append_one k [] h n = refl
nodup-append_one k (x ∷ xs) h n =
    ground (arith, nodup-append_one k xs, mem-append_one x k xs, text_eq_iff x k, text_eq_iff k x)

pub nodup-insert : (k : Text) (xs : List Text) → nodup xs ≡ true → nodup (insert k xs) ≡ true
unfolding insert
nodup-insert k xs n = elim (Bool-cases (mem k xs)) [
  | inl p ↦ rw (p) n
  | inr p ↦ rw (p) (nodup-append_one k xs p n)
]

pub nodup-insert_all : (ks xs : List Text) → nodup xs ≡ true → nodup (insert_all ks xs) ≡ true
unfolding insert_all
nodup-insert_all [] xs n = n
nodup-insert_all (k ∷ ks) xs n = nodup-insert_all ks (insert k xs) (nodup-insert k xs n)

pub mem-insert_all :
    (j : Text) (ks xs : List Text) → mem j (insert_all ks xs) ≡ (mem j xs || mem j ks)
unfolding insert_all mem
mem-insert_all j [] xs = ground arith
mem-insert_all j (k ∷ ks) xs = ground (arith, mem-insert_all j ks (insert k xs), mem-insert j k xs)

pub length-insert : (k : Text) (xs : List Text) → length xs ≤ length (insert k xs)
unfolding insert
length-insert k xs = ground (arith, length-append xs (k ∷ []))

pub length-insert_all : (ks xs : List Text) → length xs ≤ length (insert_all ks xs)
unfolding insert_all
length-insert_all [] xs = omega arith
length-insert_all (k ∷ ks) xs =
    omega (arith, length-insert k xs, length-insert_all ks (insert k xs))

pub length-insert_new :
    (k : Text) (xs : List Text) → mem k xs ≡ false → length (insert k xs) ≡ length xs + 1
unfolding insert
length-insert_new k xs h = rw (h) (length-append xs (k ∷ []))
