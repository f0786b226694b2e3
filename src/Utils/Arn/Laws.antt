-- ===== src/Utils/Arn/Laws.antt =====
-- ParseRegionAccountFromARN of pkg/utils/otel_utils.go on ARNs put together of fields.
use otel_aws_log_processor.Prelude.{
  ℕ, ◌≡◌, refl, ◌<◌, Bool, true, false, List, [], ◌∷◌, ◌++◌, arith, ◌==◌, if◌then◌else◌, leb,
  length, any, Text, txt, push_head, split,
}
use otel_aws_log_processor.Utils.Conversion.{is_blank}
use otel_aws_log_processor.Utils.Arn.{region_account, parse_region_account}

-- A field of an ARN other than the last has no colon.
abbrev pub has_colon : Text → Bool
has_colon s = any (λ c. c == b':') s

split-field :
    (w rest : Text) → has_colon w ≡ false → split (w ++ b':' ∷ rest) b':' ≡ w ∷ split rest b':'
unfolding split
split-field [] rest h = refl
split-field (c ∷ w) rest h =
    rw (split-field w rest (ground arith)) (field_head c (w ∷ split rest b':') (ground arith))
  where
    field_head :
        (c : ℕ) (ws : List Text)
        → (c == b':') ≡ false
        → (if c == b':' then [] ∷ ws else push_head c ws) ≡ push_head c ws
    field_head c ws h = rw (h) refl

push_head-nonempty : (c : ℕ) (ws : List Text) → 0 < length (push_head c ws)
push_head-nonempty c [] = omega arith
push_head-nonempty c (w ∷ ws) = omega arith

split-nonempty : (s : Text) → 0 < length (split s b':')
unfolding split
split-nonempty [] = omega arith
split-nonempty (c ∷ s) = ground (arith, push_head-nonempty c (split s b':'))

not_blank : (w rest : Text) → is_blank (w ++ b':' ∷ rest) ≡ false
unfolding txt
not_blank [] rest = refl
not_blank (c ∷ []) rest = ground arith
not_blank (c ∷ d ∷ w) rest = ground arith

-- arn:partition:service:region:account:resource
abbrev pub arn_of : Text → Text → Text → Text → Text → Text → Text
arn_of a b c region account resource =
    a ++ b':' ∷ (b ++ b':' ∷ (c ++ b':' ∷ (region ++ b':' ∷ (account ++ b':' ∷ resource))))

region_account-long :
    (a b c region account : Text) (rest : List Text)
    → 0 < length rest
    → region_account (a ∷ b ∷ c ∷ region ∷ account ∷ rest) ≡ (region, account)
region_account-long a b c region account rest h = rw (long) refl
  where
    long : leb 6 (length (a ∷ b ∷ c ∷ region ∷ account ∷ rest)) ≡ true
    long = ground arith

split-arn_of :
    (a b c region account resource : Text)
    → has_colon a ≡ false
    → has_colon b ≡ false
    → has_colon c ≡ false
    → has_colon region ≡ false
    → has_colon account ≡ false
    → split (arn_of a b c region account resource) b':'
      ≡ a ∷ b ∷ c ∷ region ∷ account ∷ split resource b':'
split-arn_of a b c region account resource p q r s t =
    rw
      (
        split-field a (b ++ b':' ∷ (c ++ b':' ∷ (region ++ b':' ∷ (account ++ b':' ∷ resource)))) p,
        split-field b (c ++ b':' ∷ (region ++ b':' ∷ (account ++ b':' ∷ resource))) q,
        split-field c (region ++ b':' ∷ (account ++ b':' ∷ resource)) r,
        split-field region (account ++ b':' ∷ resource) s,
        split-field account resource t,
      )
      refl

-- From an ARN that is put together of five fields without colons and a resource of any form, the
-- region and the account are read back.
pub parse_region_account-arn_of :
    (a b c region account resource : Text)
    → has_colon a ≡ false
    → has_colon b ≡ false
    → has_colon c ≡ false
    → has_colon region ≡ false
    → has_colon account ≡ false
    → parse_region_account (arn_of a b c region account resource) ≡ (region, account)
unfolding parse_region_account
parse_region_account-arn_of a b c region account resource p q r s t =
    rw
      (
        parse_region_account,
        not_blank a (b ++ b':' ∷ (c ++ b':' ∷ (region ++ b':' ∷ (account ++ b':' ∷ resource)))),
        split-arn_of a b c region account resource p q r s t,
      )
      (region_account-long a b c region account (split resource b':') (split-nonempty resource))
