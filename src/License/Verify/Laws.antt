-- ===== src/License/Verify/Laws.antt =====
-- The status and the error of a verification in pkg/license/verifier.go
use otel_aws_log_processor.Prelude.{
  ◌≡◌, inl, inr, refl, Bool, true, false, not, ◌⊎◌, Option, none, some, arith, is_empty, Text,
  if◌then◌else◌, trim_space,
}
use otel_aws_log_processor.License.Claims.{Claims}
use otel_aws_log_processor.License.Error.{Error}
use otel_aws_log_processor.License.Host.{Host, Validator, Failure, Verified}
use otel_aws_log_processor.License.Quota.{Time}
use otel_aws_log_processor.License.Verify.{
  VerifyResult, inspect, active_status, on_failure, judged_at, on_success, verify_with_validator,
  verify_by, parse_and_verify_at, parse_and_verify_with_crl, parse_and_verify_with_crl_url,
  time_or_now,
}

-- The result has a valid status, or an error and no valid status.
abbrev pub is_sound : VerifyResult → Bool
is_sound (none, some e) = true
is_sound (some s, some e) = not s.valid
is_sound (none, none) = false
is_sound (some s, none) = s.valid

is_sound-if :
    (b : Bool) (r q : VerifyResult)
    → is_sound r ≡ true
    → is_sound q ≡ true
    → is_sound (if b then r else q) ≡ true
is_sound-if true r q p p' = p
is_sound-if false r q p p' = p'

on_failure-is_sound :
    (h : Host) (t : Time) (f : Failure) (c : Error ⊎ Claims) → is_sound (on_failure h t f c) ≡ true
unfolding on_failure active_status
on_failure-is_sound h t f (inl e) = refl
on_failure-is_sound h t f (inr c) = ground arith

judged_at-is_sound :
    (h : Host) (token : Text) (t : Time) (v : Failure ⊎ Verified)
    → is_sound (judged_at h token t v) ≡ true
unfolding judged_at active_status on_success
judged_at-is_sound h token t (inl f) = on_failure-is_sound h t f (inspect h token)
judged_at-is_sound h token t (inr v) = refl

verify_with_validator-is_sound :
    (h : Host) (token : Text) (v : Validator) (t : Time)
    → is_sound (verify_with_validator h token v t) ≡ true
unfolding verify_with_validator
verify_with_validator-is_sound h token v t = ground (
  arith,
  judged_at-is_sound h (trim_space token) (time_or_now h t)
      (v (trim_space token) (time_or_now h t)),
)

verify_by-is_sound :
    (h : Host) (token what : Text) (t : Time) (v : Error ⊎ Validator)
    → is_sound (verify_by h token what t v) ≡ true
unfolding verify_by
verify_by-is_sound h token what t (inl e) = refl
verify_by-is_sound h token what t (inr v) = verify_with_validator-is_sound h token v t

pub parse_and_verify_at-is_sound :
    (h : Host) (override : Text) (v : Option Validator) (token key : Text) (t : Time)
    → is_sound (parse_and_verify_at h override v token key t).1 ≡ true
unfolding parse_and_verify_at
parse_and_verify_at-is_sound h override v token key t = verify_by-is_sound h token _ t _

pub parse_and_verify_with_crl-is_sound :
    (h : Host) (override token key : Text) (t : Time) (source : Text)
    → is_sound (parse_and_verify_with_crl h override token key t source) ≡ true
unfolding parse_and_verify_with_crl
parse_and_verify_with_crl-is_sound h override token key t source =
    is_sound-if (is_empty (trim_space token)) _ _ refl
      (verify_by-is_sound h (trim_space token) _ t _)

pub parse_and_verify_with_crl_url-is_sound :
    (h : Host) (override token key : Text) (t : Time) (url : Text)
    → is_sound (parse_and_verify_with_crl_url h override token key t url) ≡ true
unfolding parse_and_verify_with_crl_url
parse_and_verify_with_crl_url-is_sound h override token key t url =
    is_sound-if (is_empty (trim_space token)) _ _ refl (
      is_sound-if (is_empty (trim_space url)) _ _ refl
        (verify_by-is_sound h (trim_space token) _ t _))
