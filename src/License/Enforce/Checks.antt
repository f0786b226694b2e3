-- ===== src/License/Enforce/Checks.antt =====
-- The checks that Enforce makes on a verified license. A check that fails is a Rejection, which the
-- mode turns into an error, a fallback to the free grant, or an invalid status.
pub mod Laws
pub mod Keeps
use otel_aws_log_processor.Prelude.{
  ℕ, Bool, true, false, not, ◌&&◌, ◌||◌, List, [], ◌∷◌, Option, none, some, if◌then◌else◌, is_empty,
  Text, txt, concat, show_list, trim_space, equal_fold,
}
use otel_aws_log_processor.License.Claims.{Claims, meta, get_claims_plan}
use otel_aws_log_processor.License.Error.{Error, Sentinel, plain, wrap, scope_mismatch}
use otel_aws_log_processor.License.Features.{
  is_account_allowed, is_resource_allowed, get_allowed_accounts, get_resources,
}
use otel_aws_log_processor.License.Host.{Host}
use otel_aws_log_processor.License.Status.{ValidationStatus, Reason, bare, assert_feature}
use otel_aws_log_processor.License.Verify.{VerifyResult}
use otel_aws_log_processor.License.Enforce.Context.{Context, is_free}
use otel_aws_log_processor.License.Enforce.NonProd.{wrap_sentinel}

pub record Rejection : Type 0 where
  pub reason : Reason
  pub message : Text
  pub error : Error
  -- an execution outside production falls back to the free grant
  pub falls_back : Bool

unfoldable pub free_status : Context → Text → ValidationStatus
free_status x why = bare true Reason.non_prod_free (
    concat (
      txt "Non-production environment '"
      ∷ x.env
      ∷ txt "' authorized free of charge under BSL 1.1 Additional Use Grant ("
      ∷ why
      ∷ txt ")"
      ∷ []))

unfoldable pub reject : Context → ValidationStatus → Rejection → VerifyResult
unfolding free_status
reject x s r =
    let s' = record s { valid = false; status_reason = r.reason; message = r.message } in
    if x.is_strict
    then (some s', some r.error)
    else if r.falls_back && is_free x
    then (some (free_status x r.message), none)
    else (some s', none)

abbrev caller_message : Option Claims → Text → Text
caller_message c account = concat (
    txt "COMMERCIAL LICENSE ACCOUNT MISMATCH: License is restricted to AWS accounts "
    ∷ show_list (get_allowed_accounts c)
    ∷ txt ", but active Lambda caller account is '"
    ∷ account
    ∷ txt "'"
    ∷ [])

abbrev source_message : Option Claims → Text → Text
source_message c account = concat (
    txt "COMMERCIAL LICENSE SOURCE ACCOUNT MISMATCH: License is restricted to AWS accounts "
    ∷ show_list (get_allowed_accounts c)
    ∷ txt ", but traffic source log record originates from account '"
    ∷ account
    ∷ txt "'"
    ∷ [])

abbrev account_rejection : Reason → Text → Rejection
account_rejection reason m = record {
  reason = reason;
  message = m;
  error = plain m;
  falls_back = true;
}

-- An account that is not known is not checked.
unfoldable pub account_ok : Host → Option Claims → Text → Bool
unfolding is_account_allowed
account_ok h c account = is_empty account || is_account_allowed h.is_account_allowed c account

unfoldable pub caller_check : Host → Option Claims → Text → Option Rejection
unfolding account_ok get_allowed_accounts
caller_check h c account =
    if account_ok h c account
    then none
    else some (account_rejection Reason.account_mismatch (caller_message c account))

unfoldable pub source_check : Host → Option Claims → List Text → Option Rejection
unfolding account_ok get_allowed_accounts
source_check h c [] = none
source_check h c (a ∷ rest) =
    if account_ok h c a
    then source_check h c rest
    else some (account_rejection Reason.source_account_mismatch (source_message c a))

abbrev pub feature_message : Option Claims → Text → Text
feature_message c feature = concat (
    txt "COMMERCIAL LICENSE FEATURE NOT ENTITLED: Feature '"
    ∷ feature
    ∷ txt "' is not authorized by active license tier '"
    ∷ get_claims_plan c
    ∷ txt "'"
    ∷ [])

abbrev pub feature_rejection : ValidationStatus → Text → Error → Rejection
feature_rejection s feature e = record {
  reason = Reason.feature_not_entitled;
  message = feature_message s.claims feature;
  error = wrap (feature_message s.claims feature) e;
  falls_back = false;
}

abbrev pub rejection_of :
    Text → ValidationStatus × Option Error → ValidationStatus × Option Rejection
rejection_of feature (s, none) = (s, none)
rejection_of feature (s, some e) = (s, some (feature_rejection s feature e))

-- AssertFeature changes the claims of the status; a blank name is passed over.
unfoldable pub feature_at :
    Host → Text → Text → ValidationStatus → ValidationStatus × Option Rejection
unfolding assert_feature
feature_at h env feature s =
    if is_empty feature then (s, none) else rejection_of feature (assert_feature h s env feature)

-- The first feature that is not entitled
unfoldable pub feature_check :
    Host → Text → List Text → ValidationStatus → ValidationStatus × Option Rejection
unfolding feature_at
feature_check h env [] s = (s, none)
feature_check h env (f ∷ fs) s =
    let (s', r) = feature_at h env (trim_space f) s in
    elim r [ some e ↦ (s', some e) | none ↦ feature_check h env fs s' ]

abbrev resource_message : Option Claims → Text → Text
resource_message c arn = concat (
    txt "COMMERCIAL LICENSE RESOURCE NOT ALLOWED: License does not authorize resource '"
    ∷ arn
    ∷ txt "' (allowed: "
    ∷ show_list (get_resources c)
    ∷ txt ")"
    ∷ [])

abbrev resource_rejection : Host → Option Claims → Text → Rejection
resource_rejection h c arn = record {
  reason = Reason.resource_not_allowed;
  message = resource_message c arn;
  error = wrap_sentinel h (resource_message c arn) Sentinel.resource_not_allowed;
  falls_back = false;
}

unfoldable pub resource_ok : Host → Option Claims → Text → Bool
unfolding is_resource_allowed
resource_ok h c arn = is_empty arn || is_resource_allowed h.is_resource_allowed c arn

unfoldable pub resource_check : Host → Option Claims → List Text → Option Rejection
unfolding resource_ok
resource_check h c [] = none
resource_check h c (a ∷ rest) =
    if resource_ok h c (trim_space a)
    then resource_check h c rest
    else some (resource_rejection h c (trim_space a))

abbrev project_message : Text → Text → Text
project_message expected project =
    if is_empty project
    then concat (
        txt "COMMERCIAL LICENSE PROJECT MISMATCH: License authorizes project '"
        ∷ expected
        ∷ txt "' but runtime project is not configured"
        ∷ [])
    else concat (
        txt "COMMERCIAL LICENSE PROJECT MISMATCH: License authorizes project '"
        ∷ expected
        ∷ txt "' but runtime project is '"
        ∷ project
        ∷ txt "'"
        ∷ [])

abbrev project_rejection : Host → Text → Text → Rejection
project_rejection h expected project = record {
  reason = Reason.project_mismatch;
  message = project_message expected project;
  error = wrap_sentinel h (project_message expected project) scope_mismatch;
  falls_back = true;
}

-- The project that the license is restricted to, or ""
unfoldable pub licensed_project : Option Claims → Text
unfolding meta
licensed_project none = []
licensed_project (some c) =
    if is_empty (meta c (txt "project")) then meta c (txt "project_id") else meta c (txt "project")

unfoldable pub project_ok : Text → Text → Bool
unfolding equal_fold
project_ok expected project =
    is_empty expected || (not (is_empty project) && equal_fold expected project)

unfoldable pub project_check : Host → Option Claims → Text → Option Rejection
unfolding licensed_project project_ok
project_check h c project =
    if project_ok (licensed_project c) project
    then none
    else some (project_rejection h (licensed_project c) project)

abbrev pub or_else : Option Rejection → Option Rejection → Option Rejection
or_else none r = r
or_else (some r) r' = some r

unfoldable pub then_resources :
    Host → List Text → ValidationStatus × Option Rejection → ValidationStatus × Option Rejection
unfolding resource_check
then_resources h arns (s, some r) = (s, some r)
then_resources h arns (s, none) = (s, resource_check h s.claims arns)

unfoldable pub scope_rest :
    Host
    → Text
    → List Text
    → List Text
    → ValidationStatus
    → Option Rejection
    → ValidationStatus × Option Rejection
unfolding feature_check then_resources
scope_rest h env features arns s (some r) = (s, some r)
scope_rest h env features arns s none = then_resources h arns (feature_check h env features s)

-- The accounts, the features and the resources, in this order
unfoldable pub scope_check :
    Host
    → Text
    → Text
    → List Text
    → List Text
    → List Text
    → ValidationStatus
    → ValidationStatus × Option Rejection
unfolding caller_check source_check scope_rest
scope_check h env caller sources features arns s =
    scope_rest h env features arns s
      (or_else (caller_check h s.claims caller) (source_check h s.claims sources))
