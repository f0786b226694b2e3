-- ===== src/License/Claims/Laws.antt =====
-- The grace period, the entitlement key and the schema check of pkg/license/model.go.
use otel_aws_log_processor.Prelude.{
  ℕ, ◌+◌, ◌*◌, ◌≤◌, ◌<◌, ◌≡◌, refl, ◌∙◌, Bool, true, false, not, ◌&&◌, List, [], ◌∷◌, Option, none,
  some, ltb, if◌then◌else◌, is_empty, Text, txt, trim_space, arith, Bool-cases, inl, inr, ◌↔◌,
}
use otel_aws_log_processor.Prelude.Int.{ℤ}
use otel_aws_log_processor.Utils.Env.{Environ}
use otel_aws_log_processor.License.Error.{Error}
use otel_aws_log_processor.License.Quota.{Time}
use otel_aws_log_processor.License.Claims.{
  Claims, day, is_zero, is_perpetual, is_expired_at, grace_days, effective_expiration,
  is_in_grace_period_at, meta, under_org, unlicensed_key, claims_key, resolve_entitlement_key,
  require, validate_claims_schema,
}

grace_days-positive : (z : ℤ) → 0 < grace_days z
grace_days-positive z = ground arith

-- When a license that expires is current, in its grace period, or over.
pub data Phase (c : Claims) (t : Time) : Type 0 where
  current :
      t ≤ c.expires_at
      → is_expired_at (some c) t ≡ false
      → is_in_grace_period_at (some c) t ≡ false
      → Phase c t
  grace :
      c.expires_at < t
      → t < effective_expiration (some c)
      → is_expired_at (some c) t ≡ true
      → is_in_grace_period_at (some c) t ≡ true
      → Phase c t
  over :
      effective_expiration (some c) ≤ t
      → is_expired_at (some c) t ≡ true
      → is_in_grace_period_at (some c) t ≡ false
      → Phase c t

expired-ltb :
    (c : Claims) (t : Time)
    → is_perpetual (some c) ≡ false
    → is_expired_at (some c) t ≡ ltb c.expires_at t
unfolding is_perpetual is_expired_at
expired-ltb c t h = rw (is_expired_at, h) refl

grace-ltb :
    (c : Claims) (t : Time)
    → is_perpetual (some c) ≡ false
    → is_in_grace_period_at (some c) t
      ≡ (ltb c.expires_at t && ltb t (effective_expiration (some c)))
unfolding is_perpetual is_expired_at is_in_grace_period_at
grace-ltb c t h = by_test (ltb c.expires_at t) (ltb t (effective_expiration (some c))) h
  where
    by_test :
        (b d : Bool)
        → is_zero c.expires_at ≡ false
        → (if is_zero c.expires_at
            then false
            else if not (if is_zero c.expires_at then false else b)
            then false
            else d)
          ≡ (b && d)
    by_test true d h = rw (h) refl
    by_test false d h = rw (h) refl

effective-sum :
    (c : Claims)
    → is_perpetual (some c) ≡ false
    → effective_expiration (some c) ≡ c.expires_at + grace_days c.grace_period_days * day
unfolding is_perpetual effective_expiration
effective-sum c h = rw (effective_expiration, h) refl

days-long : (n e : ℕ) → 0 < n → e + day ≤ e + n * day
days-long n e h = omega arith

ltb-Phase :
    (c : Claims) (t : Time)
    → is_expired_at (some c) t ≡ ltb c.expires_at t
    → is_in_grace_period_at (some c) t
      ≡ (ltb c.expires_at t && ltb t (effective_expiration (some c)))
    → Phase c t
ltb-Phase c t p q = elim (Bool-cases (ltb c.expires_at t)) [
  | inr u ↦ current (ground arith) (p ∙ u) (q ∙ rw (u) refl)
  | inl u ↦ elim (Bool-cases (ltb t (effective_expiration (some c)))) [
    | inl v ↦ grace (ground arith) (ground arith) (p ∙ u) (q ∙ rw (u, v) refl)
    | inr v ↦ over (ground arith) (p ∙ u) (q ∙ rw (u, v) refl)
  ]
]

-- A license that expires is at each time current, in its grace period or over, as the two tests
-- say; the grace period lasts one day at least.
pub phase :
    (c : Claims) (t : Time)
    → is_perpetual (some c) ≡ false
    → Phase c t × (c.expires_at + day ≤ effective_expiration (some c))
phase c t h = (
  ltb-Phase c t (expired-ltb c t h) (grace-ltb c t h),
  rw (effective-sum c h) (
      days-long (grace_days c.grace_period_days) c.expires_at
        (grace_days-positive c.grace_period_days)),
)

unlicensed_key-nonempty :
    (b : Bool) (env project : Text) → is_empty (unlicensed_key b env project) ≡ false
unfolding unlicensed_key txt
unlicensed_key-nonempty true env project = ground arith
unlicensed_key-nonempty false env project = ground arith

under_org-nonempty :
    (org project : Text) → is_empty project ≡ false → is_empty (under_org org project) ≡ false
unfolding under_org
under_org-nonempty [] project h = h
under_org-nonempty (c ∷ org) project h = refl

if-nonempty :
    (b : Bool) (s d : Text)
    → (b ≡ true → is_empty s ≡ false)
    → is_empty d ≡ false
    → is_empty (if b then s else d) ≡ false
if-nonempty true s d h k = h refl
if-nonempty false s d h k = k

is_given : (s : Text) → not (is_empty s) ≡ true → is_empty s ≡ false
is_given s h = ground arith

claims_key-nonempty :
    (c : Claims) (fallback : Text)
    → is_empty fallback ≡ false
    → is_empty (claims_key c fallback) ≡ false
unfolding claims_key
claims_key-nonempty c fallback h =
    if-nonempty (not (is_empty (meta c (txt "subscription_id")))) _ _
      (is_given (meta c (txt "subscription_id")))
      (if-nonempty (not (is_empty (meta c (txt "project_id")))) _ _
        (λ k.
          under_org-nonempty (trim_space c.customer_org_id) (meta c (txt "project_id"))
            (is_given _ k))
        (if-nonempty (not (is_empty (meta c (txt "project")))) _ _
          (λ k.
            under_org-nonempty (trim_space c.customer_org_id) (meta c (txt "project"))
              (is_given _ k))
          (if-nonempty (not (is_empty c.id)) _ _ (is_given c.id) (
            if-nonempty (not (is_empty (trim_space c.customer_org_id))) _ _
              (is_given (trim_space c.customer_org_id)) h))))

-- Every deployment has an entitlement key to count its resources under: the key is never empty,
-- whatever the claims, the environment and the project are.
pub resolve_entitlement_key-nonempty :
    (is_non_production : Text → Bool) (env : Environ) (c : Option Claims) (stage : Text)
    (project : List Text)
    → is_empty (resolve_entitlement_key is_non_production env c stage project) ≡ false
unfolding resolve_entitlement_key
resolve_entitlement_key-nonempty np env none stage project =
    unlicensed_key-nonempty (np stage) stage _
resolve_entitlement_key-nonempty np env (some c) stage project =
    claims_key-nonempty c _ (unlicensed_key-nonempty (np stage) stage _)

-- A field that the schema wants.
abbrev pub HasRequired : Claims → Type 0
HasRequired c =
    (is_empty c.id ≡ false)
    × ((is_empty c.customer_name ≡ false)
        × ((is_empty c.product ≡ false)
            × ((is_empty c.plan ≡ false) × (is_zero c.issued_at ≡ false))))

require-none :
    (b : Bool) (e : Error) (rest : Option Error)
    → require b e rest ≡ none
    → (b ≡ false) × (rest ≡ none)
require-none true e rest h = ground arith
require-none false e rest h = (refl, h)

require-both :
    (b : Bool) (e : Error) (rest : Option Error) → b ≡ false → rest ≡ none → require b e rest ≡ none
require-both b e rest h k = rw (h, k) refl

-- The schema check passes exactly if the license has an id, a customer's name, a product, a plan
-- and a time of issue.
pub validate_claims_schema-HasRequired :
    (format : Text) (c : Claims) → (validate_claims_schema format c ≡ none) ↔ HasRequired c
unfolding validate_claims_schema
validate_claims_schema-HasRequired format c = (
  λ h.
      let (a, h1) = require-none (is_empty c.id) _ _ h in
      let (b, h2) = require-none (is_empty c.customer_name) _ _ h1 in
      let (d, h3) = require-none (is_empty c.product) _ _ h2 in
      let (f, h4) = require-none (is_empty c.plan) _ _ h3 in
      let (g, h5) = require-none (is_zero c.issued_at) _ _ h4 in (a, (b, (d, (f, g)))),
  λ h. require-both (is_empty c.id) _ _ h.0 (
      require-both (is_empty c.customer_name) _ _ h.1.0 (
        require-both (is_empty c.product) _ _ h.1.1.0 (
          require-both (is_empty c.plan) _ _ h.1.1.1.0
            (require-both (is_zero c.issued_at) _ _ h.1.1.1.1 refl)))),
)
