-- ===== src/Model/Laws.antt =====
-- What the calls of pkg/model/otel_models.go leave in an attribute list.
use mathlib.Core.List.{append_assoc, append-nil}
use otel_aws_log_processor.Prelude.{
  ◌≡◌, refl, sym, Bool, true, false, not, ◌&&◌, ◌||◌, List, [], ◌∷◌, ◌++◌, if◌then◌else◌, is_empty,
  Text, String, All, All-append, arith, Bool-cases, inl, inr,
}
use otel_aws_log_processor.Prelude.Int.{ℤ, pos, eq_ℤ}
use otel_aws_log_processor.Prelude.Floats.{Floats}
use otel_aws_log_processor.Utils.Conversion.{is_blank}
use otel_aws_log_processor.Model.{
  AnyValue, Attribute, string_value, int_value, float_value, string_attr, add_attr, add_int_attr,
  add_float_attr, Add, attr, int_attr, float_attr, perform, has_key, ensure_region_account,
}

module _ (fl : Floats) where
  open fl use {Float, is_zero}

  -- A value that a log line really had: no empty string, no "-", no zero.
  pub data HasContent : AnyValue Float → Type 0 where
    string : (s : Text) → is_blank s ≡ false → HasContent (string_value s)
    int : (i : ℤ) → eq_ℤ i (pos 0) ≡ false → HasContent (int_value i)
    float : (x : Float) → is_zero x ≡ false → HasContent (float_value x)

  abbrev pub HasSetValue : Attribute Float → Type 0
  HasSetValue a = HasContent a.value

  add_attr-HasContent :
      (attrs : List (Attribute Float)) (k : String) (v : Text)
      → All HasSetValue attrs
      → All HasSetValue (add_attr attrs k v)
  unfolding add_attr
  add_attr-HasContent attrs k v h = elim (Bool-cases (is_blank v)) [
    | inl p ↦ rw (p) h
    | inr p ↦ rw (p) (All-append HasSetValue attrs (string_attr k v ∷ []) h (string v p, tt))
  ]

  add_int_attr-HasContent :
      (attrs : List (Attribute Float)) (k : String) (v : ℤ)
      → All HasSetValue attrs
      → All HasSetValue (add_int_attr attrs k v)
  unfolding add_int_attr
  add_int_attr-HasContent attrs k v h = elim (Bool-cases (eq_ℤ v (pos 0))) [
    | inl p ↦ rw (p) h
    | inr p ↦ rw (p) (All-append HasSetValue attrs _ h (int v p, tt))
  ]

  add_float_attr-HasContent :
      (attrs : List (Attribute Float)) (k : String) (v : Float)
      → All HasSetValue attrs
      → All HasSetValue (add_float_attr fl attrs k v)
  unfolding add_float_attr
  add_float_attr-HasContent attrs k v h = elim (Bool-cases (is_zero v)) [
    | inl p ↦ rw (p) h
    | inr p ↦ rw (p) (All-append HasSetValue attrs _ h (float v p, tt))
  ]

  pub perform-HasContent :
      (attrs : List (Attribute Float)) (adds : List (Add fl))
      → All HasSetValue attrs
      → All HasSetValue (perform fl attrs adds)
  unfolding perform
  perform-HasContent attrs [] h = h
  perform-HasContent attrs (attr k v ∷ adds) h =
      perform-HasContent (add_attr attrs k v) adds (add_attr-HasContent attrs k v h)
  perform-HasContent attrs (int_attr k v ∷ adds) h =
      perform-HasContent (add_int_attr attrs k v) adds (add_int_attr-HasContent attrs k v h)
  perform-HasContent attrs (float_attr k v ∷ adds) h =
      perform-HasContent (add_float_attr fl attrs k v) adds (add_float_attr-HasContent attrs k v h)

module _ {F : Type 0} where
  has_key-append :
      (k : String) (xs ys : List (Attribute F))
      → has_key k (xs ++ ys) ≡ (has_key k xs || has_key k ys)
  has_key-append k [] ys = refl
  has_key-append k (x ∷ xs) ys = ground (arith, has_key-append k xs ys)

  abbrev additions : Bool → Bool → Text → Text → List (Attribute F)
  additions u v region account =
      (if u then string_attr "cloud.account.id" account ∷ [] else [])
      ++ (if v then string_attr "cloud.region" region ∷ [] else [])

  two_steps :
      (u v : Bool) (attrs : List (Attribute F)) (region account : Text)
      → (if v
          then (if u then attrs ++ string_attr "cloud.account.id" account ∷ [] else attrs)
            ++ string_attr "cloud.region" region ∷ []
          else (if u then attrs ++ string_attr "cloud.account.id" account ∷ [] else attrs))
        ≡ attrs ++ additions u v region account
  two_steps true true attrs region account = append_assoc attrs _ _
  two_steps true false attrs region account = refl
  two_steps false true attrs region account = refl
  two_steps false false attrs region account = sym (append-nil attrs)

  abbrev wants : String → Text → List (Attribute F) → Bool
  wants k v attrs = not (has_key k attrs) && not (is_empty v)

  ensure-additions :
      (attrs : List (Attribute F)) (region account : Text)
      → ensure_region_account attrs region account
        ≡ attrs
          ++ additions
              (wants "cloud.account.id" account attrs)
              (wants "cloud.region" region attrs)
              region
              account
  unfolding ensure_region_account
  ensure-additions attrs region account =
      two_steps (wants "cloud.account.id" account attrs) (wants "cloud.region" region attrs) attrs
        region account

  has_account-additions :
      (attrs : List (Attribute F)) (u v : Bool) (region account : Text)
      → has_key "cloud.account.id" (attrs ++ additions u v region account)
        ≡ (has_key "cloud.account.id" attrs || u)
  has_account-additions attrs true true region account =
      has_key-append "cloud.account.id" attrs (additions true true region account)
  has_account-additions attrs true false region account =
      has_key-append "cloud.account.id" attrs (additions true false region account)
  has_account-additions attrs false true region account =
      has_key-append "cloud.account.id" attrs (additions false true region account)
  has_account-additions attrs false false region account =
      has_key-append "cloud.account.id" attrs (additions false false region account)

  has_region-additions :
      (attrs : List (Attribute F)) (u v : Bool) (region account : Text)
      → has_key "cloud.region" (attrs ++ additions u v region account)
        ≡ (has_key "cloud.region" attrs || v)
  has_region-additions attrs true true region account =
      has_key-append "cloud.region" attrs (additions true true region account)
  has_region-additions attrs true false region account =
      has_key-append "cloud.region" attrs (additions true false region account)
  has_region-additions attrs false true region account =
      has_key-append "cloud.region" attrs (additions false true region account)
  has_region-additions attrs false false region account =
      has_key-append "cloud.region" attrs (additions false false region account)

  has_account-ensure :
      (attrs : List (Attribute F)) (region account : Text)
      → has_key "cloud.account.id" (ensure_region_account attrs region account)
        ≡ (has_key "cloud.account.id" attrs || not (is_empty account))
  has_account-ensure attrs region account =
      rw
        (
          ensure-additions attrs region account,
          has_account-additions attrs (wants "cloud.account.id" account attrs)
              (wants "cloud.region" region attrs) region account,
        )
        (ground arith)

  has_region-ensure :
      (attrs : List (Attribute F)) (region account : Text)
      → has_key "cloud.region" (ensure_region_account attrs region account)
        ≡ (has_key "cloud.region" attrs || not (is_empty region))
  has_region-ensure attrs region account =
      rw
        (
          ensure-additions attrs region account,
          has_region-additions attrs (wants "cloud.account.id" account attrs)
              (wants "cloud.region" region attrs) region account,
        )
        (ground arith)

  nothing_wanted :
      (attrs : List (Attribute F)) (region account : Text)
      → wants "cloud.account.id" account attrs ≡ false
      → wants "cloud.region" region attrs ≡ false
      → ensure_region_account attrs region account ≡ attrs
  nothing_wanted attrs region account p q =
      rw (ensure-additions attrs region account, p, q) (append-nil attrs)

  -- What is missing and known, with its value: the account, then the region
  abbrev pub missing : List (Attribute F) → Text → Text → List (Attribute F)
  missing attrs region account =
      (if not (has_key "cloud.account.id" attrs) && not (is_empty account)
        then (record { key = "cloud.account.id"; value = string_value account }) ∷ []
        else [])
      ++ (if not (has_key "cloud.region" attrs) && not (is_empty region)
          then (record { key = "cloud.region"; value = string_value region }) ∷ []
          else [])

  -- EnsureRegionAccountAttributes leaves the attributes that came in as they are, and adds after
  -- them just the account and the region that are missing and that the call was given, each with
  -- the value that was given. There is an account, or a region, exactly if one came in or the call
  -- was given one; and a second call with the same arguments adds nothing.
  pub ensure_region_account_lem :
      (attrs : List (Attribute F)) (region account : Text)
      → (ensure_region_account attrs region account ≡ attrs ++ missing attrs region account)
        × ((has_key "cloud.account.id" (ensure_region_account attrs region account)
              ≡ (has_key "cloud.account.id" attrs || not (is_empty account)))
            × ((has_key "cloud.region" (ensure_region_account attrs region account)
                  ≡ (has_key "cloud.region" attrs || not (is_empty region)))
                × (ensure_region_account (ensure_region_account attrs region account) region account
                    ≡ ensure_region_account attrs region account)))
  ensure_region_account_lem attrs region account = (
    ensure-additions attrs region account,
    (
      has_account-ensure attrs region account,
      (
        has_region-ensure attrs region account,
        nothing_wanted (ensure_region_account attrs region account) region account
            (rw (has_account-ensure attrs region account) (ground arith))
            (rw (has_region-ensure attrs region account) (ground arith)),
      ),
    ),
  )
