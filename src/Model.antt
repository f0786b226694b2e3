-- ===== src/Model.antt =====
-- pkg/model/otel_models.go. A pointer that may be nil is an option; the keys are literals.
pub mod Laws
use text.Mathlib.Text.{◌==◌ as str_eq}
use otel_aws_log_processor.Prelude.{
  ℕ, Bool, not, ◌&&◌, List, [], ◌∷◌, ◌++◌, Option, none, some, if◌then◌else◌, any, is_empty, Text,
  String,
}
use otel_aws_log_processor.Prelude.Int.{ℤ, pos, eq_ℤ}
use otel_aws_log_processor.Prelude.Strconv.{format_int}
use otel_aws_log_processor.Prelude.Floats.{Floats}
use otel_aws_log_processor.Utils.Conversion.{is_blank}

module _ (F : Type 0) where
  pub record AnyValue : Type 0 where
    pub string_value : Option Text
    pub int_value : Option Text
    pub double_value : Option F
    pub bool_value : Option Bool

  pub record Attribute : Type 0 where
    pub key : String
    pub value : AnyValue

  pub record LogRecord : Type 0 where
    pub time_unix_nano : Text
    pub severity_number : ℕ
    pub severity_text : Text
    pub body : Text  -- the map's one entry, under "stringValue"
    pub attributes : List Attribute
    pub trace_id : Text
    pub span_id : Text

  pub record Scope : Type 0 where
    pub name : Text
    pub version : Text

  pub record ScopeLog : Type 0 where
    pub scope : Scope
    pub log_records : List LogRecord

  pub record ResourceLog : Type 0 where
    pub resource : List Attribute
    pub scope_logs : List ScopeLog

  pub record Payload : Type 0 where
    pub resource_logs : List ResourceLog

module _ {F : Type 0} where
  abbrev pub string_value : Text → AnyValue F
  string_value s = record {
    string_value = some s;
    int_value = none;
    double_value = none;
    bool_value = none;
  }

  abbrev pub int_value : ℤ → AnyValue F
  int_value i = record {
    string_value = none;
    int_value = some (format_int i);
    double_value = none;
    bool_value = none;
  }

  abbrev pub float_value : F → AnyValue F
  float_value x = record {
    string_value = none;
    int_value = none;
    double_value = some x;
    bool_value = none;
  }

  abbrev pub string_attr : String → Text → Attribute F
  string_attr k s = record { key = k; value = string_value s }

  unfoldable pub add_attr : List (Attribute F) → String → Text → List (Attribute F)
  add_attr attrs key value =
      if not (is_blank value) then attrs ++ string_attr key value ∷ [] else attrs

  -- AddIntAttr and AddInt64Attr
  unfoldable pub add_int_attr : List (Attribute F) → String → ℤ → List (Attribute F)
  add_int_attr attrs key value =
      if not (eq_ℤ value (pos 0))
      then attrs ++ (record { key = key; value = int_value value }) ∷ []
      else attrs

  abbrev pub has_key : String → List (Attribute F) → Bool
  has_key k = any (λ a. str_eq a.key k)

  abbrev pub add_missing : Bool → String → Text → List (Attribute F) → List (Attribute F)
  add_missing present k v attrs =
      if not present && not (is_empty v) then attrs ++ string_attr k v ∷ [] else attrs

  -- Both tests are made on the attributes that came in.
  unfoldable pub ensure_region_account : List (Attribute F) → Text → Text → List (Attribute F)
  ensure_region_account attrs region account =
      let has_account = has_key "cloud.account.id" attrs in
      let has_region = has_key "cloud.region" attrs in
      add_missing has_region "cloud.region" region
        (add_missing has_account "cloud.account.id" account attrs)

module _ (fl : Floats) where
  open fl use {Float, is_zero}

  unfoldable pub add_float_attr : List (Attribute Float) → String → Float → List (Attribute Float)
  add_float_attr attrs key value =
      if not (is_zero value)
      then attrs ++ (record { key = key; value = float_value value }) ∷ []
      else attrs

  -- The calls `model.Add…Attr(&attrs, key, value)` of a BuildAttributes method, in their order.
  pub data Add : Type 0 where
    attr : String → Text → Add
    int_attr : String → ℤ → Add
    float_attr : String → Float → Add

  unfoldable pub perform : List (Attribute Float) → List Add → List (Attribute Float)
  unfolding add_attr add_int_attr add_float_attr
  perform attrs [] = attrs
  perform attrs (attr k v ∷ adds) = perform (add_attr attrs k v) adds
  perform attrs (int_attr k v ∷ adds) = perform (add_int_attr attrs k v) adds
  perform attrs (float_attr k v ∷ adds) = perform (add_float_attr attrs k v) adds
