-- ===== src/Version/Host.antt =====
-- What pkg/version takes from its build and from other packages: the variables that -ldflags sets,
-- debug.ReadBuildInfo, the environment and the files, package time, and the external license
-- library's VerifyRelease and ComputeFileDigest. A time is the number of nanoseconds since year 1.
use otel_aws_log_processor.Prelude.{ℕ, ◌*◌, List, Option, ◌⊎◌, Text}
use otel_aws_log_processor.Utils.Env.{Environ}
use otel_aws_log_processor.License.Error.{Error}
use otel_aws_log_processor.License.Quota.{Time, second}

pub record BuildInfo : Type 0 where
  pub main_version : Text
  pub settings : List (Text × Text)

-- The library's release claims; a date may be the zero time.
pub record SignedRelease : Type 0 where
  pub product : Text
  pub version : Text
  pub git_commit : Text
  pub build_date : Time
  pub release_date : Time
  pub binary_digest : Text
  pub authority : Text
  pub key_id : Text

pub record BuildHost : Type 0 where
  pub version : Text
  pub git_commit : Text
  pub build_date : Text
  pub release_signature : Text
  pub build_info : Option BuildInfo
  pub key_override : Option Text
  pub env : Environ
  pub executable : Option Text
  pub read_file : Text → Option Text
  pub join_path : Text → Text → Text
  pub dir : Text → Text
  pub file_digest : Text → Option Text
  pub decode_std : Text → Option Text
  pub decode_raw_url : Text → Option Text
  pub parse_rfc3339 : Text → Option Time
  pub parse_rfc3339_nano : Text → Option Time
  pub parse_zulu : Text → Option Time
  pub parse_date : Text → Option Time
  pub format_rfc3339 : Time → Text
  pub add_years : Time → ℕ → Time
  -- ProtocolPrefixRelease
  pub release_prefix : Text
  -- VerifyRelease of a token under a ring of one key
  pub verify_release : Text → Text → Error ⊎ SignedRelease

-- ProductGenesisEpoch, September 1, 2026
abbrev pub product_genesis_epoch : Time
product_genesis_epoch = 63_923_817_600 * second

abbrev pub change_period_years : ℕ
change_period_years = 3
