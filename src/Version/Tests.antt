-- ===== src/Version/Tests.antt =====
-- A signed release and a custom build
use otel_aws_log_processor.Prelude.{
  ◌+◌, ◌*◌, ◌<◌, ◌≤◌, ◌≡◌, refl, true, [], ◌++◌, Option, none, some, inr, Text, codes, txt, String,
  is_empty, if◌then◌else◌, trim_space, trim_prefix, has_prefix, equal_fold,
}
use otel_aws_log_processor.License.Quota.{Time, second}
use otel_aws_log_processor.Version.Host.{
  BuildHost, SignedRelease, product_genesis_epoch, change_period_years,
}
use otel_aws_log_processor.Version.Info.{get, release_time, is_apache_converted}
use otel_aws_log_processor.Version.Info.Laws.{is_apache_converted-Attested, Attested}

abbrev pub no_variables : String → Text
no_variables name = []

-- A release of 2027 at a time when it is signed, and a custom build without a signature
abbrev released : SignedRelease
released = record {
  product = codes "otel-aws-log-processor";
  version = codes "1.0.0";
  git_commit = codes "abc";
  build_date = 63_950_000_000 * second;
  release_date = 0;
  binary_digest = [];
  authority = codes "release";
  key_id = [];
}

abbrev date_of : Text → Option Time
date_of s = if is_empty s then none else some (63_950_000_000 * second)

abbrev pub build_of : Text → BuildHost
build_of signature = record {
  version = codes "v1.0.0";
  git_commit = codes "abc";
  build_date = codes "2027";
  release_signature = signature;
  build_info = none;
  key_override = some (codes "key");
  env = no_variables;
  executable = none;
  read_file = λ p. none;
  join_path = λ a b. a ++ b;
  dir = λ a. a;
  file_digest = λ p. none;
  decode_std = λ s. none;
  decode_raw_url = λ s. none;
  parse_rfc3339 = date_of;
  parse_rfc3339_nano = date_of;
  parse_zulu = date_of;
  parse_date = date_of;
  format_rfc3339 = λ t. codes "2027";
  add_years = λ t n. t + n * 31_556_952 * second;
  release_prefix = codes "DIVREL1";
  verify_release = λ token key. inr released;
}

abbrev signed : BuildHost
signed = build_of (codes "DIVREL1.a.b")

pub official-verified : (get signed).provenance.verified ≡ true
unfolding get trim_space txt has_prefix equal_fold trim_prefix
official-verified = refl

pub official-released : release_time signed (get signed) ≡ some (63_950_000_000 * second)
unfolding get release_time trim_space txt has_prefix equal_fold trim_prefix
official-released = refl

official-converted : is_apache_converted signed (get signed) (64_900_000_000 * second) ≡ true
unfolding get is_apache_converted trim_space txt has_prefix equal_fold trim_prefix
official-converted = refl

is_apache_converted-Attested_example :
    Attested signed (get signed).version (get signed).git_commit (get signed).build_date
    × ((r : Time) × (release_time signed (get signed) ≡ some r)
        × (product_genesis_epoch ≤ r)
        × (signed.add_years r change_period_years < 64_900_000_000 * second))
is_apache_converted-Attested_example =
    is_apache_converted-Attested signed (64_900_000_000 * second) official-converted
