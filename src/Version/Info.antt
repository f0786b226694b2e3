-- ===== src/Version/Info.antt =====
-- Info of pkg/version/version.go. The fields that name the Go toolchain are left out.
pub mod Laws
use otel_aws_log_processor.Prelude.{
  ℕ, Bool, true, false, not, ◌&&◌, ◌||◌, List, [], ◌∷◌, Option, none, some, ltb, if◌then◌else◌,
  is_empty, Text, txt, text_eq,
}
use otel_aws_log_processor.License.Quota.{Time}
use otel_aws_log_processor.Version.Host.{
  BuildHost, BuildInfo, product_genesis_epoch, change_period_years,
}
use otel_aws_log_processor.Version.Provenance.{
  ReleaseClaims, ReleaseProvenance, first_time, evaluate_provenance,
}

pub record Info : Type 0 where
  pub version : Text
  pub git_commit : Text
  pub build_date : Text
  pub release_signature : Text
  pub provenance : ReleaseProvenance

-- A setting replaces the value as long as that is the default.
unfoldable pub from_settings : Text → Text → List (Text × Text) → Text → Text
from_settings key default [] v = v
from_settings key default ((k, s) ∷ ss) v =
    from_settings key default ss (if text_eq k key && text_eq v default then s else v)

abbrev main_version : BuildInfo → Text → Text
main_version b v =
    if text_eq v (txt "dev")
      && not (is_empty b.main_version)
      && not (text_eq b.main_version (txt "(devel)"))
    then b.main_version
    else v

abbrev pub current_version : BuildHost → Text
current_version h = elim h.build_info [ none ↦ h.version | some b ↦ main_version b h.version ]

abbrev pub current_setting : Option BuildInfo → Text → Text → Text → Text
current_setting none key default v = v
current_setting (some b) key default v = from_settings key default b.settings v

abbrev current_commit : BuildHost → Text
current_commit h = current_setting h.build_info (txt "vcs.revision") (txt "none") h.git_commit

abbrev current_date : BuildHost → Text
current_date h = current_setting h.build_info (txt "vcs.time") (txt "unknown") h.build_date

unfoldable pub get : BuildHost → Info
unfolding evaluate_provenance
get h = record {
  version = current_version h;
  git_commit = current_commit h;
  build_date = current_date h;
  release_signature = h.release_signature;
  provenance = evaluate_provenance h (current_version h) (current_commit h) (current_date h);
}

abbrev signed_date : Option ReleaseClaims → Text
signed_date none = []
signed_date (some c) = c.build_date

-- The date that counts: the signed one if the release is verified and has one
unfoldable pub attested_date : Info → Text
attested_date i =
    if i.provenance.verified && not (is_empty (signed_date i.provenance.signed_claims))
    then signed_date i.provenance.signed_claims
    else i.build_date

abbrev pub since_genesis : Option Time → Option Time
since_genesis none = none
since_genesis (some t) = if ltb t product_genesis_epoch then none else some t

unfoldable pub release_time : BuildHost → Info → Option Time
unfolding attested_date
release_time h i =
    let s = attested_date i in
    if is_empty s || text_eq s (txt "unknown")
    then none
    else since_genesis
        (first_time (h.parse_rfc3339 s ∷ h.parse_date s ∷ h.parse_rfc3339_nano s ∷ []))

unfoldable pub change_date : BuildHost → Info → Option Time
unfolding release_time
change_date h i = elim (release_time h i) [
  | none ↦ none
  | some t ↦ some (h.add_years t change_period_years)
]

abbrev pub is_past : Option Time → Time → Bool
is_past none now = false
is_past (some t) now = ltb t now

unfoldable pub is_apache_converted : BuildHost → Info → Time → Bool
unfolding change_date
is_apache_converted h i now = if i.provenance.verified then is_past (change_date h i) now else false

unfoldable pub license : BuildHost → Info → Time → Text
unfolding is_apache_converted
license h i now = if is_apache_converted h i now then txt "Apache-2.0" else txt "BSL-1.1"
