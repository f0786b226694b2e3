-- ===== src/Version/Provenance.antt =====
-- pkg/version/provenance.go, without the signing of releases
use otel_aws_log_processor.Prelude.{
  ◌+◌, ◌*◌, Bool, true, false, not, ◌&&◌, ◌||◌, List, [], ◌∷◌, ◌++◌, Option, none, some, ◌⊎◌, inl,
  inr, leb, ◌==◌, if◌then◌else◌, is_empty, Text, txt, text_eq, concat, trim_space, to_lower,
  equal_fold, String, has_prefix, trim_prefix, byte_len,
}
use otel_aws_log_processor.Prelude.Strconv.{format_nat}
use otel_aws_log_processor.License.Error.{Error, plain}
use otel_aws_log_processor.License.Quota.{Time, second}
use otel_aws_log_processor.Version.Host.{BuildHost, SignedRelease}

pub data ProvenanceStatus : Type 0 where
  verified_official unattested_custom tampered_metadata tampered_signature : ProvenanceStatus

pub record ReleaseClaims : Type 0 where
  pub product : Text
  pub version : Text
  pub git_commit : Text
  pub build_date : Text
  pub release_date : Text
  pub binary_digest : Text
  pub authority : Text
  pub authority_id : Text

pub record ReleaseProvenance : Type 0 where
  pub status : ProvenanceStatus
  pub verified : Bool
  pub authority : Text
  pub authority_id : Text
  pub source : Text
  pub error : Text
  pub signed_claims : Option ReleaseClaims

-- The first time that a format yields
abbrev pub first_time : List (Option Time) → Option Time
first_time [] = none
first_time (none ∷ ts) = first_time ts
first_time (some t ∷ ts) = some t

unfoldable pub parse_any_date : BuildHost → Text → Option Time
parse_any_date h s =
    first_time (h.parse_rfc3339 s ∷ h.parse_rfc3339_nano s ∷ h.parse_zulu s ∷ h.parse_date s ∷ [])

-- |t1 - t2| ≤ 2 s
abbrev close : Time → Time → Bool
close t1 t2 = leb t1 (t2 + 2 * second) && leb t2 (t1 + 2 * second)

abbrev pub both_close : Option Time → Option Time → Bool
both_close none o = false
both_close (some t1) none = false
both_close (some t1) (some t2) = close t1 t2

unfoldable pub dates_match : BuildHost → Text → Text → Bool
unfolding parse_any_date
dates_match h date1 date2 =
    if text_eq (trim_space date1) (trim_space date2)
    then true
    else both_close (parse_any_date h date1) (parse_any_date h date2)

abbrev default_release_public_key : Text
default_release_public_key = txt "K8GS3G93kHK5kfav+jxrLwZMIh710EWVyL0tvHLfE5A="

abbrev either_decoding : Option Text → Option Text → Error ⊎ Text
either_decoding (some k) o = inr k
either_decoding none (some k) = inr k
either_decoding none none = inl (plain (txt "failed to decode release verification public key"))

abbrev sized : Error ⊎ Text → Error ⊎ Text
sized (inl e) = inl e
sized (inr k) =
    if byte_len k == 32
    then inr k
    else inl (
        plain (
          concat (
            txt "invalid release verification public key size: expected 32 bytes, got "
            ∷ format_nat (byte_len k)
            ∷ [])))

-- The text of the base64 error is left out of the first message.
unfoldable pub get_release_verification_public_key : BuildHost → Error ⊎ Text
get_release_verification_public_key h = elim h.key_override [
  | some k ↦ inr k
  | none ↦ sized (
      either_decoding (h.decode_std default_release_public_key)
        (h.decode_raw_url default_release_public_key))
]

abbrev date_text : BuildHost → Time → Text
date_text h t = if t == 0 then [] else h.format_rfc3339 t

abbrev to_claims : BuildHost → SignedRelease → ReleaseClaims
to_claims h r = record {
  product = r.product;
  version = r.version;
  git_commit = r.git_commit;
  build_date = date_text h r.build_date;
  release_date = date_text h r.release_date;
  binary_digest = r.binary_digest;
  authority = r.authority;
  authority_id = r.key_id;
}

abbrev claims_result : BuildHost → Error ⊎ SignedRelease → Error ⊎ ReleaseClaims
claims_result h (inl e) = inl e
claims_result h (inr r) = inr (to_claims h r)

abbrev is_canonical : BuildHost → Text → Bool
is_canonical h token =
    has_prefix token (h.release_prefix ++ txt ".") || has_prefix token (txt "-----BEGIN")

abbrev verify_under : BuildHost → Text → Error ⊎ Text → Error ⊎ ReleaseClaims
verify_under h token (inl e) = inl e
verify_under h token (inr key) =
    if is_canonical h token
    then claims_result h (h.verify_release token key)
    else inl (
        plain (
          txt
            "malformed release token: expected canonical DIVREL1 compact token or armored PEM block"))

-- An empty key stands for the resolved one.
unfoldable pub parse_and_verify_release_token : BuildHost → Text → Text → Error ⊎ ReleaseClaims
unfolding get_release_verification_public_key
parse_and_verify_release_token h token key =
    if is_empty (trim_space token)
    then inl (plain (txt "release token cannot be empty"))
    else verify_under h (trim_space token)
        (if is_empty key then get_release_verification_public_key h else inr key)

abbrev task_root_files : BuildHost → Text → List Text
task_root_files h root =
    if is_empty root
    then []
    else h.join_path root (txt "release.sig")
      ∷ h.join_path root (txt "otel-aws-log-processor.sig")
      ∷ []

abbrev executable_files : BuildHost → Option Text → List Text
executable_files h none = []
executable_files h (some path) =
    h.join_path (h.dir path) (txt "release.sig")
    ∷ h.join_path (h.dir path) (txt "otel-aws-log-processor.sig")
    ∷ []

unfoldable pub sidecar_candidates : BuildHost → List Text
sidecar_candidates h =
    (txt "release.sig" ∷ txt "otel-aws-log-processor.sig" ∷ [])
    ++ (task_root_files h (trim_space (h.env "LAMBDA_TASK_ROOT"))
        ++ executable_files h h.executable)

abbrev content_of : Option Text → Text
content_of none = []
content_of (some s) = trim_space s

-- The first file that is there and not blank
unfoldable pub read_sidecar : BuildHost → List Text → Text × Text
read_sidecar h [] = ([], txt "none")
read_sidecar h (p ∷ ps) =
    let s = content_of (h.read_file p) in
    let rest = read_sidecar h ps in
    if is_empty s then rest else (s, concat (txt "sidecar file (" ∷ p ∷ txt ")" ∷ []))

-- The token and its source
unfoldable pub resolve_release_signature : BuildHost → Text × Text
unfolding sidecar_candidates read_sidecar
resolve_release_signature h =
    let sig = trim_space h.release_signature in
    let env_sig = trim_space (h.env "DIVMORA_RELEASE_SIGNATURE") in
    if not (is_empty sig) && not (text_eq sig (txt "none"))
    then (sig, txt "embedded (ldflags)")
    else if not (is_empty env_sig)
    then (env_sig, txt "environment (DIVMORA_RELEASE_SIGNATURE)")
    else read_sidecar h (sidecar_candidates h)

abbrev pub product_matches : Text → Bool
product_matches p =
    is_empty p
    || text_eq p (txt "*")
    || text_eq p (txt "all")
    || equal_fold p (txt "otel-aws-log-processor")

abbrev pub normal_version : Text → Text
normal_version v = trim_prefix (trim_space v) (txt "v")

abbrev pub version_matches : Text → Text → Bool
version_matches actual expected =
    is_empty (normal_version actual)
    || text_eq (normal_version actual) (txt "dev")
    || text_eq (normal_version actual) (normal_version expected)

abbrev commit_prefix : Text → Text → Bool
commit_prefix actual expected =
    is_empty actual
    || text_eq actual (txt "none")
    || is_empty expected
    || has_prefix expected actual
    || has_prefix actual expected

abbrev pub commit_matches : Text → Text → Bool
commit_matches actual expected = commit_prefix (trim_space actual) (trim_space expected)

abbrev normal_digest : Text → Text
normal_digest d = trim_prefix (to_lower (trim_space d)) (txt "sha256:")

-- The digest that was computed, if it is another than the signed one
abbrev digest_differs : Text → Option Text → Option Text
digest_differs signed none = none
digest_differs signed (some d) =
    if text_eq (normal_digest signed) (normal_digest d) then none else some d

abbrev digest_at : BuildHost → Option Text → Option Text
digest_at h none = none
digest_at h (some path) = if is_empty path then none else h.file_digest path

abbrev pub digest_mismatch : BuildHost → Text → Option Text
digest_mismatch h signed =
    if is_empty signed then none else digest_differs signed (digest_at h h.executable)

abbrev pub digest_error : Text → Option Text → Option Text
digest_error signed none = none
digest_error signed (some d) = some (
    concat (
      txt "Binary digest mismatch: computed "
      ∷ d
      ∷ txt ", but signed claims specify "
      ∷ signed
      ∷ []))

abbrev pub compiled_as : String → Text → Text → Text
compiled_as what a b =
    concat (txt what ∷ a ∷ txt "', but signed claims specify '" ∷ b ∷ txt "'" ∷ [])

abbrev pub mismatch_unless : Bool → Text → Option Text → Option Text
mismatch_unless true message rest = rest
mismatch_unless false message rest = some message

-- The first difference between the binary's version, commit and date, and its signed claims
unfoldable pub metadata_mismatch : BuildHost → Text → Text → Text → ReleaseClaims → Option Text
unfolding dates_match
metadata_mismatch h version commit date c =
    mismatch_unless (product_matches c.product)
      (compiled_as "Product mismatch: binary expects 'otel-aws-log-processor" [] c.product)
      (mismatch_unless (version_matches version c.version)
        (compiled_as "Version mismatch: binary compiled as '" version c.version)
        (mismatch_unless (commit_matches commit c.git_commit)
          (compiled_as "Commit mismatch: binary compiled from '" commit c.git_commit)
          (mismatch_unless (dates_match h date c.build_date)
            (compiled_as "Build date mismatch: binary compiled with date '" date c.build_date)
            (digest_error c.binary_digest (digest_mismatch h c.binary_digest)))))

abbrev pub without_claims : ProvenanceStatus → Text → Text → ReleaseProvenance
without_claims status source error = record {
  status = status;
  verified = false;
  authority = [];
  authority_id = [];
  source = source;
  error = error;
  signed_claims = none;
}

abbrev pub judged : Text → ReleaseClaims → Option Text → ReleaseProvenance
judged source c (some error) = record {
  status = tampered_metadata;
  verified = false;
  authority = c.authority;
  authority_id = c.authority_id;
  source = source;
  error = error;
  signed_claims = some c;
}
judged source c none = record {
  status = verified_official;
  verified = true;
  authority = c.authority;
  authority_id = c.authority_id;
  source = source;
  error = [];
  signed_claims = some c;
}

-- EvaluateProvenance(nil) of a binary with this version, commit and build date
unfoldable pub evaluate_provenance : BuildHost → Text → Text → Text → ReleaseProvenance
unfolding resolve_release_signature parse_and_verify_release_token metadata_mismatch
evaluate_provenance h version commit date =
    let (sig, source) = resolve_release_signature h in
    if is_empty sig
    then without_claims unattested_custom source
        (txt "No cryptographic release signature present; running as custom/unattested build")
    else elim (parse_and_verify_release_token h sig []) [
      | inl e ↦ without_claims tampered_signature source (
          concat
            (txt "Release signature verification failed (" ∷ source ∷ txt "): " ∷ e.message ∷ []))
      | inr c ↦ judged source c (metadata_mismatch h version commit date c)
    ]
