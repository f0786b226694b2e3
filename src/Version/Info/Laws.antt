-- ===== src/Version/Info/Laws.antt =====
-- The change date of pkg/version/version.go, and the provenance that it rests on
use otel_aws_log_processor.Prelude.{
  ◌+◌, ◌*◌, ◌≤◌, ◌<◌, ◌≡◌, inl, inr, [], refl, true, Option, none, some, arith, is_empty, Text,
  Bool-cases, Option-cases, Sum-cases, guarded_lem, txt, text_eq, to_lower, trim_space, trim_prefix,
  has_prefix, equal_fold, ◌||◌, Bool, true, false,
}
use otel_aws_log_processor.License.Quota.{Time, second}
use otel_aws_log_processor.Version.Host.{BuildHost, product_genesis_epoch, change_period_years}
use otel_aws_log_processor.Version.Info.{
  Info, get, release_time, change_date, is_apache_converted, is_past, since_genesis,
}
use otel_aws_log_processor.Version.Provenance.{
  ReleaseClaims, parse_and_verify_release_token, resolve_release_signature, metadata_mismatch,
  mismatch_unless, digest_error, digest_mismatch, dates_match, both_close, parse_any_date,
  product_matches, version_matches, commit_matches, compiled_as, evaluate_provenance, judged,
}

since_genesis-floor :
    (o : Option Time) (r : Time) → since_genesis o ≡ some r → product_genesis_epoch ≤ r
since_genesis-floor o r p = ground arith

none_some_lem {ℓ} : {A : Type ℓ} {C : Type 0} (r : A) → none ≡ some r → C
none_some_lem r p = cc

pub release_time-floor :
    (b : BuildHost) (i : Info) (r : Time) → release_time b i ≡ some r → product_genesis_epoch ≤ r
unfolding release_time
release_time-floor b i r p = ground (arith, since_genesis-floor _ r)

-- The version without its "v", and the digest without the name of the algorithm
abbrev unprefixed : Text → Text
unprefixed v = trim_prefix (trim_space v) (txt "v")

abbrev bare_digest : Text → Text
bare_digest d = trim_prefix (to_lower (trim_space d)) (txt "sha256:")

-- A release date, and the time three years later
abbrev pub ChangedBefore : BuildHost → Option Time → Time → Type 0
ChangedBefore b o t = (r : Time) × (o ≡ some r) × (b.add_years r change_period_years < t)

is_past-ChangedBefore :
    (b : BuildHost) (i : Info) (t : Time)
    → is_past (change_date b i) t ≡ true
    → ChangedBefore b (release_time b i) t
unfolding change_date
is_past-ChangedBefore b i t p = elim (Option-cases (release_time b i)) [
  | inl q ↦ ground (arith, q, p)
  | inr (r, q) ↦ (r, q, ground (arith, q, p))
]

-- Two dates that can be read, at most two seconds apart
abbrev pub AreClose : Option Time → Option Time → Type 0
AreClose o o' =
    (t : Time) × (u : Time) × (o ≡ some t)
    × (o' ≡ some u)
    × (t ≤ u + 2 * second)
    × (u ≤ t + 2 * second)

both_close-AreClose : (o o' : Option Time) → both_close o o' ≡ true → AreClose o o'
both_close-AreClose none o' p = ground (arith, p)
both_close-AreClose (some t) none p = ground (arith, p)
both_close-AreClose (some t) (some u) p = (t, u, refl, refl, ground (arith, p), ground (arith, p))

dates_match-Close :
    (b : BuildHost) (x y : Text)
    → dates_match b x y ≡ true
    → text_eq (trim_space x) (trim_space y) ≡ false
    → AreClose (parse_any_date b x) (parse_any_date b y)
unfolding dates_match
dates_match-Close b x y p q =
    both_close-AreClose (parse_any_date b x) (parse_any_date b y) (ground (arith, p, q))

-- What is compared of the binary and the signed claims. A version that is empty or "dev", a commit
-- that is empty or "none" on the side of the binary, and what the claims leave out, are not
-- compared, nor is the digest of a binary whose file cannot be found or read.
pub record MatchesClaims (b : BuildHost) (version commit date : Text) (c : ReleaseClaims)
    : Type 0 where
  pub product :
      is_empty c.product ≡ false
      → text_eq c.product (txt "*") ≡ false
      → text_eq c.product (txt "all") ≡ false
      → text_eq (to_lower c.product) (to_lower (txt "otel-aws-log-processor")) ≡ true
  pub same_version :
      is_empty (unprefixed version) ≡ false
      → text_eq (unprefixed version) (txt "dev") ≡ false
      → text_eq (unprefixed version) (unprefixed c.version) ≡ true
  pub same_commit :
      is_empty (trim_space commit) ≡ false
      → text_eq (trim_space commit) (txt "none") ≡ false
      → is_empty (trim_space c.git_commit) ≡ false
      → (has_prefix (trim_space c.git_commit) (trim_space commit)
          || has_prefix (trim_space commit) (trim_space c.git_commit))
        ≡ true
  pub same_date :
      text_eq (trim_space date) (trim_space c.build_date) ≡ false
      → AreClose (parse_any_date b date) (parse_any_date b c.build_date)
  pub same_digest :
      (path digest : Text)
      → is_empty c.binary_digest ≡ false
      → b.executable ≡ some path
      → is_empty path ≡ false
      → b.file_digest path ≡ some digest
      → text_eq (bare_digest c.binary_digest) (bare_digest digest) ≡ true

mismatch-none :
    (v : Bool) (m : Text) (rest : Option Text)
    → mismatch_unless v m rest ≡ none
    → (v ≡ true) × (rest ≡ none)
mismatch-none true m rest p = (refl, p)
mismatch-none false m rest p = ground (arith, p)

digest-none :
    (b : BuildHost) (signed path digest : Text)
    → digest_error signed (digest_mismatch b signed) ≡ none
    → is_empty signed ≡ false
    → b.executable ≡ some path
    → is_empty path ≡ false
    → b.file_digest path ≡ some digest
    → text_eq (bare_digest signed) (bare_digest digest) ≡ true
digest-none b signed path digest p s e n d = ground (arith, p, s, e, n, d)

metadata_mismatch-MatchesClaims :
    (b : BuildHost) (version commit date : Text) (c : ReleaseClaims)
    → metadata_mismatch b version commit date c ≡ none
    → MatchesClaims b version commit date c
unfolding metadata_mismatch equal_fold
metadata_mismatch-MatchesClaims b version commit date c p =
    let (product, p1) =
      mismatch-none (product_matches c.product)
        (compiled_as "Product mismatch: binary expects 'otel-aws-log-processor" [] c.product) _ p in
    let (same_version, p2) =
      mismatch-none (version_matches version c.version)
        (compiled_as "Version mismatch: binary compiled as '" version c.version) _ p1 in
    let (same_commit, p3) =
      mismatch-none (commit_matches commit c.git_commit)
        (compiled_as "Commit mismatch: binary compiled from '" commit c.git_commit) _ p2 in
    let (same_date, p4) =
      mismatch-none (dates_match b date c.build_date)
        (compiled_as "Build date mismatch: binary compiled with date '" date c.build_date) _ p3 in
    record {
      product = λ x y z. ground (arith, product, x, y, z);
      same_version = λ x y. ground (arith, same_version, x, y);
      same_commit = λ x y z. ground (arith, same_commit, x, y, z);
      same_date = dates_match-Close b date c.build_date same_date;
      same_digest = λ path digest. digest-none b c.binary_digest path digest p4;
    }

-- What a verified provenance rests on: the signature was accepted, and the binary matches the
-- signed claims.
abbrev pub Attested : BuildHost → Text → Text → Text → Type 0
Attested b version commit date =
    (c : ReleaseClaims) × (parse_and_verify_release_token b (resolve_release_signature b).0 []
      ≡ inr c)
    × MatchesClaims b version commit date c

judged-verified :
    (source : Text) (c : ReleaseClaims) (o : Option Text)
    → (judged source c o).verified ≡ true
    → o ≡ none
judged-verified source c none p = refl
judged-verified source c (some e) p = cc

pub evaluate_provenance-Attested :
    (b : BuildHost) (version commit date : Text)
    → (evaluate_provenance b version commit date).verified ≡ true
    → Attested b version commit date
unfolding evaluate_provenance
evaluate_provenance-Attested b version commit date p =
    elim (Bool-cases (is_empty (resolve_release_signature b).0)) [
      | inl q ↦ ground (arith, q, p)
      | inr q ↦
          elim (Sum-cases (parse_and_verify_release_token b (resolve_release_signature b).0 [])) [
            | inl (e, r) ↦ ground (arith, q, r, p)
            | inr (c, r) ↦ (
              c,
              r,
              metadata_mismatch-MatchesClaims b version commit date c (
                  judged-verified (resolve_release_signature b).1 c
                    (metadata_mismatch b version commit date c) (ground (arith, q, r, p))),
            )
          ]
    ]

-- A binary that claims to be converted to Apache 2.0 is an attested release: its release token was
-- accepted and matches the binary's product, version, commit, build date and digest, as far as the
-- binary and the claims have them, and the release date is not before the genesis of the product
-- and more than three years ago.
pub is_apache_converted-Attested :
    (b : BuildHost) (t : Time)
    → is_apache_converted b (get b) t ≡ true
    → Attested b (get b).version (get b).git_commit (get b).build_date
      × ((r : Time) × (release_time b (get b) ≡ some r)
          × (product_genesis_epoch ≤ r)
          × (b.add_years r change_period_years < t))
unfolding is_apache_converted get
is_apache_converted-Attested b t p =
    let (v, q) = guarded_lem (get b).provenance.verified (is_past (change_date b (get b)) t) p in
    let (r, e, l) = is_past-ChangedBefore b (get b) t q in
    (
      evaluate_provenance-Attested b (get b).version (get b).git_commit (get b).build_date v,
      (r, e, release_time-floor b (get b) r e, l),
    )
