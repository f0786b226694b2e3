-- ===== src/License/Crl.antt =====
-- ResolveOfflineCRL of pkg/license/verifier.go
use otel_aws_log_processor.Prelude.{
  Bool, true, false, not, ◌&&◌, List, [], ◌∷◌, ◌++◌, Option, none, some, ◌⊎◌, inl, inr,
  if◌then◌else◌, is_empty, Text, txt, trim_space,
}
use otel_aws_log_processor.License.Error.{Error}
use otel_aws_log_processor.License.Host.{Host, FileInfo, ResolvedCrl}

abbrev root_files : Host → Text → List Text
root_files h root =
    if is_empty root
    then []
    else h.build.join_path root (txt "crl.divcrl")
      ∷ h.build.join_path root (txt "otel-aws-log-processor.divcrl")
      ∷ h.build.join_path root (txt "revocations.divcrl")
      ∷ h.build.join_path root (txt ".divcrl")
      ∷ []

abbrev beside : Host → Text → List Text
beside h dir =
    h.build.join_path dir (txt "crl.divcrl")
    ∷ h.build.join_path dir (txt "otel-aws-log-processor.divcrl")
    ∷ h.build.join_path dir (txt "revocations.divcrl")
    ∷ []

abbrev executable_dir_files : Host → Option Text → List Text
executable_dir_files h none = []
executable_dir_files h (some path) = if is_empty path then [] else beside h (h.build.dir path)

abbrev working_files : List Text
working_files =
    txt "crl.divcrl"
    ∷ txt "otel-aws-log-processor.divcrl"
    ∷ txt "revocations.divcrl"
    ∷ txt ".divcrl"
    ∷ []

unfoldable pub crl_candidates : Host → List Text
crl_candidates h =
    root_files h (trim_space (h.env "LAMBDA_TASK_ROOT"))
    ++ (executable_dir_files h h.build.executable ++ working_files)

-- A file that is there, and neither a directory nor a symbolic link
abbrev is_plain_file : Option FileInfo → Bool
is_plain_file none = false
is_plain_file (some f) = not f.is_dir && not f.is_symlink

abbrev resolved_at : Host → Text → Error ⊎ ResolvedCrl → Error ⊎ ResolvedCrl
resolved_at h path rest = elim (is_plain_file (h.lstat path)) [
  | false ↦ rest
  | true ↦ elim (h.resolve_crl path) [ inl e ↦ rest | inr c ↦ inr c ]
]

unfoldable pub first_candidate : Host → List Text → Error ⊎ ResolvedCrl
first_candidate h [] = h.resolve_default_crl
first_candidate h (p ∷ ps) = resolved_at h p (first_candidate h ps)

abbrev pub from_environment : Host → Error ⊎ ResolvedCrl
from_environment h =
    if not (is_empty (trim_space (h.env "DIVMORA_CRL")))
    then h.resolve_crl (trim_space (h.env "DIVMORA_CRL"))
    else if not (is_empty (trim_space (h.env "DIVMORA_CRL_FILE")))
    then h.resolve_crl (trim_space (h.env "DIVMORA_CRL_FILE"))
    else first_candidate h (crl_candidates h)

abbrev pub first_explicit : Host → List Text → Error ⊎ ResolvedCrl
first_explicit h [] = from_environment h
first_explicit h (s ∷ ss) = if is_empty (trim_space s) then first_explicit h ss else h.resolve_crl s

-- The programmatic override, or else the first explicit source, or else the environment's
unfoldable pub resolve_offline_crl : Host → Text → List Text → Error ⊎ ResolvedCrl
resolve_offline_crl h override sources =
    if is_empty override
    then first_explicit h sources
    else inr (record { content = override; source = txt "programmatic_override" })
