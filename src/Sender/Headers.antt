-- ===== src/Sender/Headers.antt =====
-- pkg/sender/headers.go. url.QueryUnescape is a parameter.
pub mod Laws
use otel_aws_log_processor.Prelude.{
  List, [], ◌∷◌, Option, none, some, if◌then◌else◌, is_empty, Text, trim_space, split, cut_first,
}
use otel_aws_log_processor.Prelude.Assoc.{put, put_all}
use otel_aws_log_processor.Utils.Env.{Environ}

abbrev pub Headers : Type 0
Headers = List (Text × Text)

module _ (query_unescape : Text → Option Text) where
  abbrev unescaped : Text → Text
  unescaped v = elim (query_unescape v) [ none ↦ v | some u ↦ u ]

  abbrev pub add_split : Option (Text × Text) → Headers → Headers
  add_split none headers = headers
  add_split (some (k, v)) headers =
      if is_empty (trim_space k)
      then headers
      else put (trim_space k) (unescaped (trim_space v)) headers

  -- One round of the loop; a pair without "=" or with an empty key is passed over.
  unfoldable pub add_pair : Text → Headers → Headers
  unfolding put
  add_pair pair headers =
      let pair' = trim_space pair in
      if is_empty pair' then headers else add_split (cut_first pair' b'=') headers

  unfoldable pub add_pairs : List Text → Headers → Headers
  unfolding add_pair
  add_pairs [] headers = headers
  add_pairs (p ∷ ps) headers = add_pairs ps (add_pair p headers)

  unfoldable pub parse_headers : Text → Headers
  unfolding add_pairs
  parse_headers s =
      let s' = trim_space s in if is_empty s' then [] else add_pairs (split s' b',') []

  unfoldable pub general : Environ → Headers
  unfolding parse_headers
  general env =
      if is_empty (trim_space (env "OTEL_EXPORTER_OTLP_HEADERS"))
      then (if is_empty (trim_space (env "OTLP_HEADERS"))
          then []
          else put_all (parse_headers (env "OTLP_HEADERS")) [])
      else put_all (parse_headers (env "OTEL_EXPORTER_OTLP_HEADERS")) []

  unfoldable pub parse_headers_from_env : Environ → Headers
  unfolding parse_headers general
  parse_headers_from_env env =
      if is_empty (trim_space (env "OTEL_EXPORTER_OTLP_LOGS_HEADERS"))
      then general env
      else put_all (parse_headers (env "OTEL_EXPORTER_OTLP_LOGS_HEADERS")) (general env)
