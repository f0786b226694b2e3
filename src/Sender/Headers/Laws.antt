-- ===== src/Sender/Headers/Laws.antt =====
-- Which header wins in ParseHeadersFromEnv of pkg/sender/headers.go.
use mathlib.Core.Path.{subst}
use otel_aws_log_processor.Prelude.{
  ◌≡◌, refl, ap, ◌∙◌, Bool, true, false, ◌||◌, List, [], ◌∷◌, Option, none, some, if◌then◌else◌,
  is_empty, Text, text_eq, text_eq_iff, arith, Bool-cases, inl, inr, ◌⊎◌, trim_space, split,
  cut_first,
}
use otel_aws_log_processor.Prelude.Assoc.{lookup, put, put_all, lookup-put}
use otel_aws_log_processor.Prelude.Sets.{mem, nodup}
use otel_aws_log_processor.Utils.Env.{Environ}
use otel_aws_log_processor.Sender.Headers.{
  Headers, add_split, add_pair, add_pairs, parse_headers, general, parse_headers_from_env,
}

abbrev pub names : Headers → List Text
names [] = []
names ((k, v) ∷ hs) = k ∷ names hs

abbrev pub or_else : Option Text → Option Text → Option Text
or_else none o = o
or_else (some v) o = some v

mem-put :
    (k j v : Text) (hs : Headers) → mem j (names (put k v hs)) ≡ (mem j (names hs) || text_eq j k)
unfolding mem put
mem-put k j v [] = ground arith
mem-put k j v ((i, w) ∷ hs) =
    ground (arith, mem-put k j v hs, text_eq_iff i k, text_eq_iff j i, text_eq_iff j k)

nodup-put :
    (k v : Text) (hs : Headers) → nodup (names hs) ≡ true → nodup (names (put k v hs)) ≡ true
unfolding nodup mem put
nodup-put k v [] h = refl
nodup-put k v ((i, w) ∷ hs) h = ground (arith, nodup-put k v hs, mem-put k i v hs, text_eq_iff i k)

lookup-absent : (k : Text) (hs : Headers) → mem k (names hs) ≡ false → lookup k hs ≡ none
unfolding mem lookup
lookup-absent k [] h = refl
lookup-absent k ((i, w) ∷ hs) h =
    ground (arith, lookup-absent k hs, text_eq_iff k i, text_eq_iff i k)

rest_once :
    (i v : Text) (hs : Headers) → nodup (names ((i, v) ∷ hs)) ≡ true → nodup (names hs) ≡ true
unfolding nodup
rest_once i v hs h = ground arith

head_once :
    (i v : Text) (hs : Headers) → nodup (names ((i, v) ∷ hs)) ≡ true → mem i (names hs) ≡ false
unfolding nodup
head_once i v hs h = ground arith

lookup-put_all :
    (k : Text) (from into : Headers)
    → nodup (names from) ≡ true
    → lookup k (put_all from into) ≡ or_else (lookup k from) (lookup k into)
unfolding put_all nodup lookup
lookup-put_all k [] into h = refl
lookup-put_all k ((i, v) ∷ from) into h =
    lookup-put_all k from (put i v into) (rest_once i v from h)
    ∙ rw (lookup-put i k v into) (by_key (Bool-cases (text_eq i k)))
  where
    by_key :
        (text_eq i k ≡ true) ⊎ (text_eq i k ≡ false)
        → or_else (lookup k from) (if text_eq i k then some v else lookup k into)
          ≡ or_else (if text_eq i k then some v else lookup k from) (lookup k into)
    by_key (inl p) =
        rw
          (
            p,
            subst (λ j. lookup j from ≡ none) ((text_eq_iff i k).0 p)
                (lookup-absent i from (head_once i v from h)),
          )
          refl
    by_key (inr p) = rw (p) refl

by_presence :
    (k : Text) (b : Bool) (xs ys : Headers) (o : Option Text) (hs : Headers)
    → lookup k xs ≡ o
    → lookup k ys ≡ lookup k hs
    → lookup k (if b then xs else ys) ≡ (if b then o else lookup k (if b then [] else hs))
by_presence k true xs ys o hs h l = h
by_presence k false xs ys o hs h l = l

module _ (query_unescape : Text → Option Text) where
  abbrev HasOnce : Headers → Type 0
  HasOnce hs = nodup (names hs) ≡ true

  if-HasOnce :
      (b : Bool) (xs ys : Headers) → HasOnce xs → HasOnce ys → HasOnce (if b then xs else ys)
  if-HasOnce true xs ys h k = h
  if-HasOnce false xs ys h k = k

  add_split-HasOnce :
      (o : Option (Text × Text)) (hs : Headers)
      → HasOnce hs
      → HasOnce (add_split query_unescape o hs)
  add_split-HasOnce none hs h = h
  add_split-HasOnce (some (k, v)) hs h =
      if-HasOnce (is_empty (trim_space k)) _ _ h (nodup-put (trim_space k) _ hs h)

  add_pairs-HasOnce :
      (ps : List Text) (hs : Headers) → HasOnce hs → HasOnce (add_pairs query_unescape ps hs)
  unfolding add_pairs add_pair
  add_pairs-HasOnce [] hs h = h
  add_pairs-HasOnce (p ∷ ps) hs h = add_pairs-HasOnce ps _ (
      if-HasOnce (is_empty (trim_space p)) _ _ h
        (add_split-HasOnce (cut_first (trim_space p) b'=') hs h))

  parse_headers-HasOnce : (s : Text) → HasOnce (parse_headers query_unescape s)
  unfolding parse_headers nodup
  parse_headers-HasOnce s =
      if-HasOnce (is_empty (trim_space s)) [] _ refl
        (add_pairs-HasOnce (split (trim_space s) b',') [] refl)

  -- The headers of an environment variable, none if it is blank.
  abbrev pub headers_of : Text → Headers
  headers_of v = if is_empty (trim_space v) then [] else parse_headers query_unescape v

  lookup-headers_of :
      (k v : Text) (into : Headers)
      → lookup k
          (if is_empty (trim_space v) then into else put_all (parse_headers query_unescape v) into)
        ≡ or_else (lookup k (headers_of v)) (lookup k into)
  unfolding lookup
  lookup-headers_of k v into = elim (Bool-cases (is_empty (trim_space v))) [
    | inl p ↦ rw (p) refl
    | inr p ↦
        rw (p) (lookup-put_all k (parse_headers query_unescape v) into (parse_headers-HasOnce v))
  ]

  or_none : (o : Option Text) → or_else o none ≡ o
  or_none none = refl
  or_none (some v) = refl

  general-lookup :
      (env : Environ) (k : Text)
      → lookup k (general query_unescape env) ≡ (
          if is_empty (trim_space (env "OTEL_EXPORTER_OTLP_HEADERS"))
          then lookup k (headers_of (env "OTLP_HEADERS"))
          else lookup k (headers_of (env "OTEL_EXPORTER_OTLP_HEADERS")))
  unfolding general lookup
  general-lookup env k =
      by_presence k (is_empty (trim_space (env "OTEL_EXPORTER_OTLP_HEADERS"))) _ _
        (lookup k (headers_of (env "OTLP_HEADERS")))
        (parse_headers query_unescape (env "OTEL_EXPORTER_OTLP_HEADERS"))
        (lookup-headers_of k (env "OTLP_HEADERS") [] ∙ or_none _)
        (lookup-put_all k (parse_headers query_unescape (env "OTEL_EXPORTER_OTLP_HEADERS")) []
            (parse_headers-HasOnce (env "OTEL_EXPORTER_OTLP_HEADERS"))
          ∙ or_none _)

  -- Each header comes from the most specific variable that has it: from
  -- OTEL_EXPORTER_OTLP_LOGS_HEADERS if it is there, and else from the general headers, which are
  -- those of OTEL_EXPORTER_OTLP_HEADERS, or of OTLP_HEADERS if that variable is blank.
  pub parse_headers_from_env-lookup :
      (env : Environ) (k : Text)
      → lookup k (parse_headers_from_env query_unescape env)
        ≡ or_else (lookup k (headers_of (env "OTEL_EXPORTER_OTLP_LOGS_HEADERS"))) (
            if is_empty (trim_space (env "OTEL_EXPORTER_OTLP_HEADERS"))
            then lookup k (headers_of (env "OTLP_HEADERS"))
            else lookup k (headers_of (env "OTEL_EXPORTER_OTLP_HEADERS")))
  unfolding parse_headers_from_env
  parse_headers_from_env-lookup env k =
      lookup-headers_of k (env "OTEL_EXPORTER_OTLP_LOGS_HEADERS") (general query_unescape env)
      ∙ ap (or_else (lookup k (headers_of (env "OTEL_EXPORTER_OTLP_LOGS_HEADERS"))))
          (general-lookup env k)
