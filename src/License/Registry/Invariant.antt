-- ===== src/License/Registry/Invariant.antt =====
-- The invariant of the leases of CloudWatchRegistry in pkg/license/cloudwatch_registry.go.
use mathlib.Core.Path.{subst}
use otel_aws_log_processor.Prelude.{
  ℕ, ◌≡◌, refl, sym, ◌∙◌, Bool, true, false, List, [], ◌∷◌, Option, none, some, if◌then◌else◌,
  is_empty, Text, text_eq, arith, length, length-append, All, Bool-cases, Option-cases, inl, inr,
  trim_space,
}
use otel_aws_log_processor.Prelude.Assoc.{lookup, put}
use otel_aws_log_processor.Prelude.Sets.{mem, nodup}
use otel_aws_log_processor.Prelude.Sets.Laws.{
  nodup-insert, nodup-insert_all, nodup-append_one, length-insert_all,
}
use otel_aws_log_processor.Prelude.Chunks.{chunks}
use otel_aws_log_processor.License.Error.{Error}
use otel_aws_log_processor.License.Quota.{Time}
use otel_aws_log_processor.License.Registry.Types.{
  Client, ListPages, GetPages, EntitlementState, CloudWatchRegistry,
}
use otel_aws_log_processor.License.Registry.Fetch.{
  Fetched, fetched, error, arns_of_dimensions, list_candidates, queries, add_results, insert_some,
  read_results, query_chunks, fetch_active_set, query_candidates,
}
use otel_aws_log_processor.License.Registry.Heartbeats.{
  unique_inputs, filter_heartbeats_to_publish, mark_heartbeats_published, publish_chunks,
  publish_heartbeats, or_none,
}
use otel_aws_log_processor.License.Registry.Leases.{
  empty_state, state_of, store, merge_local, learn, merge_lease, merge_failed, fresh_lease,
  refreshed, evaluate_active_count, lease_is_valid, Counted,
}
use otel_aws_log_processor.License.Registry.Count.{
  after_publish, published, register_and_count, entitlement_of, is_denied,
}

-- The cached count of a lease is the number of its ARNs, each known once.
pub record IsCounted (s : EntitlementState) : Type 0 where
  pub once : nodup s.known_arns ≡ true
  pub counted : s.cached_count ≡ length s.known_arns

abbrev HasCounted : Text × EntitlementState → Type 0
HasCounted e = IsCounted e.1

abbrev pub IsConsistent : CloudWatchRegistry → Type 0
IsConsistent r = All HasCounted r.leases

empty-IsCounted : IsCounted empty_state
unfolding nodup
empty-IsCounted = record { once = refl; counted = refl }

lookup-IsCounted :
    (key : Text) (m : List (Text × EntitlementState))
    → All HasCounted m
    → IsCounted (state_of (lookup key m))
unfolding lookup
lookup-IsCounted key [] h = empty-IsCounted
lookup-IsCounted key ((j, s) ∷ m) h = elim (Bool-cases (text_eq j key)) [
  | inl p ↦ rw (p) h.0
  | inr p ↦ rw (p) (lookup-IsCounted key m h.1)
]

put-IsCounted :
    (key : Text) (s : EntitlementState) (m : List (Text × EntitlementState))
    → IsCounted s
    → All HasCounted m
    → All HasCounted (put key s m)
unfolding put
put-IsCounted key s [] c h = (c, tt)
put-IsCounted key s ((j, t) ∷ m) c h = elim (Bool-cases (text_eq j key)) [
  | inl p ↦ rw (p) (c, h.1)
  | inr p ↦ rw (p) (h.0, put-IsCounted key s m c h.1)
]

merge_local-IsCounted :
    (s : EntitlementState) (inputs : List Text) → IsCounted s → IsCounted (merge_local s inputs)
unfolding merge_local
merge_local-IsCounted s inputs c = record {
  once = nodup-insert_all inputs s.known_arns c.once;
  counted = refl;
}

learn-IsCounted : (s : EntitlementState) (a : Text) → IsCounted s → IsCounted (learn s a)
unfolding learn
learn-IsCounted s a c = elim (Bool-cases (mem a s.known_arns)) [
  | inl p ↦ rw (learn, p) c
  | inr p ↦
      rw (learn, p)
        (record {
          once = nodup-append_one a s.known_arns p c.once;
          counted = omega (arith, c.counted, length-append s.known_arns (a ∷ []));
        })
]

merge_lease-IsCounted :
    (s : EntitlementState) (inputs : List Text) → IsCounted s → IsCounted (merge_lease s inputs)
unfolding merge_lease
merge_lease-IsCounted s [] c = c
merge_lease-IsCounted s (a ∷ arns) c =
    merge_lease-IsCounted (learn s a) arns (learn-IsCounted s a c)

merge_failed-IsCounted :
    (s : EntitlementState) (inputs : List Text) → IsCounted s → IsCounted (merge_failed s inputs)
unfolding merge_failed
merge_failed-IsCounted s inputs c = record {
  once = nodup-insert_all inputs s.known_arns c.once;
  counted = ground (arith, c.counted, length-insert_all inputs s.known_arns);
}

fresh_lease-IsCounted :
    (r : CloudWatchRegistry) (inputs active : List Text) (now : Time)
    → nodup active ≡ true
    → IsCounted (fresh_lease r inputs active now)
unfolding fresh_lease
fresh_lease-IsCounted r inputs active now n = record {
  once = nodup-insert_all inputs active n;
  counted = refl;
}

-- The ARNs of an answer are fetched once each.
abbrev FetchedOnce : Fetched → Type 0
FetchedOnce (fetched xs) = nodup xs ≡ true
FetchedOnce (error e) = Unit

if-once :
    (b : Bool) (xs ys : List Text)
    → nodup xs ≡ true
    → nodup ys ≡ true
    → nodup (if b then xs else ys) ≡ true
if-once true xs ys h k = h
if-once false xs ys h k = k

insert_some-once :
    (o : Option Text) (active : List Text)
    → nodup active ≡ true
    → nodup (insert_some o active) ≡ true
insert_some-once none active n = n
insert_some-once (some a) active n = nodup-insert a active n

nodup_nil : nodup [] ≡ true
unfolding nodup
nodup_nil = refl

arns_of_dimensions-once :
    (ds : List (Text × Text)) (found : List Text)
    → nodup found ≡ true
    → nodup (arns_of_dimensions ds found) ≡ true
unfolding arns_of_dimensions
arns_of_dimensions-once [] found n = n
arns_of_dimensions-once ((name, value) ∷ ds) found n =
    arns_of_dimensions-once ds _ (if-once _ _ _ (nodup-insert value found n) n)

list_candidates-once :
    (ps : ListPages) (found : List Text)
    → nodup found ≡ true
    → FetchedOnce (list_candidates ps found)
unfolding list_candidates
list_candidates-once (ListPages.failed m) found n = tt
list_candidates-once (ListPages.last ds) found n = arns_of_dimensions-once ds found n
list_candidates-once (ListPages.page ds more) found n =
    list_candidates-once more (arns_of_dimensions ds found) (arns_of_dimensions-once ds found n)

add_results-once :
    (to_arn : List (Text × Text)) (rs : List (Text × List ℕ)) (active : List Text)
    → nodup active ≡ true
    → nodup (add_results to_arn rs active) ≡ true
unfolding add_results
add_results-once to_arn [] active n = n
add_results-once to_arn ((id, values) ∷ rs) active n =
    add_results-once to_arn rs _ (if-once _ _ _ (insert_some-once (lookup id to_arn) active n) n)

read_results-once :
    (to_arn : List (Text × Text)) (ps : GetPages) (active : List Text)
    → nodup active ≡ true
    → FetchedOnce (read_results to_arn ps active)
unfolding read_results
read_results-once to_arn (GetPages.failed m) active n = tt
read_results-once to_arn (GetPages.last rs) active n = add_results-once to_arn rs active n
read_results-once to_arn (GetPages.page rs more) active n =
    read_results-once to_arn more (add_results to_arn rs active)
      (add_results-once to_arn rs active n)

query_chunks-once :
    (c : Client) (to_arn : List (Text × Text)) (qss : List (List (Text × Text))) (from to : Time)
    (active : List Text)
    → nodup active ≡ true
    → FetchedOnce (query_chunks c to_arn qss from to active)
unfolding query_chunks
query_chunks-once c to_arn [] from to active n = n
query_chunks-once c to_arn (qs ∷ rest) from to active n =
    go (read_results to_arn (c.get_metric_data qs from to) active)
      (read_results-once to_arn (c.get_metric_data qs from to) active n)
      (query_chunks-once c to_arn rest from to)
  where
    go :
        (f : Fetched)
        → FetchedOnce f
        → ((xs : List Text) → nodup xs ≡ true → FetchedOnce (query_chunks c to_arn rest from to xs))
        → FetchedOnce (elim f as (λ x. Fetched) [
          | error e ↦ error e
          | fetched active' ↦ query_chunks c to_arn rest from to active'
        ])
    go (error e) h k = tt
    go (fetched xs) h k = k xs h

query_candidates-once :
    (c : Client) (r : CloudWatchRegistry) (candidates : List Text) (now : Time)
    → FetchedOnce (query_candidates c r candidates now)
unfolding query_candidates
query_candidates-once c r candidates now =
    query_chunks-once c (queries 0 candidates) _ _ now [] nodup_nil

fetch_active_set-once :
    (c : Client) (r : CloudWatchRegistry) (key : Text) (now : Time)
    → FetchedOnce (fetch_active_set c r key now)
unfolding fetch_active_set
fetch_active_set-once c r key now = go (list_candidates (c.list_metrics key) [])
  where
    go :
        (f : Fetched)
        → FetchedOnce (elim f as (λ x. Fetched) [
          | error e ↦ error e
          | fetched candidates ↦
              if is_empty candidates then fetched [] else query_candidates c r candidates now
        ])
    go (error e) = tt
    go (fetched []) = nodup_nil
    go (fetched (x ∷ xs)) = query_candidates-once c r (x ∷ xs) now

store-IsConsistent :
    (r : CloudWatchRegistry) (key : Text) (s : EntitlementState)
    → IsCounted s
    → IsConsistent r
    → IsConsistent (store r key s)
unfolding store
store-IsConsistent r key s c h = put-IsCounted key s r.leases c h

refreshed-IsConsistent :
    (r : CloudWatchRegistry) (key : Text) (inputs : List Text) (now : Time) (s : EntitlementState)
    (f : Fetched)
    → FetchedOnce f
    → IsCounted s
    → IsConsistent r
    → IsConsistent (refreshed r key inputs now s f).0
unfolding refreshed
refreshed-IsConsistent r key inputs now s (error e) o c h =
    store-IsConsistent r key (merge_failed s inputs) (merge_failed-IsCounted s inputs c) h
refreshed-IsConsistent r key inputs now s (fetched active) o c h =
    store-IsConsistent r key (fresh_lease r inputs active now)
      (fresh_lease-IsCounted r inputs active now o) h

if-IsConsistent :
    (b : Bool) (x y : Counted)
    → IsConsistent x.0
    → IsConsistent y.0
    → IsConsistent (if b then x else y).0
if-IsConsistent true x y h k = h
if-IsConsistent false x y h k = k

evaluate-IsConsistent :
    (c : Client) (r : CloudWatchRegistry) (key : Text) (inputs : List Text) (now : Time)
    → IsConsistent r
    → IsConsistent (evaluate_active_count c r key inputs now).0
unfolding evaluate_active_count
evaluate-IsConsistent c r key inputs now h =
    let s = state_of (lookup key r.leases) in
    let k = lookup-IsCounted key r.leases h in
    if-IsConsistent (lease_is_valid s now) _ _
      (store-IsConsistent r key (merge_lease s inputs) (merge_lease-IsCounted s inputs k) h)
      (refreshed-IsConsistent r key inputs now s (fetch_active_set c r key now)
        (fetch_active_set-once c r key now) k h)

-- Marking heartbeats leaves the leases.
mark-leases :
    (r : CloudWatchRegistry) (key : Text) (arns : List Text) (now : Time)
    → (mark_heartbeats_published r key arns now).leases ≡ r.leases
unfolding mark_heartbeats_published
mark-leases r key [] now = refl
mark-leases r key (a ∷ arns) now =
    mark-leases (record r { last_heartbeats = put _ now r.last_heartbeats }) key arns now

publish_chunks-leases :
    (c : Client) (r : CloudWatchRegistry) (key : Text) (bs : List (List Text)) (now : Time)
    → (publish_chunks c r key bs now).0.leases ≡ r.leases
unfolding publish_chunks
publish_chunks-leases c r key [] now = refl
publish_chunks-leases c r key (arns ∷ rest) now =
    elim (Option-cases (c.put_metric_data key arns now)) [
      | inl p ↦
          rw (publish_chunks, p)
            (publish_chunks-leases c (mark_heartbeats_published r key arns now) key rest now
              ∙ mark-leases r key arns now)
      | inr (m, p) ↦ rw (publish_chunks, p) refl
    ]

published-leases :
    (c : Client) (r : CloudWatchRegistry) (key : Text) (arns : List Text) (now : Time)
    → (published c r key arns now).0.leases ≡ r.leases
unfolding published publish_heartbeats
published-leases c r key [] now = refl
published-leases c r key (a ∷ arns) now =
    publish_chunks-leases c r key (or_none (chunks (length (a ∷ arns)) 20 (a ∷ arns))) now

after_publish-IsConsistent :
    (c : Client) (key : Text) (inputs : List Text) (now : Time)
    (p : CloudWatchRegistry × Option Error)
    → IsConsistent p.0
    → IsConsistent (after_publish c key inputs now p).0
unfolding after_publish
after_publish-IsConsistent c key inputs now (r, err) h = go (is_denied err)
  where
    go :
        (o : Option Error)
        → IsConsistent
            (elim o as (λ x. Counted) [
              | some e ↦ (r, 0, some e)
              | none ↦ evaluate_active_count c r key inputs now
            ]).0
    go (some e) = h
    go none = evaluate-IsConsistent c r key inputs now h

-- Whatever CloudWatch answers, errors included, registering resources keeps every lease's cached
-- count equal to the number of the ARNs that it knows, each of them once.
pub register_and_count-IsConsistent :
    (client : Option Client) (r : CloudWatchRegistry) (key : Text) (arns : List Text) (now : Time)
    → IsConsistent r
    → IsConsistent (register_and_count client r key arns now).0
unfolding register_and_count trim_space entitlement_of
register_and_count-IsConsistent none r key arns now h =
    store-IsConsistent r (entitlement_of key)
      (merge_local (state_of (lookup (entitlement_of key) r.leases)) (unique_inputs arns []))
      (merge_local-IsCounted (state_of (lookup (entitlement_of key) r.leases))
        (unique_inputs arns []) (lookup-IsCounted (entitlement_of key) r.leases h))
      h
register_and_count-IsConsistent (some c) r key arns now h =
    let inputs = unique_inputs arns [] in
    let due = filter_heartbeats_to_publish r (entitlement_of key) inputs now in
    after_publish-IsConsistent c (entitlement_of key) inputs now
      (published c r (entitlement_of key) due now)
      (subst (All HasCounted) (sym (published-leases c r (entitlement_of key) due now)) h)
