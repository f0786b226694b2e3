-- ===== src/License/Registry/Known.antt =====
-- What RegisterAndCount of pkg/license/cloudwatch_registry.go counts.
use otel_aws_log_processor.Prelude.{
  ◌≡◌, refl, ◌∙◌, Bool, true, false, ◌||◌, List, [], ◌∷◌, Option, none, some, if◌then◌else◌, Text,
  text_eq_refl, arith, Bool-cases, inl, inr, ◌⊎◌, trim_space, Option-cases,
}
use otel_aws_log_processor.Prelude.Assoc.{lookup, lookup-put}
use otel_aws_log_processor.Prelude.Sets.{mem, insert, insert_all}
use otel_aws_log_processor.Prelude.Sets.Laws.{mem-insert, mem-insert_all}
use otel_aws_log_processor.License.Error.{Error, Sentinel, registry_access_denied}
use otel_aws_log_processor.License.Quota.{Time}
use otel_aws_log_processor.License.Registry.Types.{Client, EntitlementState, CloudWatchRegistry}
use otel_aws_log_processor.License.Registry.Fetch.{Fetched, fetched, error, fetch_active_set}
use otel_aws_log_processor.License.Registry.Heartbeats.{unique_inputs, filter_heartbeats_to_publish}
use otel_aws_log_processor.License.Registry.Leases.{
  state_of, store, merge_local, learn, merge_lease, merge_failed, fresh_lease, refreshed,
  evaluate_active_count, lease_is_valid, Counted,
}
use otel_aws_log_processor.License.Registry.Count.{
  after_publish, published, register_and_count, is_denied, entitlement_of,
}

-- Every input is an ARN that the lease knows.
abbrev pub Knows : EntitlementState → List Text → Type 0
Knows s inputs = (j : Text) → mem j inputs ≡ true → mem j s.known_arns ≡ true

-- The count is that of the stored lease, which knows the inputs.
pub record CountsInputs (key : Text) (inputs : List Text) (x : Counted) : Type 0 where
  pub lease : EntitlementState
  pub stored : lookup key x.0.leases ≡ some lease
  pub count : x.1 ≡ lease.cached_count
  pub knows : Knows lease inputs

insert_all-Knows :
    (inputs xs : List Text) (j : Text) → mem j inputs ≡ true → mem j (insert_all inputs xs) ≡ true
insert_all-Knows inputs xs j h = rw (mem-insert_all j inputs xs, h) (ground arith)

learn-insert : (s : EntitlementState) (a : Text) → (learn s a).known_arns ≡ insert a s.known_arns
unfolding learn insert
learn-insert s a = elim (Bool-cases (mem a s.known_arns)) [
  | inl p ↦ rw (learn, insert, p) refl
  | inr p ↦ rw (learn, insert, p) refl
]

mem-merge_lease :
    (j : Text) (inputs : List Text) (s : EntitlementState)
    → mem j (merge_lease s inputs).known_arns ≡ (mem j s.known_arns || mem j inputs)
unfolding merge_lease mem
mem-merge_lease j [] s = ground arith
mem-merge_lease j (a ∷ arns) s =
    mem-merge_lease j arns (learn s a)
    ∙ rw (learn-insert s a, mem-insert j a s.known_arns) (ground arith)

merge_lease-Knows :
    (s : EntitlementState) (inputs : List Text) → Knows (merge_lease s inputs) inputs
merge_lease-Knows s inputs j h = rw (mem-merge_lease j inputs s, h) (ground arith)

store-CountsInputs :
    (r : CloudWatchRegistry) (key : Text) (s : EntitlementState) (inputs : List Text)
    (err : Option Error)
    → Knows s inputs
    → CountsInputs key inputs (store r key s, s.cached_count, err)
unfolding store
store-CountsInputs r key s inputs err h = record {
  lease = s;
  stored = lookup-put key key s r.leases ∙ rw (text_eq_refl key) refl;
  count = refl;
  knows = h;
}

refreshed-CountsInputs :
    (r : CloudWatchRegistry) (key : Text) (inputs : List Text) (now : Time) (s : EntitlementState)
    (f : Fetched)
    → CountsInputs key inputs (refreshed r key inputs now s f)
unfolding refreshed merge_failed fresh_lease
refreshed-CountsInputs r key inputs now s (error e) =
    store-CountsInputs r key (merge_failed s inputs) inputs (some e)
      (insert_all-Knows inputs s.known_arns)
refreshed-CountsInputs r key inputs now s (fetched active) =
    store-CountsInputs r key (fresh_lease r inputs active now) inputs none
      (insert_all-Knows inputs active)

if-CountsInputs :
    (key : Text) (inputs : List Text) (b : Bool) (x y : Counted)
    → CountsInputs key inputs x
    → CountsInputs key inputs y
    → CountsInputs key inputs (if b then x else y)
if-CountsInputs key inputs true x y h k = h
if-CountsInputs key inputs false x y h k = k

evaluate-CountsInputs :
    (c : Client) (r : CloudWatchRegistry) (key : Text) (inputs : List Text) (now : Time)
    → CountsInputs key inputs (evaluate_active_count c r key inputs now)
unfolding evaluate_active_count
evaluate-CountsInputs c r key inputs now =
    let s = state_of (lookup key r.leases) in
    if-CountsInputs key inputs (lease_is_valid s now) _ _
      (store-CountsInputs r key (merge_lease s inputs) inputs none (merge_lease-Knows s inputs))
      (refreshed-CountsInputs r key inputs now s (fetch_active_set c r key now))

-- The publication ended with an error of CloudWatch that denies the access.
abbrev pub AccessDenied : CloudWatchRegistry × Option Error → Error → Type 0
AccessDenied p e =
    (p.1 ≡ some e) × ((ss : List Sentinel) × (e.sentinels ≡ registry_access_denied ∷ ss))

-- There is a client, the publication of the heartbeats that are due was denied, and the call
-- returns the state after it with the count 0 and the error of the publication.
pub record IsDenied (client : Option Client) (r : CloudWatchRegistry) (key : Text)
    (inputs : List Text) (now : Time) (x : Counted) : Type 0 where
  pub connection : Client
  pub connected : client ≡ some connection
  pub reason : Error
  pub denied :
      AccessDenied
        (published connection r key (filter_heartbeats_to_publish r key inputs now) now)
        reason
  pub denial : x ≡ (
    (published connection r key (filter_heartbeats_to_publish r key inputs now) now).0,
    0,
    some reason,
  )

is_denied-AccessDenied :
    (r : CloudWatchRegistry) (err : Option Error) (e : Error)
    → is_denied err ≡ some e
    → AccessDenied (r, err) e
is_denied-AccessDenied r none e p = ground (arith, p)
is_denied-AccessDenied r (some e') e p =
    elim e'.sentinels as (λ ss. e'.sentinels ≡ ss → AccessDenied (r, some e') e) [
      | registry_access_denied ∷ ss ↦ λ q. (ground (arith, p, q), (ss, ground (arith, p, q)))
      | _ ↦ λ q. ground (arith, p, q)
    ]
      refl

after_publish-cases :
    (c : Client) (key : Text) (inputs : List Text) (now : Time)
    (p : CloudWatchRegistry × Option Error)
    → ((e : Error) × AccessDenied p e × (after_publish c key inputs now p ≡ (p.0, 0, some e)))
      ⊎ CountsInputs key inputs (after_publish c key inputs now p)
unfolding after_publish
after_publish-cases c key inputs now (r, err) = elim (Option-cases (is_denied err)) [
  | inr (e, q) ↦ inl (e, is_denied-AccessDenied r err e q, rw (after_publish, q) refl)
  | inl q ↦ inr (rw (after_publish, q) (evaluate-CountsInputs c r key inputs now))
]

-- Either CloudWatch denied the publication of the heartbeats that were due, and the call returns
-- the count 0 with that error; or, whatever else CloudWatch answers to the publication and to the
-- queries, it returns the cached count of the lease that it stored under the entitlement, and that
-- lease knows every resource that was registered.
pub register_and_count-CountsInputs :
    (client : Option Client) (r : CloudWatchRegistry) (key : Text) (arns : List Text) (now : Time)
    → IsDenied client r
        (entitlement_of key)
        (unique_inputs arns [])
        now
        (register_and_count client r key arns now)
      ⊎ CountsInputs
          (entitlement_of key)
          (unique_inputs arns [])
          (register_and_count client r key arns now)
unfolding register_and_count merge_local trim_space entitlement_of
register_and_count-CountsInputs none r key arns now =
    let s = state_of (lookup (entitlement_of key) r.leases) in
    inr (
      store-CountsInputs r (entitlement_of key) (merge_local s (unique_inputs arns []))
        (unique_inputs arns []) none (insert_all-Knows (unique_inputs arns []) s.known_arns))
register_and_count-CountsInputs (some c) r key arns now =
    let inputs = unique_inputs arns [] in
    let due = filter_heartbeats_to_publish r (entitlement_of key) inputs now in
    elim (after_publish-cases c (entitlement_of key) inputs now
      (published c r (entitlement_of key) due now)) [
        | inr h ↦ inr h
        | inl (e, d, q) ↦
            inl (record { connection = c; connected = refl; reason = e; denied = d; denial = q })
      ]
