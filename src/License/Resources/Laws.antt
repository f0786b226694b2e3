-- ===== src/License/Resources/Laws.antt =====
-- What ResourceTracker of pkg/license/enforcer.go holds.
use otel_aws_log_processor.Prelude.{
  ◌≡◌, refl, ◌∙◌, Bool, true, false, not, ◌||◌, List, [], ◌∷◌, is_empty, Text, text_eq, text_eq_iff,
  ◌&&◌, trim_space, arith, Bool-cases, inl, inr,
}
use otel_aws_log_processor.Prelude.Sets.{mem, nodup}
use otel_aws_log_processor.Prelude.Sets.Laws.{nodup-append_one, mem-append_one}
use otel_aws_log_processor.License.Resources.{
  ResourceTracker, new_resource_tracker, track, track_id, track_all,
}

-- No resource is counted twice.
abbrev pub CountsOnce : ResourceTracker → Type 0
CountsOnce rt = nodup rt.resources ≡ true

track_id-CountsOnce :
    (rt : ResourceTracker) (id : Text) → CountsOnce rt → CountsOnce (track_id rt id).0
unfolding track_id
track_id-CountsOnce rt id h = elim (Bool-cases (mem id rt.resources)) [
  | inl p ↦ rw (track_id, p) h
  | inr p ↦ rw (track_id, p) (nodup-append_one id rt.resources p h)
]

track-CountsOnce : (rt : ResourceTracker) (r : Text) → CountsOnce rt → CountsOnce (track rt r).0
unfolding track
track-CountsOnce rt r h = elim (Bool-cases (is_empty (trim_space r))) [
  | inl p ↦ rw (track, p) h
  | inr p ↦ rw (track, p) (track_id-CountsOnce rt (trim_space r) h)
]

known_already :
    (j id : Text) (ids : List Text) → mem id ids ≡ true → mem j ids ≡ (mem j ids || text_eq j id)
known_already j id ids h = elim (Bool-cases (text_eq j id)) [
  | inl p ↦ rw ((text_eq_iff j id).0 p, h) refl
  | inr p ↦ rw (p) (ground arith)
]

mem-track_id :
    (j : Text) (rt : ResourceTracker) (id : Text)
    → mem j (track_id rt id).0.resources ≡ (mem j rt.resources || text_eq j id)
unfolding track_id
mem-track_id j rt id = elim (Bool-cases (mem id rt.resources)) [
  | inl p ↦ rw (track_id, p) (known_already j id rt.resources p)
  | inr p ↦ rw (track_id, p) (mem-append_one j id rt.resources)
]

mem-track :
    (j : Text) (rt : ResourceTracker) (r : Text)
    → mem j (track rt r).0.resources
      ≡ (mem j rt.resources || (not (is_empty (trim_space r)) && text_eq j (trim_space r)))
unfolding track
mem-track j rt r = elim (Bool-cases (is_empty (trim_space r))) [
  | inl p ↦ rw (track, p) (ground arith)
  | inr p ↦ rw (track, p) (mem-track_id j rt (trim_space r))
]

-- The resource is one of the list, trimmed, and not blank.
abbrev pub mentions : Text → List Text → Bool
mentions j [] = false
mentions j (r ∷ rs) = (not (is_empty (trim_space r)) && text_eq j (trim_space r)) || mentions j rs

blank : is_empty (trim_space []) ≡ true
unfolding trim_space
blank = refl

mem-track_all :
    (j : Text) (rs : List Text) (rt : ResourceTracker)
    → mem j (track_all rt rs).resources ≡ (mem j rt.resources || mentions j rs)
unfolding track_all
mem-track_all j [] rt = ground arith
mem-track_all j ([] ∷ rs) rt = rw (blank) (mem-track_all j rs rt)
mem-track_all j ((c ∷ r) ∷ rs) rt =
    mem-track_all j rs (track rt (c ∷ r)).0 ∙ rw (mem-track j rt (c ∷ r)) (ground arith)

track_all-CountsOnce :
    (rs : List Text) (rt : ResourceTracker) → CountsOnce rt → CountsOnce (track_all rt rs)
unfolding track_all
track_all-CountsOnce [] rt h = h
track_all-CountsOnce ([] ∷ rs) rt h = track_all-CountsOnce rs rt h
track_all-CountsOnce ((c ∷ r) ∷ rs) rt h =
    track_all-CountsOnce rs (track rt (c ∷ r)).0 (track-CountsOnce rt (c ∷ r) h)

-- A new tracker that is given resources holds exactly those that are not blank, trimmed, each of
-- them once; so Count is the number of distinct resources, in whatever order and however often
-- they come.
pub track_all-distinct :
    (rs : List Text)
    → (nodup (track_all new_resource_tracker rs).resources ≡ true)
      × ((j : Text) → mem j (track_all new_resource_tracker rs).resources ≡ mentions j rs)
unfolding new_resource_tracker nodup mem
track_all-distinct rs = (
  track_all-CountsOnce rs new_resource_tracker refl,
  λ j. mem-track_all j rs new_resource_tracker,
)
