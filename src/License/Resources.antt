-- ===== src/License/Resources.antt =====
-- ResourceTracker of pkg/license/enforcer.go
pub mod Laws
use otel_aws_log_processor.Prelude.{
  ℕ, Bool, true, false, List, [], ◌∷◌, if◌then◌else◌, is_empty, length, Text, trim_space,
}
use otel_aws_log_processor.Prelude.Sets.{mem, insert}

pub record ResourceTracker : Type 0 where
  pub resources : List Text

unfoldable pub new_resource_tracker : ResourceTracker
new_resource_tracker = record { resources = [] }

unfoldable pub track_id : ResourceTracker → Text → ResourceTracker × ℕ × Bool
unfolding insert
track_id rt id =
    if mem id rt.resources
    then (rt, length rt.resources, false)
    else (record { resources = insert id rt.resources }, length (insert id rt.resources), true)

-- The count, and whether the identifier is new.
unfoldable pub track : ResourceTracker → Text → ResourceTracker × ℕ × Bool
unfolding track_id
track rt resource_id =
    let id = trim_space resource_id in
    if is_empty id then (rt, length rt.resources, false) else track_id rt id

unfoldable pub count : ResourceTracker → ℕ
count rt = length rt.resources

unfoldable pub reset : ResourceTracker → ResourceTracker
reset rt = record { resources = [] }

-- The loops of Enforce: `for _, res := range arns { if res != "" { rt.Track(res) } }`
unfoldable pub track_all : ResourceTracker → List Text → ResourceTracker
unfolding track
track_all rt [] = rt
track_all rt (r ∷ rs) = track_all (if is_empty r then rt else (track rt r).0) rs
