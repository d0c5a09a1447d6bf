-- ===== src/Workflows/Diff.antt =====
-- `extractElements` and `computeDiff` of src/modules/workflows/workflows.service.ts. The text that
-- JSON.stringify gives is the runtime's, a parameter.
use back_end.Prelude.{
  Bool, false, not, Option, none, some, List, [], ◌==◌, ◌===◌, string_Eq, ℕ, String, ◌&&◌,
  array_filter, array_some, array_find,
}
use back_end.Database.Json.{get_property, items_list, same_value, Json}
use back_end.Database.Orm.{Orm}
use back_end.Database.Entities.{Uuid, WorkflowVersion}
use back_end.World.{Action, pure, gets, or_throw, not_found, ◌>>=◌, ◌>>◌}
use back_end.Workflows.Service.{find_one}

-- `Array.isArray(v) ? v : []`
abbrev pub array_or_empty : Option Json → List Json
array_or_empty (some (Json.array xs)) = items_list xs
array_or_empty _ = []

-- An array of the runtime is an object without a property `elements`.
unfoldable pub extract_elements : Json → List Json
extract_elements (Json.object fs) = array_or_empty (get_property "elements" fs)
extract_elements _ = []

-- `e.id`, which throws in the program where an element is null: elements are objects here.
unfoldable pub element_id : Json → Option Json
element_id (Json.object fs) = get_property "id" fs
element_id _ = none

pub record Diff : Type 0 where
  pub added : List Json
  pub removed : List Json
  pub modified : List Json

-- `ids.has(e.id)`, for the ids of a list
abbrev pub has_id : List Json → Json → Bool
has_id elements e = array_some (λ o. same_value (element_id o) (element_id e)) elements

abbrev pub numbered : Uuid → ℕ → WorkflowVersion → Bool
numbered workflow_id n v = v.workflow_id == workflow_id && v.version_number == n

module _ (stringify : Json → String) where
  -- The test of the third filter: in the older version, with another text.
  abbrev pub is_modified : List Json → Json → Bool
  is_modified older e = elim (array_find (λ o. same_value (element_id o) (element_id e)) older) [
    | none ↦ false
    | some o ↦ not (stringify o === stringify e)
  ]

  unfoldable pub diff_elements : List Json → List Json → Diff
  diff_elements elements1 elements2 = record {
    added = array_filter (λ e. not (has_id elements1 e)) elements2;
    removed = array_filter (λ e. not (has_id elements2 e)) elements1;
    modified = array_filter (λ e. has_id elements1 e && is_modified elements1 e) elements2;
  }

  module _ (orm : Orm) where
    unfoldable pub compute_diff : Uuid → ℕ → ℕ → Uuid → Action Diff
    unfolding find_one
    compute_diff workflow_id v1 v2 org_id = do
      find_one orm workflow_id org_id
      version1 ← gets (λ w. orm.find_one (numbered workflow_id v1) w.workflow_versions)
      version2 ← gets (λ w. orm.find_one (numbered workflow_id v2) w.workflow_versions)
      old ← or_throw version1 (not_found "One or both versions not found")
      new ← or_throw version2 (not_found "One or both versions not found")
      pure (diff_elements (extract_elements old.elements_json) (extract_elements new.elements_json))
