-- ===== src/Rules/Conditions.antt =====
-- src/modules/rules/rules.service.ts: when a rule applies and when two rules conflict. The texts
-- that JSON.stringify and String.prototype.trim give are the runtime's, parameters.
use back_end.Prelude.{
  String, Bool, true, false, not, ◌&&◌, Option, none, some, List, [], ◌∷◌, ◌===◌, string_Eq, nat_Eq,
  option_Eq, if◌then◌else◌, array_some, array_filter, is_some, option_get,
}
use back_end.Database.Json.{Json, Fields, get_property, items_list, same_value, keys}
use back_end.Database.Enums.{RuleType, rule_type_Eq, RuleScope, rule_scope_Eq}
use back_end.Database.Entities.{Uuid}
use back_end.Database.RuleEntities.{Rule}

-- `CONTRADICTABLE_RULE_TYPES`
abbrev pub is_contradictable : RuleType → Bool
is_contradictable RuleType.actor_mapping = true
is_contradictable RuleType.structural_constraint = true
is_contradictable _ = false

abbrev pub matches_session_scope : Rule → Uuid → Bool
matches_session_scope rule workflow_id =
    if rule.scope === RuleScope.workflow
    then rule.workflow_id === some workflow_id
    else if is_some rule.workflow_id && not (rule.workflow_id === some workflow_id)
    then false
    else true

-- `array.includes(value)`
abbrev pub includes : List Json → Option Json → Bool
includes xs v = array_some (λ x. same_value (some x) v) xs

abbrev pub array_items : Option Json → Option (List Json)
array_items (some (Json.array xs)) = some (items_list xs)
array_items _ = none

module _ (stringify : Json → String) where
  -- `deepEqual`; JSON.stringify has no text for `undefined`
  abbrev pub deep_equal : Option Json → Option Json → Bool
  deep_equal none none = true
  deep_equal (some a) (some b) = stringify a === stringify b
  deep_equal _ _ = false

  -- One entry of a condition against the context's value.
  abbrev pub matches_entry : Option Json → Json → Bool
  matches_entry actual expected = elim (array_items (some expected)) [
    | some es ↦ elim (array_items actual) [
      | some vs ↦ array_some (λ v. includes vs (some v)) es
      | none ↦ includes es actual
    ]
    | none ↦ elim (array_items actual) [
      | some vs ↦ includes vs (some expected)
      | none ↦ deep_equal actual (some expected)
    ]
  ]

  abbrev pub all_match : Fields → Fields → Bool
  all_match Fields.end context = true
  all_match (Fields.field k expected rest) context =
      let others = all_match rest context in
      if matches_entry (get_property k context) expected then others else false

  unfoldable pub matches_rule_condition : Option Fields → Fields → Bool
  matches_rule_condition none context = true
  matches_rule_condition (some c) context = all_match c context

  -- The key stands in both, with equal values.
  abbrev pub agrees_on : Fields → Fields → String → Bool
  agrees_on left right key =
      is_some (get_property key right)
      && deep_equal (get_property key left) (get_property key right)

  unfoldable pub conditions_overlap : Option Fields → Option Fields → Bool
  conditions_overlap none none = true
  conditions_overlap (some left) (some right) = array_some (agrees_on left right) (keys left)
  conditions_overlap _ _ = false

  unfoldable pub extract_overlapping_condition_keys : Option Fields → Option Fields → List String
  extract_overlapping_condition_keys (some left) (some right) =
      array_filter (agrees_on left right) (keys left)
  extract_overlapping_condition_keys _ _ = []

-- A text that is not blank, trimmed.
abbrev pub trimmed : (String → String) → Option Json → Option String
trimmed trim (some (Json.text t)) = if trim t === "" then none else some (trim t)
trimmed trim _ = none

-- The keys that `hasTypeSpecificConflict` looks for.
abbrev pub sources : List String
sources = "source_label" ∷ "source" ∷ "actor" ∷ "alias" ∷ []

abbrev pub targets : List String
targets = "canonical" ∷ "canonical_actor" ∷ "target" ∷ "mapped_actor" ∷ []

abbrev pub structures : List String
structures = "structure" ∷ "pattern" ∷ "element" ∷ []

abbrev pub modes : List String
modes = "mode" ∷ "constraint" ∷ "requirement" ∷ []

-- The same first text and different second ones; `none` where the rules do not say.
abbrev pub compare_texts :
    Option String → Option String → Option String → Option String → Option Bool
compare_texts (some l) (some r) (some x) (some y) = if l === r then some (not (x === y)) else none
compare_texts _ _ _ _ = none

module _ (trim : String → String) where
  unfoldable pub pick_first_value : Option Fields → List String → Option String
  pick_first_value none ks = none
  pick_first_value (some c) [] = none
  pick_first_value (some c) (k ∷ ks) =
      let rest = pick_first_value (some c) ks in
      elim (trimmed trim (get_property k c)) [ none ↦ rest | some v ↦ some v ]

  -- The verdict of the first two tests, for a candidate of this type.
  abbrev pub verdict : RuleType → Option Fields → Option Fields → Option Bool
  verdict RuleType.actor_mapping left right =
      compare_texts (pick_first_value left sources) (pick_first_value right sources)
        (pick_first_value left targets) (pick_first_value right targets)
  verdict RuleType.structural_constraint left right =
      compare_texts (pick_first_value left structures) (pick_first_value right structures)
        (pick_first_value left modes) (pick_first_value right modes)
  verdict _ left right = none

  unfoldable pub has_type_specific_conflict : Rule → Rule → Bool
  has_type_specific_conflict candidate existing =
      option_get (verdict candidate.rule_type candidate.condition existing.condition)
        (not (trim candidate.instruction === trim existing.instruction))
