-- ===== src/Rules/Access.antt =====
-- src/modules/rules/rules.service.ts: the requests, the rows and the private helpers. The new ids
-- and the time are arguments, and the texts of JSON.stringify and trim are the runtime's.
use back_end.Prelude.{
  ℕ, String, Bool, not, ◌&&◌, ◌||◌, Option, none, some, List, [], ◌∷◌, ◌==◌, ◌===◌, string_Eq,
  nat_Eq, bool_Eq, option_Eq, if◌then◌else◌, array_filter, array_find, is_some, option_get, ltb,
  length,
}
use Prim.Native.String.{◌++◌}
use back_end.Database.Json.{Json, Fields, or_null}
use back_end.Database.Enums.{
  UserRole, user_role_Eq, RuleType, rule_type_Eq, rule_type_text, RuleScope, rule_scope_Eq,
  rule_scope_text, AgentType, agent_type_Eq, agent_type_text,
}
use back_end.Database.Orm.{Orm}
use back_end.Database.Entities.{Uuid}
use back_end.Database.RuleEntities.{Rule, RuleVersion, rule_entity}
use back_end.World.{
  World, Room, workflow_room, org_room, Action, ok, bad_request, not_found, forbidden,
  conflict_with, pure, throw, throw_if, gets, modify, or_throw, ◌>>=◌, ◌>>◌,
}
use back_end.Messaging.Audit.{log, user_entry}
use back_end.Messaging.Gateway.{emit_to_room}
use back_end.Workflows.Rows.{with_id_and_org}
use back_end.Rules.Conditions.{
  is_contradictable, conditions_overlap, has_type_specific_conflict,
  extract_overlapping_condition_keys,
}

-- The caller; `none` is an organisation that is missing or empty.
pub record RequestUser : Type 0 where
  pub id : Uuid
  pub org_id : Option Uuid
  pub role : UserRole

pub record CreateRuleDto : Type 0 where
  pub name : String
  pub description : Option String
  pub type : RuleType
  pub scope : RuleScope
  pub workflow_id : Option Uuid
  pub target_agent : Option AgentType
  pub condition : Option Fields
  pub instruction : String
  pub priority : Option ℕ

-- An absent property is `none`; a condition may be given as null.
pub record UpdateRuleDto : Type 0 where
  pub instruction : Option String
  pub condition : Option (Option Fields)
  pub priority : Option ℕ
  pub is_active : Option Bool

-- A rule of a bundle, with the version and the state that it brings.
pub record RuleBundleRuleDto : Type 0 where
  pub rule : CreateRuleDto
  pub version : Option ℕ
  pub is_active : Option Bool

-- `auditShape`
abbrev pub audit_shape : Rule → Json
audit_shape r = Json.object (
    Fields.field "rule_id" (Json.uuid r.id) (
      Fields.field "name" (Json.text r.name) (
        Fields.field "type" (Json.text (rule_type_text r.rule_type)) (
          Fields.field "scope" (Json.text (rule_scope_text r.scope)) (
            Fields.field "workflow_id" (or_null Json.uuid r.workflow_id) (
              Fields.field "target_agent"
                (or_null (λ a. Json.text (agent_type_text a)) r.target_agent)
                (Fields.field "condition" (or_null Json.object r.condition) (
                  Fields.field "instruction" (Json.text r.instruction) (
                    Fields.field "priority" (Json.number r.priority) (
                      Fields.field "version" (Json.number r.version)
                        (Fields.field "is_active" (Json.boolean r.is_active) Fields.end)))))))))))

-- The snapshot of a rule that is about to change.
abbrev pub snapshot : Uuid → Rule → Uuid → RuleVersion
snapshot version_id r changed_by = record {
  id = version_id;
  rule_id = r.id;
  version = r.version;
  instruction = r.instruction;
  condition = r.condition;
  priority = r.priority;
  is_active = r.is_active;
  changed_by = changed_by;
}

-- The rows that `ensureNoConflict` loads: active, of the candidate's type, scope, agent and workflow.
abbrev pub same_slot : Rule → Rule → Bool
same_slot candidate r =
    r.org_id == candidate.org_id
    && r.is_active
    && r.rule_type === candidate.rule_type
    && r.scope === candidate.scope
    && r.target_agent === candidate.target_agent
    && r.workflow_id === candidate.workflow_id

abbrev pub is_active_in : Uuid → Rule → Bool
is_active_in org_id r = r.org_id == org_id && r.is_active

-- `order: { priority: 'DESC', updatedAt: 'DESC' }`
abbrev pub stands_before : Rule → Rule → Bool
stands_before a b =
    ltb b.priority a.priority || (a.priority == b.priority && ltb b.updated_at a.updated_at)

abbrev pub join_keys : List String → String
join_keys [] = ""
join_keys (k ∷ []) = k
join_keys (k ∷ ks) = let rest = join_keys ks in k ++ (", " ++ rest)

unfoldable pub assert_rule_manager : RequestUser → Action Uuid
assert_rule_manager caller = do
  org_id ← or_throw caller.org_id (forbidden "Organization scope is required")
  throw_if (not (caller.role === UserRole.admin || caller.role === UserRole.business_analyst))
      (forbidden "Admin or Business Analyst role is required")
  pure org_id

abbrev pub invalidate_org_rule_cache : Uuid → World → World
invalidate_org_rule_cache org_id w = record w {
  active_rule_cache = array_filter (λ e. not (e.org_id == org_id)) w.active_rule_cache;
}

abbrev pub invalidate_rule_simulation_cache : Uuid → World → World
invalidate_rule_simulation_cache rule_id w = record w {
  simulation_cache = array_filter (λ e. not (e.rule_id == rule_id)) w.simulation_cache;
}

-- The two calls that follow a change of a rule.
abbrev pub invalidate : Uuid → Uuid → World → World
invalidate org_id rule_id w =
    invalidate_rule_simulation_cache rule_id (invalidate_org_rule_cache org_id w)

-- `emitConflictEvent`
abbrev pub conflict_room : Rule → Room
conflict_room candidate = elim candidate.workflow_id [
  | none ↦ org_room candidate.org_id
  | some id ↦ workflow_room id
]

module _ (stringify : Json → String) where
  -- `buildConflictDetail`
  abbrev pub conflict_detail : Rule → Rule → String
  conflict_detail candidate existing =
      let shared =
        extract_overlapping_condition_keys stringify candidate.condition existing.condition in
      "Conflicting "
      ++ (rule_type_text candidate.rule_type
          ++ (" rule in "
              ++ (rule_scope_text candidate.scope
                  ++ (" scope for the same target agent/workflow."
                      ++ (if ltb 0 (length shared)
                          then " overlapping condition keys: " ++ join_keys shared
                          else "")))))

  abbrev pub conflict_payload : Rule → Rule → Fields → Json
  conflict_payload candidate existing rest = Json.object (
      Fields.field "code" (Json.text "RULE_CONFLICT") (
        Fields.field "conflicting_rule_id" (Json.uuid existing.id) (
          Fields.field "conflicting_rule_name" (Json.text existing.name) (
            Fields.field "conflict_detail" (Json.text (conflict_detail candidate existing)) rest))))

  module _ (trim : String → String) where
    -- The test of the search: not the rule itself, the conditions overlap, the rules contradict.
    abbrev pub conflicts_with : Rule → Option Uuid → Rule → Bool
    conflicts_with candidate exclude existing =
        not (is_some exclude && exclude === some existing.id)
        && conditions_overlap stringify candidate.condition existing.condition
        && has_type_specific_conflict trim candidate existing

module _ (orm : Orm) where
  unfoldable pub save_rule : Rule → Action Rule
  save_rule r w = (ok r, record w { rules = orm.save r w.rules })

  unfoldable pub find_rule_or_throw : Uuid → Uuid → Action Rule
  find_rule_or_throw id org_id = do
    found ← gets (λ w. orm.find_one (λ r. r.id == id && r.org_id == org_id) w.rules)
    or_throw found (not_found "Rule not found")

  unfoldable pub snapshot_rule_version : Uuid → Rule → Uuid → Action (Unit {0})
  snapshot_rule_version version_id r changed_by = modify (λ w. record w {
    rule_versions = orm.insert (snapshot version_id r changed_by) w.rule_versions;
  })

  unfoldable pub assert_scope_consistency :
      RuleScope → Option Uuid → Option AgentType → Uuid → Action (Unit {0})
  assert_scope_consistency scope workflow_id target_agent org_id = do
    throw_if (scope === RuleScope.workflow && not (is_some workflow_id))
        (bad_request "workflow_id is required for WORKFLOW scoped rules")
    throw_if (scope === RuleScope.org && is_some workflow_id)
        (bad_request "workflow_id must be omitted for ORG scoped rules")
    throw_if (scope === RuleScope.agent && not (is_some target_agent))
        (bad_request "target_agent is required for AGENT scoped rules")
    elim workflow_id [
      | none ↦ pure tt
      | some id ↦ (do
        found ← gets (λ w. orm.find_one (with_id_and_org id org_id) w.workflows)
        or_throw found (not_found "Workflow not found")
        pure tt)
    ]

  unfoldable pub insert_audit_log :
      Option Uuid → Uuid → String → Option Json → Option Json → Action (Unit {0})
  unfolding log
  insert_audit_log workflow_id actor_id event_type before after =
      log orm (user_entry workflow_id actor_id event_type none before after)

  module _ (stringify : Json → String) (trim : String → String) where
    -- With a pool of rules, or with the rows of the table.
    unfoldable pub ensure_no_conflict : Rule → Option Uuid → Option (List Rule) → Action (Unit {0})
    ensure_no_conflict candidate exclude pool =
        if not candidate.is_active || not (is_contradictable candidate.rule_type)
        then pure tt
        else (do
          rows ← gets (λ w. orm.find_ordered stands_before (same_slot candidate) w.rules)
          elim (array_find (conflicts_with stringify trim candidate exclude)
              (option_get pool rows)) [
                | none ↦ pure tt
                | some existing ↦ (do
                  emit_to_room (conflict_room candidate) "rules.conflict.detected" (
                      conflict_payload stringify candidate existing
                        (Fields.field "incoming_rule_name" (Json.text candidate.name) Fields.end))
                  throw (conflict_with (conflict_payload stringify candidate existing Fields.end)))
              ])
