-- ===== src/Rules/Context.antt =====
-- src/modules/rules/rules.service.ts: the active rules that apply to a session, which go with a task
-- to the AI service.
use back_end.Prelude.{String, List, [], ◌∷◌, ◌==◌, ◌&&◌, array_filter, array_sort}
use back_end.Database.Json.{Json, Items, Fields, or_null}
use back_end.Database.Enums.{
  session_mode_text, session_status_text, workflow_status_text, rule_type_text, rule_scope_text,
  agent_type_text,
}
use back_end.Database.Orm.{Orm}
use back_end.Database.Entities.{Uuid, Instant, Workflow, Session}
use back_end.Database.RuleEntities.{Rule}
use back_end.World.{Action, not_found, pure, gets, or_throw, ◌>>=◌}
use back_end.Rules.Conditions.{matches_session_scope, matches_rule_condition}
use back_end.Rules.Access.{stands_before}
use back_end.Rules.Service.{get_cached_active_rules}

abbrev pub texts : List String → Items
texts [] = Items.nil
texts (t ∷ ts) = Items.cons (Json.text t) (texts ts)

abbrev pub session_context : Session → Workflow → Fields
session_context s x = Fields.field "org_id" (Json.uuid x.org_id) (
    Fields.field "workflow_id" (Json.uuid x.id) (
      Fields.field "session_id" (Json.uuid s.id) (
        Fields.field "session_mode" (Json.text (session_mode_text s.mode)) (
          Fields.field "session_status" (Json.text (session_status_text s.status)) (
            Fields.field "workflow_status" (Json.text (workflow_status_text x.status)) (
              Fields.field "workflow_domain" (or_null Json.text x.domain) (
                Fields.field "workflow_tags" (Json.array (texts x.tags))
                  (Fields.field "user_id" (Json.uuid s.user_id) Fields.end))))))))

-- A rule as `listActiveRulesForContext` lists it.
abbrev pub context_rule : Rule → Json
context_rule r = Json.object (
    Fields.field "id" (Json.uuid r.id) (
      Fields.field "name" (Json.text r.name) (
        Fields.field "type" (Json.text (rule_type_text r.rule_type)) (
          Fields.field "scope" (Json.text (rule_scope_text r.scope)) (
            Fields.field "workflow_id" (or_null Json.uuid r.workflow_id) (
              Fields.field "target_agent"
                (or_null (λ a. Json.text (agent_type_text a)) r.target_agent)
                (Fields.field "condition" (or_null Json.object r.condition) (
                  Fields.field "instruction" (Json.text r.instruction) (
                    Fields.field "priority" (Json.number r.priority)
                      (Fields.field "version" (Json.number r.version) Fields.end))))))))))

abbrev pub context_rules : List Rule → Items
context_rules [] = Items.nil
context_rules (r ∷ rs) = Items.cons (context_rule r) (context_rules rs)

module _ (orm : Orm) (stringify : Json → String) where
  abbrev pub applicable : Session → Workflow → List Rule → List Rule
  unfolding matches_rule_condition
  applicable s x rules = array_sort stands_before (
      array_filter
        (λ (r : Rule). matches_rule_condition stringify r.condition (session_context s x))
        (array_filter (λ r. matches_session_scope r s.workflow_id) rules))

  unfoldable pub get_session_context_rules : Instant → Uuid → Uuid → Action (List Rule)
  unfolding get_cached_active_rules
  get_session_context_rules now session_id org_id = do
    found ← gets (λ w. orm.find_one (λ s. s.id == session_id) w.sessions)
    session ← or_throw found (not_found "Session not found")
    placed ←
        gets
          (λ w. orm.find_one (λ x. x.id == session.workflow_id && x.org_id == org_id) w.workflows)
    workflow ← or_throw placed (not_found "Session not found")
    active ← get_cached_active_rules orm now org_id
    pure (applicable session workflow active)

  unfoldable pub list_active_rules_for_context : Instant → Uuid → Uuid → Action Items
  unfolding get_session_context_rules
  list_active_rules_for_context now org_id session_id = do
    rules ← get_session_context_rules now session_id org_id
    pure (context_rules rules)
