-- ===== src/Rules/Guards.antt =====
-- The checks that come before a change of a rule: each passes, or throws and writes nothing.
use back_end.Prelude.{
  not, ◌&&◌, ◌||◌, ◌≡◌, ◌⊎◌, inl, inr, refl, ◌==◌, ◌===◌, arith, Bool-cases, Option-cases, is_some,
}
use back_end.Database.Rows.{Contains}
use back_end.Database.Enums.{RuleScope, rule_scope_Eq, UserRole, user_role_Eq}
use back_end.Database.Orm.{Orm}
use back_end.Database.Entities.{Uuid}
use back_end.Database.RuleEntities.{Rule, rule_entity}
use back_end.World.{World, Exception, ok, err, not_found, forbidden, bad_request}
use back_end.Workflows.Rows.{with_id_and_org}
use back_end.Rules.Access.{
  RequestUser, CreateRuleDto, assert_rule_manager, find_rule_or_throw, assert_scope_consistency,
}

module _ (caller : RequestUser) (w : World) where
  pub manager_outcome :
      ((e : Exception) × (assert_rule_manager caller w ≡ (err e, w)))
      ⊎ ((org_id : Uuid) × (assert_rule_manager caller w ≡ (ok org_id, w)))
  unfolding assert_rule_manager
  manager_outcome = elim (Option-cases caller.org_id) [
    | inl e ↦ inl (forbidden "Organization scope is required", rw e refl)
    | inr (org, e) ↦
        elim (Bool-cases
          (not (caller.role === UserRole.admin || caller.role === UserRole.business_analyst))) [
            | inl n ↦ inl (forbidden "Admin or Business Analyst role is required", ground arith)
            | inr y ↦ inr (org, ground arith)
          ]
  ]

module _ (orm : Orm) (w : World) where
  pub rule_outcome :
      (id org_id : Uuid)
      → (find_rule_or_throw orm id org_id w ≡ (err (not_found "Rule not found"), w))
        ⊎ ((r : Rule) × (find_rule_or_throw orm id org_id w ≡ (ok r, w))
            × Contains r w.rules
            × (r.org_id ≡ org_id))
  unfolding find_rule_or_throw
  rule_outcome id org_id =
      elim (Option-cases (orm.find_one (λ (r : Rule). r.id == id && r.org_id == org_id) w.rules)) [
        | inl e ↦ inl (rw e refl)
        | inr (r, e) ↦
            let (p, c) =
              orm.find_one_sound (λ (r : Rule). r.id == id && r.org_id == org_id) w.rules r e in
            inr (r, rw e refl, c, ground arith)
      ]

  pub scope_outcome :
      (dto : CreateRuleDto) (org : Uuid)
      → (assert_scope_consistency orm dto.scope dto.workflow_id dto.target_agent org w ≡ (ok tt, w))
        ⊎ ((e : Exception) × (assert_scope_consistency orm dto.scope dto.workflow_id
                dto.target_agent org w
              ≡ (err e, w)))
  unfolding assert_scope_consistency
  scope_outcome dto org =
      elim (Bool-cases (dto.scope === RuleScope.workflow && not (is_some dto.workflow_id))) [
        | inl a ↦
            inr (bad_request "workflow_id is required for WORKFLOW scoped rules", ground arith)
        | inr a ↦ elim (Bool-cases (dto.scope === RuleScope.org && is_some dto.workflow_id)) [
          | inl b ↦
              inr (bad_request "workflow_id must be omitted for ORG scoped rules", ground arith)
          | inr b ↦
              elim (Bool-cases (dto.scope === RuleScope.agent && not (is_some dto.target_agent))) [
                | inl c ↦
                    inr
                      (bad_request "target_agent is required for AGENT scoped rules", ground arith)
                | inr c ↦ elim (Option-cases dto.workflow_id) [
                  | inl e ↦ inl (ground arith)
                  | inr (id, e) ↦
                      elim (Option-cases (orm.find_one (with_id_and_org id org) w.workflows)) [
                        | inl f ↦ inr (not_found "Workflow not found", ground arith)
                        | inr (x, f) ↦ inl (ground arith)
                      ]
                ]
              ]
        ]
      ]
