-- ===== src/Rules/Service.antt =====
-- src/modules/rules/rules.service.ts: the methods that change rules, and the cache of the active
-- ones. A response that is a projection of a rule is the rule.
use back_end.Prelude.{
  ℕ, ◌+◌, String, Bool, true, false, not, ◌&&◌, ◌||◌, none, some, List, [], ◌∷◌, ◌++◌, ◌==◌, ◌===◌,
  string_Eq, bool_Eq, option_Eq, if◌then◌else◌, array_find, is_some, option_get, option_map, ltb,
  length,
}
use back_end.Database.Json.{Json, Items, Fields, or_null}
use back_end.Database.Orm.{Orm}
use back_end.Database.Entities.{Uuid, Instant}
use back_end.Database.RuleEntities.{Rule, ActiveRules, rule_entity}
use back_end.World.{Action, ok, pure, modify, when, ◌>>=◌, ◌>>◌}
use back_end.Rules.Access.{
  RequestUser, CreateRuleDto, UpdateRuleDto, RuleBundleRuleDto, audit_shape, is_active_in,
  stands_before, assert_rule_manager, invalidate_org_rule_cache, invalidate, save_rule,
  find_rule_or_throw, snapshot_rule_version, assert_scope_consistency, insert_audit_log,
  ensure_no_conflict,
}

-- `ACTIVE_RULE_CACHE_TTL_MS`
abbrev pub active_rule_cache_ttl_ms : ℕ
active_rule_cache_ttl_ms = 60000

-- What the runtime supplies to a request: a new id for a row, and the time.
pub record Draw : Type 0 where
  pub id : Uuid
  pub now : Instant

module _ (trim : String → String) where
  -- The row that `create` and the import of a bundle make.
  abbrev pub new_rule : Draw → CreateRuleDto → Uuid → Uuid → ℕ → Bool → Rule
  new_rule d dto org_id created_by version is_active = record {
    id = d.id;
    org_id = org_id;
    workflow_id = dto.workflow_id;
    name = trim dto.name;
    description = option_map trim dto.description;
    rule_type = dto.type;
    scope = dto.scope;
    target_agent = dto.target_agent;
    condition = dto.condition;
    instruction = trim dto.instruction;
    priority = option_get dto.priority 100;
    version = version;
    is_active = is_active;
    created_by = created_by;
    updated_at = d.now;
  }

  -- The row with the columns that `update` sets.
  abbrev pub changed : UpdateRuleDto → Rule → Rule
  changed dto r = record r {
    instruction = elim dto.instruction [ none ↦ r.instruction | some i ↦ trim i ];
    condition = option_get dto.condition r.condition;
    priority = option_get dto.priority r.priority;
    is_active = option_get dto.is_active r.is_active;
  }

module _ (stringify : Json → String) where
  -- `hasChanges`
  abbrev pub has_changes : Rule → Rule → Bool
  has_changes next r =
      not (next.instruction === r.instruction)
      || not (
          stringify (or_null Json.object next.condition)
          === stringify (or_null Json.object r.condition))
      || not (next.priority == r.priority)
      || not (next.is_active === r.is_active)

-- Only the state was asked to change.
abbrev pub update_event : UpdateRuleDto → Rule → Rule → String
update_event dto next r =
    if not (next.is_active === r.is_active)
      && not (is_some dto.instruction && not (dto.instruction === some ""))
      && not (is_some dto.priority)
      && not (is_some dto.condition)
    then (if next.is_active then "RULE_ACTIVATED" else "RULE_DEACTIVATED")
    else "RULE_UPDATED"

abbrev pub ids_json : List Rule → Items
ids_json [] = Items.nil
ids_json (r ∷ rs) = Items.cons (Json.uuid r.id) (ids_json rs)

module _ (orm : Orm) where
  -- `getCachedActiveRules`: an entry that has not expired, or the rows, which are kept.
  unfoldable pub get_cached_active_rules : Instant → Uuid → Action (List Rule)
  get_cached_active_rules now org_id w =
      elim (array_find (λ (e : ActiveRules). e.org_id == org_id && ltb now e.expires_at)
        w.active_rule_cache) [
          | some e ↦ (ok e.rules, w)
          | none ↦
              let rows = orm.find_ordered stands_before (is_active_in org_id) w.rules in
              (
                ok rows,
                record w {
                  active_rule_cache =
                      record {
                        org_id = org_id;
                        expires_at = now + active_rule_cache_ttl_ms;
                        rules = rows;
                      }
                      ∷ (invalidate_org_rule_cache org_id w).active_rule_cache;
                },
              )
        ]

  -- What `activate`, `deactivate` and `softDelete` do to a rule whose state changes.
  abbrev pub turned : Bool → Instant → Rule → Rule
  turned active now r = record r { is_active = active; version = r.version + 1; updated_at = now }

  -- The end of `create`: the candidate is stored and logged, and the caches forget.
  unfoldable pub add_rule : Rule → Uuid → Uuid → Action Rule
  unfolding save_rule insert_audit_log
  add_rule candidate org_id user_id = do
    saved ← save_rule orm candidate
    insert_audit_log orm saved.workflow_id user_id "RULE_CREATED" none (some (audit_shape saved))
    modify (invalidate org_id saved.id)
    pure saved

  unfoldable pub deactivate : Draw → Uuid → RequestUser → Action Rule
  unfolding assert_rule_manager find_rule_or_throw snapshot_rule_version save_rule insert_audit_log
  deactivate d id caller = do
    org_id ← assert_rule_manager caller
    rule ← find_rule_or_throw orm id org_id
    if not rule.is_active then pure rule else (do
      snapshot_rule_version orm d.id rule caller.id
      saved ← save_rule orm (turned false d.now rule)
      insert_audit_log orm saved.workflow_id caller.id "RULE_DEACTIVATED" (some (audit_shape rule))
          (some (audit_shape saved))
      modify (invalidate org_id saved.id)
      pure saved)

  unfoldable pub soft_delete : Draw → Uuid → RequestUser → Action (Unit {0})
  unfolding assert_rule_manager find_rule_or_throw snapshot_rule_version save_rule insert_audit_log
  soft_delete d id caller = do
    org_id ← assert_rule_manager caller
    rule ← find_rule_or_throw orm id org_id
    last ←
        (if rule.is_active
          then snapshot_rule_version orm d.id rule caller.id
            >> save_rule orm (turned false d.now rule)
          else pure rule)
    insert_audit_log orm rule.workflow_id caller.id "RULE_DELETED" (some (audit_shape rule))
        (some (audit_shape last))
    modify (invalidate org_id rule.id)

  module _ (stringify : Json → String) (trim : String → String) where
    unfoldable pub create : Draw → CreateRuleDto → RequestUser → Action Rule
    unfolding assert_rule_manager assert_scope_consistency ensure_no_conflict add_rule
    create d dto caller = do
      org_id ← assert_rule_manager caller
      assert_scope_consistency orm dto.scope dto.workflow_id dto.target_agent org_id
      ensure_no_conflict orm stringify trim (new_rule trim d dto org_id caller.id 1 true) none none
      add_rule (new_rule trim d dto org_id caller.id 1 true) org_id caller.id

    unfoldable pub update : Draw → Uuid → UpdateRuleDto → RequestUser → Action Rule
    unfolding assert_rule_manager find_rule_or_throw ensure_no_conflict snapshot_rule_version
        save_rule insert_audit_log
    update d id dto caller = do
      org_id ← assert_rule_manager caller
      rule ← find_rule_or_throw orm id org_id
      if not (has_changes stringify (changed trim dto rule) rule) then pure rule else (do
        when (changed trim dto rule).is_active
            (ensure_no_conflict orm stringify trim (changed trim dto rule) (some rule.id) none)
        snapshot_rule_version orm d.id rule caller.id
        saved ←
            save_rule orm
              (record (changed trim dto rule) { version = rule.version + 1; updated_at = d.now })
        insert_audit_log orm saved.workflow_id caller.id (update_event dto saved rule)
            (some (audit_shape rule)) (some (audit_shape saved))
        modify (invalidate org_id saved.id)
        pure saved)

    unfoldable pub activate : Draw → Uuid → RequestUser → Action Rule
    unfolding assert_rule_manager find_rule_or_throw ensure_no_conflict snapshot_rule_version
        save_rule insert_audit_log
    activate d id caller = do
      org_id ← assert_rule_manager caller
      rule ← find_rule_or_throw orm id org_id
      if rule.is_active then pure rule else (do
        ensure_no_conflict orm stringify trim (record rule { is_active = true }) (some rule.id) none
        snapshot_rule_version orm d.id rule caller.id
        saved ← save_rule orm (turned true d.now rule)
        insert_audit_log orm saved.workflow_id caller.id "RULE_ACTIVATED" (some (audit_shape rule))
            (some (audit_shape saved))
        modify (invalidate org_id saved.id)
        pure saved)

    -- The loop of `importRules`: each item is checked against the active rules and those before it.
    unfoldable pub stage_rules :
        List (Draw × RuleBundleRuleDto) → Uuid → Uuid → List Rule → List Rule → Action (List Rule)
    unfolding assert_scope_consistency ensure_no_conflict
    stage_rules [] org_id user_id active staged = pure staged
    stage_rules ((d, item) ∷ items) org_id user_id active staged = do
      assert_scope_consistency orm item.rule.scope item.rule.workflow_id item.rule.target_agent
          org_id
      let candidate =
          new_rule trim d item.rule org_id user_id (option_get item.version 1)
            (option_get item.is_active true)
      when candidate.is_active
          (ensure_no_conflict orm stringify trim candidate none (some (active ++ staged)))
      stage_rules items org_id user_id active (staged ++ (candidate ∷ []))

    abbrev pub save_all : List Rule → List Rule → List Rule
    save_all [] t = t
    save_all (r ∷ rs) t = save_all rs (orm.save r t)

    unfoldable pub import_rules :
        Instant → String → List (Draw × RuleBundleRuleDto) → RequestUser → Action (List Rule)
    unfolding assert_rule_manager get_cached_active_rules insert_audit_log
    import_rules now schema_version items caller = do
      org_id ← assert_rule_manager caller
      active ← get_cached_active_rules now org_id
      staged ← stage_rules items org_id caller.id active []
      modify (λ w. record w { rules = save_all staged w.rules })
      insert_audit_log orm none caller.id "RULE_IMPORTED" none (
          some (
            Json.object (
              Fields.field "schema_version" (Json.text schema_version) (
                Fields.field "imported_rule_ids" (Json.array (ids_json staged))
                  (Fields.field "count" (Json.number (length staged)) Fields.end)))))
      modify (invalidate_org_rule_cache org_id)
      pure staged
