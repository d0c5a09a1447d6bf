-- ===== src/Rules/Requests.antt =====
-- The requests of src/modules/rules/rules.controller.ts that change one rule, and what they can do
-- to the rules, their versions and the cache.
use back_end.Prelude.{◌+◌, String, ◌≡◌, ◌⊎◌, subst, List, Option, none, some}
use back_end.Database.Rows.{Contains}
use back_end.Database.Json.{Json}
use back_end.Database.Enums.{rule_scope_Eq, user_role_Eq}
use back_end.Database.Orm.{Orm}
use back_end.Database.Entities.{Uuid}
use back_end.Database.RuleEntities.{Rule, RuleVersion, ActiveRules, rule_entity}
use back_end.World.{World, Action, pure, ◌>>◌}
use back_end.Rules.Access.{RequestUser, CreateRuleDto, UpdateRuleDto, invalidate_org_rule_cache}
use back_end.Rules.Service.{Draw, create, update, activate, deactivate, soft_delete}
use back_end.Rules.Conflicts.{IsClear}

-- The requests of the controller that change one rule; the import of a bundle, the reads, the preview
-- and the test of a rule, which stand among them, are no such requests.
pub data Request : Type 0 where
  add : Draw → CreateRuleDto → Request
  revise : Draw → Uuid → UpdateRuleDto → Request
  switch_on : Draw → Uuid → Request
  switch_off : Draw → Uuid → Request
  remove : Draw → Uuid → Request

unfoldable pub serve :
    Orm → (Json → String) → (String → String) → Request → RequestUser → Action (Unit {0})
serve orm stringify trim (add d dto) caller = create orm stringify trim d dto caller >> pure tt
serve orm stringify trim (revise d id dto) caller =
    update orm stringify trim d id dto caller >> pure tt
serve orm stringify trim (switch_on d id) caller =
    activate orm stringify trim d id caller >> pure tt
serve orm stringify trim (switch_off d id) caller = deactivate orm d id caller >> pure tt
serve orm stringify trim (remove d id) caller = soft_delete orm d id caller

abbrev pub without_org : Uuid → World → List ActiveRules
without_org org_id w = (invalidate_org_rule_cache org_id w).active_rule_cache

-- Nothing changed but that cache entries may be gone.
abbrev pub Kept : World → World → Type 0
Kept w w' =
    (w'.rules ≡ w.rules)
    × (w'.rule_versions ≡ w.rule_versions)
    × ((e : ActiveRules) → Contains e w'.active_rule_cache → Contains e w.active_rule_cache)

pub Kept-of :
    (w w' : World)
    → w'.rules ≡ w.rules
    → w'.rule_versions ≡ w.rule_versions
    → w'.active_rule_cache ≡ w.active_rule_cache
    → Kept w w'
Kept-of w w' a b c = (a, b, λ e m. subst (Contains e) c m)

-- A rule of the caller's organisation went to its next version, and its last one was stored.
pub record Revised (orm : Orm) (clear : Rule → Type 0) (org_id : Uuid) (w w' : World) : Type 0 where
  pub old : Rule
  pub row : Rule
  pub stored : RuleVersion
  pub old_in : Contains old w.rules
  pub same_id : row.id ≡ old.id
  pub old_org : old.org_id ≡ org_id
  pub row_org : row.org_id ≡ org_id
  pub next : row.version ≡ old.version + 1
  pub stored_of : stored.rule_id ≡ old.id
  pub stored_version : stored.version ≡ old.version
  pub is_clear : clear row
  pub rules : w'.rules ≡ orm.save row w.rules
  pub versions : w'.rule_versions ≡ orm.insert stored w.rule_versions
  pub cache : w'.active_rule_cache ≡ without_org org_id w

-- A rule was added to the caller's organisation.
pub record Added (orm : Orm) (clear : Rule → Type 0) (id org_id : Uuid) (w w' : World)
    : Type 0 where
  pub row : Rule
  pub new_id : row.id ≡ id
  pub first : row.version ≡ 1
  pub row_org : row.org_id ≡ org_id
  pub is_clear : clear row
  pub rules : w'.rules ≡ orm.save row w.rules
  pub versions : w'.rule_versions ≡ w.rule_versions
  pub cache : w'.active_rule_cache ≡ without_org org_id w

abbrev pub new_id_of : Request → Option Uuid
new_id_of (add d _) = some d.id
new_id_of _ = none

-- The effect of a request.
abbrev pub Change : Orm → (Json → String) → (String → String) → World → Request → World → Type 0
Change orm stringify trim w r w' =
    Kept w w'
    ⊎ ((org_id : Uuid) × Revised orm (IsClear stringify trim w.rules) org_id w w')
    ⊎ ((org_id : Uuid) × (id : Uuid) × (new_id_of r ≡ some id)
        × Added orm (IsClear stringify trim w.rules) id org_id w w')
