-- ===== src/Rules/Tests.antt =====
-- Runs of the rule component: a rule of organisation 1 in its second version, whose active rules
-- the cache holds, and one that is switched off.
use back_end.Prelude.{
  String, true, false, ◌≡◌, ◌≢◌, refl, sym, subst, inl, inr, none, some, [], ◌∷◌, arith, ℕ,
}
use back_end.Database.Rows.{HasUniqueKeys, Every, Contains}
use back_end.Database.Json.{Json}
use back_end.Database.InMemory.{in_memory}
use back_end.Database.Enums.{UserRole, RuleType, RuleScope}
use back_end.Database.RuleEntities.{Rule, RuleVersion, ActiveRules, rule_entity}
use back_end.World.{World, Exception, err}
use back_end.World.Fixtures.{office}
use back_end.Rules.Access.{ensure_no_conflict, is_active_in, RequestUser, snapshot}
use back_end.Rules.Conditions.{conditions_overlap, has_type_specific_conflict, pick_first_value}
use back_end.Rules.Service.{activate}
use back_end.Rules.Requests.{Request, revise, switch_on, serve}
use back_end.Rules.Cache.{IsCurrent, ReadsCurrent, serve-IsCurrent}
use back_end.Rules.Invariants.{HasNoConflict, HasHistory, serve-HasNoConflict, serve-HasHistory}

abbrev ann : RequestUser
ann = record { id = 10; org_id = some 1; role = UserRole.admin }

abbrev naming : Rule
naming = record {
  id = 90;
  org_id = 1;
  workflow_id = none;
  name = "Actors";
  description = none;
  rule_type = RuleType.structural_constraint;
  scope = RuleScope.org;
  target_agent = none;
  condition = none;
  instruction = "Name every actor.";
  priority = 100;
  version = 2;
  is_active = true;
  created_by = 10;
  updated_at = 30;
}

abbrev unused : Rule
unused = record naming { id = 91; version = 1; is_active = false; instruction = "Name no actor." }

abbrev first_naming : RuleVersion
first_naming = snapshot 95 (record naming { version = 1 }) 10

abbrev cached : ActiveRules
cached = record { org_id = 1; expires_at = 90000; rules = naming ∷ [] }

abbrev rulebook : World
rulebook = record (office true) {
  rules = naming ∷ unused ∷ [];
  rule_versions = first_naming ∷ [];
  active_rule_cache = cached ∷ [];
}

abbrev rewording : Request
rewording =
    revise (record { id = 96; now = 40 }) 90
      (record {
        instruction = some "Name each actor.";
        condition = none;
        priority = none;
        is_active = none;
      })

abbrev no_text : Json → String
no_text j = ""

abbrev same_text : String → String
same_text s = s

rulebook-HasNoConflict : HasNoConflict no_text same_text rulebook.rules
rulebook-HasNoConflict a (inl e) b (inl f) s n k l = absurd (n (ground (arith, e, f)))
rulebook-HasNoConflict a (inl e) b (inr (inl f)) s n k l = ground (arith, e, f)
rulebook-HasNoConflict a (inr (inl e)) b c s n k l = ground (arith, e)
rulebook-HasNoConflict a (inr (inr x)) b c s n k l = elim x [ ]
rulebook-HasNoConflict a (inl e) b (inr (inr x)) s n k l = elim x [ ]

abbrev switching : Request
switching = switch_on (record { id = 97; now = 41 }) 91

-- The rule 91 contradicts the active rule 90, and is refused.
contradiction_refused :
    (e : Exception) × ((serve in_memory no_text same_text switching ann rulebook).0 ≡ err e)
unfolding serve activate ensure_no_conflict conditions_overlap has_type_specific_conflict
    pick_first_value
contradiction_refused = (_, refl)

serve-HasNoConflict_example :
    HasNoConflict no_text same_text
      (serve in_memory no_text same_text switching ann rulebook).1.rules
serve-HasNoConflict_example =
    serve-HasNoConflict in_memory no_text same_text ann rulebook switching rulebook-HasNoConflict

no_id_90 :
    (x : ℕ)
    → none ≡ some x
    → Every (λ (r : Rule). r.id ≢ x) rulebook.rules
      × Every (λ (v : RuleVersion). v.rule_id ≢ x) rulebook.rule_versions
no_id_90 x e = absurd (ground (arith, e))

rulebook-HasHistory : Every (HasHistory rulebook.rule_versions) rulebook.rules
rulebook-HasHistory x (inl e) = (
  ground (arith, e),
  λ n a b. (first_naming, inl refl, ground (arith, e), ground (arith, e)),
  λ v c i. elim c [ inl q ↦ (ground (arith, q), ground (arith, q, e)) | inr z ↦ elim z [ ] ],
)
rulebook-HasHistory x (inr (inl e)) = (
  ground (arith, e),
  λ n a b. absurd (ground (arith, e, a, b)),
  λ v c i. elim c [ inl q ↦ absurd (ground (arith, q, e, i)) | inr z ↦ elim z [ ] ],
)
rulebook-HasHistory x (inr (inr z)) = elim z [ ]

serve-HasHistory_example :
    Every
      (HasHistory (serve in_memory no_text same_text rewording ann rulebook).1.rule_versions)
      (serve in_memory no_text same_text rewording ann rulebook).1.rules
serve-HasHistory_example =
    serve-HasHistory in_memory no_text same_text ann rulebook rewording no_id_90 rulebook-HasHistory

distinct : HasUniqueKeys rulebook.rules
distinct k = ground arith

active_of_1 :
    (r : Rule) → Contains r rulebook.rules → is_active_in 1 r ≡ true → Contains r cached.rules
active_of_1 r (inl e) t = inl e
active_of_1 r (inr (inl e)) t = ground (arith, e, t)
active_of_1 r (inr (inr x)) t = elim x [ ]

of_cached :
    (r : Rule) → Contains r cached.rules → Contains r rulebook.rules × (is_active_in 1 r ≡ true)
of_cached r (inl e) = (inl e, ground (arith, e))
of_cached r (inr x) = elim x [ ]

rulebook-IsCurrent : Every (IsCurrent rulebook) rulebook.active_rule_cache
rulebook-IsCurrent e (inl q) =
    subst (IsCurrent rulebook) (sym q) (λ r. (of_cached r, λ (c, t). active_of_1 r c t))
rulebook-IsCurrent e (inr z) = elim z [ ]

serve-IsCurrent_example :
    ReadsCurrent in_memory 42 1 (serve in_memory no_text same_text rewording ann rulebook).1
serve-IsCurrent_example =
    serve-IsCurrent in_memory no_text same_text ann rulebook rewording 42 1 distinct no_id_90
      rulebook-IsCurrent
