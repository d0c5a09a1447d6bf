-- ===== src/Rules/Creation.antt =====
-- What the creation of a rule does.
use back_end.Prelude.{◌∙◌, String, true, ◌≡◌, inl, inr, refl, sym, subst, ap, none, arith}
use back_end.Database.Json.{Json}
use back_end.Database.Enums.{rule_scope_Eq, user_role_Eq}
use back_end.Database.Orm.{Orm}
use back_end.Database.Entities.{Uuid}
use back_end.Database.RuleEntities.{Rule, rule_entity}
use back_end.World.{bind_lem, bind_err, World, Action, Exception, ok, err, ◌>>=◌}
use back_end.Rules.Access.{
  RequestUser, CreateRuleDto, assert_rule_manager, ensure_no_conflict, assert_scope_consistency,
}
use back_end.Rules.Service.{Draw, add_rule, new_rule, create}
use back_end.Rules.Conflicts.{ensure_outcome, IsClear}
use back_end.Rules.Requests.{add, Kept, Kept-of, without_org, Change}
use back_end.Rules.Guards.{manager_outcome, scope_outcome}

module _ (orm : Orm) (stringify : Json → String) (trim : String → String) (caller : RequestUser)
    (w : World) where
  -- The stages of `create`.
  module _ (d : Draw) (dto : CreateRuleDto) where
    abbrev candidate : Uuid → Rule
    candidate org = new_rule trim d dto org caller.id 1 true

    abbrev stored : Uuid → Action Rule
    stored org = add_rule orm (candidate org) org caller.id

    abbrev checked : Uuid → Action (Unit {0})
    checked org = ensure_no_conflict orm stringify trim (candidate org) none none

    abbrev in_scope : Uuid → Action (Unit {0})
    in_scope org = assert_scope_consistency orm dto.scope dto.workflow_id dto.target_agent org

    abbrev after_scope : Uuid → Action Rule
    after_scope org = checked org >>= λ _. stored org

    abbrev after_manager : Uuid → Action Rule
    after_manager org = in_scope org >>= λ _. after_scope org

    in_manager :
        (org : Uuid)
        → assert_rule_manager caller w ≡ (ok org, w)
        → create orm stringify trim d dto caller w ≡ after_manager org w
    unfolding create
    in_manager org m = bind_lem (assert_rule_manager caller) after_manager w m

    no_manager :
        (x : Exception)
        → assert_rule_manager caller w ≡ (err x, w)
        → create orm stringify trim d dto caller w ≡ (err x, w)
    unfolding create
    no_manager x m = bind_err (assert_rule_manager caller) after_manager w m

    out_of_scope :
        (org : Uuid) (x : Exception)
        → assert_rule_manager caller w ≡ (ok org, w)
        → in_scope org w ≡ (err x, w)
        → create orm stringify trim d dto caller w ≡ (err x, w)
    out_of_scope org x m f = in_manager org m ∙ bind_err (in_scope org) (λ _. after_scope org) w f

    in_conflict :
        (org : Uuid) (x : Exception)
        → assert_rule_manager caller w ≡ (ok org, w)
        → in_scope org w ≡ (ok tt, w)
        → (checked org w).0 ≡ err x
        → create orm stringify trim d dto caller w ≡ (err x, (checked org w).1)
    in_conflict org x m f p =
        in_manager org m
        ∙ bind_lem (in_scope org) (λ _. after_scope org) w f
        ∙ bind_err (checked org) (λ _. stored org) w (ap (λ r. (r, (checked org w).1)) p)

    create_done :
        (org : Uuid)
        → assert_rule_manager caller w ≡ (ok org, w)
        → in_scope org w ≡ (ok tt, w)
        → checked org w ≡ (ok tt, w)
        → create orm stringify trim d dto caller w ≡ stored org w
    create_done org m f p =
        in_manager org m
        ∙ bind_lem (in_scope org) (λ _. after_scope org) w f
        ∙ bind_lem (checked org) (λ _. stored org) w p

  add_rule_lem :
      (row : Rule) (org user_id : Uuid)
      → ((add_rule orm row org user_id w).1.rules ≡ orm.save row w.rules)
        × ((add_rule orm row org user_id w).1.rule_versions ≡ w.rule_versions)
        × ((add_rule orm row org user_id w).1.active_rule_cache ≡ without_org org w)
  unfolding add_rule
  add_rule_lem row org user_id = (ground arith, ground arith, ground arith)

  refused :
      (d : Draw) (dto : CreateRuleDto) (x : Exception) (w' : World)
      → create orm stringify trim d dto caller w ≡ (err x, w')
      → Kept w w'
      → Change orm stringify trim w (add d dto) (create orm stringify trim d dto caller w).1
  refused d dto x w' e k = subst (λ p. Change orm stringify trim w (add d dto) p.1) (sym e) (inl k)

  created :
      (d : Draw) (dto : CreateRuleDto) (org : Uuid)
      → create orm stringify trim d dto caller w ≡ stored d dto org w
      → IsClear stringify trim w.rules (candidate d dto org)
      → Change orm stringify trim w (add d dto) (create orm stringify trim d dto caller w).1
  created d dto org e clear =
      subst (λ p. Change orm stringify trim w (add d dto) p.1) (sym e)
        (inr (
          inr (
            org,
            d.id,
            refl,
            record {
              row = candidate d dto org;
              new_id = refl;
              first = refl;
              row_org = refl;
              is_clear = clear;
              rules = (add_rule_lem (candidate d dto org) org caller.id).0;
              versions = (add_rule_lem (candidate d dto org) org caller.id).1;
              cache = (add_rule_lem (candidate d dto org) org caller.id).2;
            },
          )))

  pub create-Change :
      (d : Draw) (dto : CreateRuleDto)
      → Change orm stringify trim w (add d dto) (create orm stringify trim d dto caller w).1
  create-Change d dto = elim (manager_outcome caller w) [
    | inl (x, m) ↦ refused d dto x w (no_manager d dto x m) (Kept-of w w refl refl refl)
    | inr (org, m) ↦ elim (scope_outcome orm w dto org) [
      | inr (x, f) ↦ refused d dto x w (out_of_scope d dto org x m f) (Kept-of w w refl refl refl)
      | inl f ↦ elim (ensure_outcome stringify trim orm w (candidate d dto org) none (inl refl)) [
        | inr (x, p, (a, b, k)) ↦
            refused d dto x (checked d dto org w).1 (in_conflict d dto org x m f p)
              (Kept-of w (checked d dto org w).1 a b k)
        | inl (p, clear) ↦ created d dto org (create_done d dto org m f p) clear
      ]
    ]
  ]
