-- ===== src/Rules/Changes.antt =====
-- What a request to src/modules/rules does to the rules, their versions and the cache.
use back_end.Prelude.{
  ◌+◌, String, true, false, not, ◌≡◌, inl, inr, refl, sym, subst, some, ◌==◌, arith, Bool-cases,
}
use back_end.Database.Rows.{Contains}
use back_end.Database.Lists.{filter-Contains}
use back_end.Database.Json.{Json}
use back_end.Database.Enums.{rule_scope_Eq, user_role_Eq}
use back_end.Database.Orm.{Orm}
use back_end.Database.Entities.{Uuid}
use back_end.Database.RuleEntities.{Rule, ActiveRules, rule_entity}
use back_end.World.{World, Action, pure, ◌>>◌}
use back_end.Rules.Access.{RequestUser, UpdateRuleDto, snapshot}
use back_end.Rules.Service.{
  Draw, changed, has_changes, turned, create, update, activate, deactivate, soft_delete,
}
use back_end.Rules.Conflicts.{next-IsClear, IsClear, ensure_outcome}
use back_end.Rules.Requests.{
  Request, add, revise, switch_on, switch_off, remove, serve, Kept-of, without_org, Change,
}
use back_end.Rules.Guards.{manager_outcome, rule_outcome}
use back_end.Rules.Creation.{create-Change}

module _ (orm : Orm) (stringify : Json → String) (trim : String → String) (caller : RequestUser)
    (w : World) where
  deactivate-Change :
      (d : Draw) (id : Uuid)
      → Change orm stringify trim w (switch_off d id) (deactivate orm d id caller w).1
  unfolding deactivate
  deactivate-Change d id = elim (manager_outcome caller w) [
    | inl (x, m) ↦
        inl
          (Kept-of w (deactivate orm d id caller w).1 (ground arith) (ground arith) (ground arith))
    | inr (org, m) ↦ elim (rule_outcome orm w id org) [
      | inl f ↦
          inl (
            Kept-of w (deactivate orm d id caller w).1 (ground arith) (ground arith) (ground arith))
      | inr (r, f, c, o) ↦ elim (Bool-cases r.is_active) [
        | inr off ↦ inl (
            Kept-of w (deactivate orm d id caller w).1 (ground arith) (ground arith) (ground arith))
        | inl on ↦ inr (
            inl (
              org,
              record {
                old = r;
                row = turned orm false d.now r;
                stored = snapshot d.id r caller.id;
                old_in = c;
                same_id = refl;
                old_org = o;
                row_org = o;
                next = refl;
                stored_of = refl;
                stored_version = refl;
                is_clear = λ b _ _ _ _ l. ground (arith, l);
                rules = ground arith;
                versions = ground arith;
                cache = ground arith;
              },
            ))
      ]
    ]
  ]

  soft_delete-Change :
      (d : Draw) (id : Uuid)
      → Change orm stringify trim w (remove d id) (soft_delete orm d id caller w).1
  unfolding soft_delete
  soft_delete-Change d id = elim (manager_outcome caller w) [
    | inl (x, m) ↦
        inl
          (Kept-of w (soft_delete orm d id caller w).1 (ground arith) (ground arith) (ground arith))
    | inr (org, m) ↦ elim (rule_outcome orm w id org) [
      | inl f ↦
          inl (
            Kept-of w (soft_delete orm d id caller w).1 (ground arith) (ground arith)
              (ground arith))
      | inr (r, f, c, o) ↦ elim (Bool-cases r.is_active) [
        | inr off ↦
            let gone : (soft_delete orm d id caller w).1.active_rule_cache ≡ without_org org w =
              ground arith in
            inl (
              ground arith,
              ground arith,
              λ e m.
                  ((filter-Contains (λ (e : ActiveRules). not (e.org_id == org)) w.active_rule_cache
                      e).0
                    (subst (Contains e) gone m)).0,
            )
        | inl on ↦ inr (
            inl (
              org,
              record {
                old = r;
                row = turned orm false d.now r;
                stored = snapshot d.id r caller.id;
                old_in = c;
                same_id = refl;
                old_org = o;
                row_org = o;
                next = refl;
                stored_of = refl;
                stored_version = refl;
                is_clear = λ b _ _ _ _ l. ground (arith, l);
                rules = ground arith;
                versions = ground arith;
                cache = ground arith;
              },
            ))
      ]
    ]
  ]

  activate-Change :
      (d : Draw) (id : Uuid)
      → Change orm stringify trim w (switch_on d id) (activate orm stringify trim d id caller w).1
  unfolding activate
  activate-Change d id = elim (manager_outcome caller w) [
    | inl (x, m) ↦ inl (
        Kept-of w (activate orm stringify trim d id caller w).1 (ground arith) (ground arith)
          (ground arith))
    | inr (org, m) ↦ elim (rule_outcome orm w id org) [
      | inl f ↦ inl (
          Kept-of w (activate orm stringify trim d id caller w).1 (ground arith) (ground arith)
            (ground arith))
      | inr (r, f, c, o) ↦ elim (Bool-cases r.is_active) [
        | inl on ↦ inl (
            Kept-of w (activate orm stringify trim d id caller w).1 (ground arith) (ground arith)
              (ground arith))
        | inr off ↦
            elim (ensure_outcome stringify trim orm w (record r { is_active = true }) (some r.id)
              (inr refl)) [
                | inr (x, p, (a, b, k)) ↦ inl (
                    Kept-of w (activate orm stringify trim d id caller w).1 (ground arith)
                      (ground arith) (ground arith))
                | inl (p, clear) ↦ inr (
                    inl (
                      org,
                      record {
                        old = r;
                        row = turned orm true d.now r;
                        stored = snapshot d.id r caller.id;
                        old_in = c;
                        same_id = refl;
                        old_org = o;
                        row_org = o;
                        next = refl;
                        stored_of = refl;
                        stored_version = refl;
                        is_clear =
                            next-IsClear stringify trim w.rules (record r { is_active = true })
                              (r.version + 1) d.now clear;
                        rules = ground arith;
                        versions = ground arith;
                        cache = ground arith;
                      },
                    ))
              ]
      ]
    ]
  ]

  -- The next version of a rule that `update` writes.
  abbrev next_rule : Draw → UpdateRuleDto → Rule → Rule
  next_rule d dto r = record (changed trim dto r) { version = r.version + 1; updated_at = d.now }

  update-Change :
      (d : Draw) (id : Uuid) (dto : UpdateRuleDto)
      → Change orm stringify trim w
          (revise d id dto)
          (update orm stringify trim d id dto caller w).1
  unfolding update
  update-Change d id dto = elim (manager_outcome caller w) [
    | inl (x, m) ↦ inl (
        Kept-of w (update orm stringify trim d id dto caller w).1 (ground arith) (ground arith)
          (ground arith))
    | inr (org, m) ↦ elim (rule_outcome orm w id org) [
      | inl f ↦ inl (
          Kept-of w (update orm stringify trim d id dto caller w).1 (ground arith) (ground arith)
            (ground arith))
      | inr (r, f, c, o) ↦ elim (Bool-cases (has_changes stringify (changed trim dto r) r)) [
        | inr same ↦ inl (
            Kept-of w (update orm stringify trim d id dto caller w).1 (ground arith) (ground arith)
              (ground arith))
        | inl new ↦
            let done : IsClear stringify trim w.rules (next_rule d dto r)
                → (update orm stringify trim d id dto caller w).1.rules
                  ≡ orm.save (next_rule d dto r) w.rules
                → (update orm stringify trim d id dto caller w).1.rule_versions
                  ≡ orm.insert (snapshot d.id r caller.id) w.rule_versions
                → (update orm stringify trim d id dto caller w).1.active_rule_cache
                  ≡ without_org org w
                → Change orm stringify trim w (revise d id dto)
                    (update orm stringify trim d id dto caller w).1 =
              λ clear a b k. inr (
                inl (
                  org,
                  record {
                    old = r;
                    row = next_rule d dto r;
                    stored = snapshot d.id r caller.id;
                    old_in = c;
                    same_id = refl;
                    old_org = o;
                    row_org = o;
                    next = refl;
                    stored_of = refl;
                    stored_version = refl;
                    is_clear = clear;
                    rules = a;
                    versions = b;
                    cache = k;
                  },
                )) in
            elim (Bool-cases (changed trim dto r).is_active) [
              | inr off ↦
                  done (λ b _ _ _ _ l. ground (arith, l)) (ground arith) (ground arith)
                    (ground arith)
              | inl on ↦
                  elim (ensure_outcome stringify trim orm w (changed trim dto r) (some r.id)
                    (inr refl)) [
                      | inr (x, p, (a, b, k)) ↦ inl (
                          Kept-of w (update orm stringify trim d id dto caller w).1 (ground arith)
                            (ground arith) (ground arith))
                      | inl (p, clear) ↦
                          done
                            (next-IsClear stringify trim w.rules (changed trim dto r)
                              (r.version + 1) d.now clear)
                            (ground arith) (ground arith) (ground arith)
                    ]
            ]
      ]
    ]
  ]

  -- The world of a method is the world of the request.
  to_serve :
      (r : Request) (m : Action Rule)
      → Change orm stringify trim w r (m w).1
      → Change orm stringify trim w r ((m >> pure tt) w).1
  to_serve r m c =
      let same : ((m >> pure tt) w).1 ≡ (m w).1 = ground arith in
      subst (Change orm stringify trim w r) (sym same) c

  pub serve-Change :
      (r : Request) → Change orm stringify trim w r (serve orm stringify trim r caller w).1
  unfolding serve
  serve-Change (add d dto) =
      to_serve (add d dto) (create orm stringify trim d dto caller)
        (create-Change orm stringify trim caller w d dto)
  serve-Change (revise d id dto) =
      to_serve (revise d id dto) (update orm stringify trim d id dto caller)
        (update-Change d id dto)
  serve-Change (switch_on d id) =
      to_serve (switch_on d id) (activate orm stringify trim d id caller) (activate-Change d id)
  serve-Change (switch_off d id) =
      to_serve (switch_off d id) (deactivate orm d id caller) (deactivate-Change d id)
  serve-Change (remove d id) = soft_delete-Change d id
