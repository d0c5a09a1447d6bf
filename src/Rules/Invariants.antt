-- ===== src/Rules/Invariants.antt =====
-- What every request to src/modules/rules that changes one rule keeps: no two rules in force contradict
-- each other, the history of a rule has no gap, and the cache shows what the table holds. The import of
-- a bundle is not such a request: it stores the versions that the bundle gives.
use back_end.Prelude.{
  ===_flip, and_iff, ℕ, ◌≤◌, ◌<◌, String, true, false, ◌≡◌, ◌≢◌, inl, inr, refl, sym, ◌∙◌, ap,
  subst, List, some, ◌==◌, ==_iff, option_Eq, nat_Eq, arith, Bool-cases,
}
use back_end.Database.Rows.{Contains, Every}
use back_end.Database.Json.{Json}
use back_end.Database.Enums.{rule_type_Eq, rule_type_beq_iff, rule_scope_Eq, agent_type_Eq}
use back_end.Database.Orm.{Orm}
use back_end.Database.Entities.{Uuid}
use back_end.Database.RuleEntities.{Rule, RuleVersion, rule_entity}
use back_end.World.{World}
use back_end.Rules.Conditions.{is_contradictable}
use back_end.Rules.Access.{RequestUser, same_slot}
use back_end.Rules.Conflicts.{conflict, conflict_sym, IsClear}
use back_end.Rules.Requests.{Request, serve, new_id_of, Revised, Added}
use back_end.Rules.Changes.{serve-Change}

-- Of two active rules of one type, scope, agent and workflow neither contradicts the other, where
-- their type is one that can contradict.
abbrev pub HasNoConflict : (Json → String) → (String → String) → List Rule → Type 0
HasNoConflict stringify trim t = Every (IsClear stringify trim t) t

-- The stored versions of `x` are 1, …, `x.version - 1`.
abbrev pub HasHistory : List RuleVersion → Rule → Type 0
HasHistory versions x =
    (1 ≤ x.version)
    × ((n : ℕ)
        → 1 ≤ n
        → n < x.version
        → (v : RuleVersion) × Contains v versions × (v.rule_id ≡ x.id) × (v.version ≡ n))
    × ((v : RuleVersion)
        → Contains v versions
        → v.rule_id ≡ x.id
        → (1 ≤ v.version) × (v.version < x.version))

module _ (orm : Orm) (stringify : Json → String) (trim : String → String) where
  slot_sym :
      (a b : Rule)
      → a.is_active ≡ true
      → same_slot a b ≡ true
      → (same_slot b a ≡ true) × (a.rule_type ≡ b.rule_type)
  slot_sym a b l s =
      let (s1, f) = (and_iff _ _).0 s in
      let (s2, g) = (and_iff _ _).0 s1 in
      let (s3, c) = (and_iff _ _).0 s2 in
      let (s4, t) = (and_iff _ _).0 s3 in
      let (o, _) = (and_iff _ _).0 s4 in
      (
        (and_iff _ _).1 (
          (and_iff _ _).1 (
            (and_iff _ _).1 (
              (and_iff _ _).1 (
                (and_iff _ _).1 (===_flip b.org_id a.org_id o, l),
                ===_flip b.rule_type a.rule_type t,
              ),
              ===_flip b.scope a.scope c,
            ),
            ===_flip b.target_agent a.target_agent g,
          ),
          ===_flip b.workflow_id a.workflow_id f,
        ),
        sym ((rule_type_beq_iff b.rule_type a.rule_type).0 t),
      )

  save-HasNoConflict :
      (t : List Rule) (row : Rule)
      → IsClear stringify trim t row
      → HasNoConflict stringify trim t
      → HasNoConflict stringify trim (orm.save row t)
  save-HasNoConflict t row clear h a ca b cb s n k l = elim (orm.save_other row t a ca) [
    | inl ea ↦ elim (orm.save_other row t b cb) [
      | inl eb ↦ absurd (n (ap (λ z. z.id) (eb ∙ sym ea)))
      | inr ob ↦
          subst
            (λ z.
              same_slot z b ≡ true
              → b.id ≢ z.id
              → is_contradictable z.rule_type ≡ true
              → z.is_active ≡ true
              → conflict stringify trim z b ≡ false)
            (sym ea) (clear b ob) s n k l
    ]
    | inr oa ↦ elim (orm.save_other row t b cb) [
      | inr ob ↦ h a oa b ob s n k l
      | inl eb ↦
          subst (λ z. same_slot a z ≡ true → z.id ≢ a.id → conflict stringify trim a z ≡ false)
            (sym eb)
            (λ s n.
              let (q, e) = slot_sym a row l s in
              conflict_sym stringify trim a row e
              ∙ clear a oa q (λ i. n (sym i)) (subst (λ z. is_contradictable z ≡ true) e k)
                  (ground arith))
            s n
    ]
  ]

  module _ (caller : RequestUser) (w : World) (r : Request) where
    abbrev after : World
    after = (serve orm stringify trim r caller w).1

    pub serve-HasNoConflict :
        HasNoConflict stringify trim w.rules → HasNoConflict stringify trim after.rules
    serve-HasNoConflict h = elim (serve-Change orm stringify trim caller w r) [
      | inl (e, _, _) ↦ subst (HasNoConflict stringify trim) (sym e) h
      | inr (inl (org, c)) ↦
          subst (HasNoConflict stringify trim) (sym c.rules)
            (save-HasNoConflict w.rules c.row c.is_clear h)
      | inr (inr (org, id, n, c)) ↦
          subst (HasNoConflict stringify trim) (sym c.rules)
            (save-HasNoConflict w.rules c.row c.is_clear h)
    ]

    -- The id of a rule that the request would add is no rule's, and no stored version's.
    abbrev DrawsNew : Type 0
    DrawsNew =
        (id : Uuid)
        → new_id_of r ≡ some id
        → Every (λ (x : Rule). x.id ≢ id) w.rules
          × Every (λ (v : RuleVersion). v.rule_id ≢ id) w.rule_versions

    Revised-HasHistory :
        (org : Uuid) (c : Revised orm (IsClear stringify trim w.rules) org w after)
        → Every (HasHistory w.rule_versions) w.rules
        → Every (HasHistory after.rule_versions) after.rules
    Revised-HasHistory org c h y m0 =
        let (p, f, g) = h c.old c.old_in in
        let m = subst (Contains y) c.rules m0 in
        subst (λ vs. HasHistory vs y) (sym c.versions)
          (elim (Bool-cases (y.id == c.row.id)) [
            | inl e ↦
                subst (HasHistory (orm.insert c.stored w.rule_versions))
                  (sym (orm.save_only c.row w.rules y m (ground arith)))
                  (
                    omega (arith, c.next),
                    λ n a b. elim (Bool-cases (n == c.old.version)) [
                      | inl q ↦ (
                        c.stored,
                        (orm.insert_iff c.stored w.rule_versions c.stored).1 (inl refl),
                        c.stored_of ∙ sym c.same_id,
                        c.stored_version ∙ sym ((==_iff n c.old.version).0 q),
                      )
                      | inr q ↦
                          let (v, k, i, p) = f n a (ground (arith, c.next)) in
                          (
                            v,
                            (orm.insert_iff c.stored w.rule_versions v).1 (inr k),
                            i ∙ sym c.same_id,
                            p,
                          )
                    ],
                    λ v k i. elim ((orm.insert_iff c.stored w.rule_versions v).0 k) [
                      | inl q ↦ ground (
                        arith,
                        p,
                        ap (λ (z : RuleVersion). z.version) q,
                        c.stored_version,
                        c.next,
                      )
                      | inr o ↦ let (a, b) = g v o (i ∙ c.same_id) in (a, ground (arith, c.next))
                    ],
                  )
            | inr e ↦ elim (orm.save_other c.row w.rules y m) [
              | inl q ↦ ground (arith, ap (λ (z : Rule). z.id) q)
              | inr o ↦
                  let (z, a, b) = h y o in
                  (
                    z,
                    λ n l k.
                        let (v, d, i, p) = a n l k in
                        (v, (orm.insert_iff c.stored w.rule_versions v).1 (inr d), i, p),
                    λ v k i. elim ((orm.insert_iff c.stored w.rule_versions v).0 k) [
                      | inl q ↦
                          ground
                            (arith, ap (λ (z : RuleVersion). z.rule_id) q, c.stored_of, c.same_id)
                      | inr d ↦ b v d i
                    ],
                  )
            ]
          ])

    Added-HasHistory :
        (org id : Uuid) (c : Added orm (IsClear stringify trim w.rules) id org w after)
        → Every (λ (v : RuleVersion). v.rule_id ≢ id) w.rule_versions
        → Every (HasHistory w.rule_versions) w.rules
        → Every (HasHistory after.rule_versions) after.rules
    Added-HasHistory org id c new h y m0 =
        let m = subst (Contains y) c.rules m0 in
        subst (λ vs. HasHistory vs y) (sym c.versions)
          (elim (orm.save_other c.row w.rules y m) [
            | inl e ↦ subst (HasHistory w.rule_versions) (sym e) (
              omega (arith, c.first),
              (λ n a b. absurd (ground (arith, c.first, a, b))),
              λ v d i. absurd (new v d (i ∙ c.new_id)),
            )
            | inr o ↦ h y o
          ])

    -- Every request that creates, changes, switches or deletes one rule keeps each rule's stored
    -- versions numbered from 1 to the one before its version, where a new rule's id is new and they
    -- were so before; the import of a bundle is no such request.
    pub serve-HasHistory :
        DrawsNew
        → Every (HasHistory w.rule_versions) w.rules
        → Every (HasHistory after.rule_versions) after.rules
    serve-HasHistory new h = elim (serve-Change orm stringify trim caller w r) [
      | inl (e, f, _) ↦
          subst (λ t. Every (HasHistory after.rule_versions) t) (sym e)
            (subst (λ vs. Every (HasHistory vs) w.rules) (sym f) h)
      | inr (inl (org, c)) ↦ Revised-HasHistory org c h
      | inr (inr (org, id, n, c)) ↦ Added-HasHistory org id c (new id n).1 h
    ]
