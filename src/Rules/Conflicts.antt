-- ===== src/Rules/Conflicts.antt =====
-- The test of a conflict (`ensureNoConflict` of src/modules/rules/rules.service.ts): which of two
-- rules is the candidate makes no difference, and what the check has passed is free of conflicts.
use back_end.Prelude.{
  subst, Bool-ext, ===_sym, ℕ, String, Bool, true, false, not, ◌&&◌, ◌||◌, ◌≡◌, ◌≢◌, ◌⊎◌, inl, inr,
  refl, sym, List, Option, none, some, ◌==◌, ◌===◌, string_Eq, nat_Eq, option_Eq, array_find, arith,
  Bool-cases, Option-cases,
}
use back_end.Database.Rows.{Contains}
use back_end.Database.Lists.{some_iff, find-none}
use back_end.Database.Json.{Json, Fields, get_property, keys}
use back_end.Database.Enums.{RuleType, rule_type_Eq, rule_scope_Eq}
use back_end.Database.Orm.{Orm}
use back_end.Database.Entities.{Uuid}
use back_end.Database.RuleEntities.{Rule}
use back_end.World.{World, Exception, ok, err, conflict_with}
use back_end.Rules.Conditions.{
  sources, targets, structures, modes, is_contradictable, agrees_on, conditions_overlap,
  pick_first_value, compare_texts, verdict, has_type_specific_conflict,
}
use back_end.Rules.Access.{
  conflict_payload, same_slot, conflicts_with, ensure_no_conflict, stands_before,
}

module _ (stringify : Json → String) (trim : String → String) where
  -- Two rules that contradict each other where both apply.
  abbrev pub conflict : Rule → Rule → Bool
  conflict a b =
      conditions_overlap stringify a.condition b.condition && has_type_specific_conflict trim a b

  key-Contains :
      (k : String) (fs : Fields) (v : Json) → get_property k fs ≡ some v → Contains k (keys fs)
  unfolding get_property
  key-Contains k Fields.end v h = ground arith
  key-Contains k (Fields.field l u fs) v h = elim (Bool-cases (k === l)) [
    | inl e ↦ inl ((string_Eq.beq_iff k l).0 e)
    | inr e ↦ inr (key-Contains k fs v (ground arith))
  ]

  agrees_sym :
      (a b : Fields) (k : String)
      → agrees_on stringify a b k ≡ true
      → agrees_on stringify b a k ≡ true
  agrees_sym a b k h = elim (Option-cases (get_property k a)) [
    | inl e ↦ elim (Option-cases (get_property k b)) [
      | inl f ↦ ground arith
      | inr (y, f) ↦ ground arith
    ]
    | inr (x, e) ↦ elim (Option-cases (get_property k b)) [
      | inl f ↦ ground arith
      | inr (y, f) ↦
          let same : (stringify x === stringify y) ≡ true = ground arith in
          let back =
            (string_Eq.beq_iff (stringify y) (stringify x)).1
              (sym ((string_Eq.beq_iff (stringify x) (stringify y)).0 same)) in
          rw (e, f) back
    ]
  ]

  overlap_to :
      (a b : Option Fields)
      → conditions_overlap stringify a b ≡ true
      → conditions_overlap stringify b a ≡ true
  unfolding conditions_overlap
  overlap_to none none h = h
  overlap_to none (some b) h = ground arith
  overlap_to (some a) none h = ground arith
  overlap_to (some a) (some b) h =
      let (k, c, g) = (some_iff (agrees_on stringify a b) (keys a)).0 h in
      elim (Option-cases (get_property k b)) [
        | inl e ↦ ground arith
        | inr (v, e) ↦
            (some_iff (agrees_on stringify b a) (keys b)).1
              (k, key-Contains k b v e, agrees_sym a b k g)
      ]

  overlap_sym :
      (a b : Option Fields) → conditions_overlap stringify a b ≡ conditions_overlap stringify b a
  overlap_sym a b = Bool-ext _ _ (overlap_to a b) (overlap_to b a)

  compare_texts_sym : (a b c d : Option String) → compare_texts a b c d ≡ compare_texts b a d c
  compare_texts_sym none none c d = refl
  compare_texts_sym none (some r) c d = refl
  compare_texts_sym (some l) none c d = refl
  compare_texts_sym (some l) (some r) none none = refl
  compare_texts_sym (some l) (some r) none (some y) = refl
  compare_texts_sym (some l) (some r) (some x) none = refl
  compare_texts_sym (some l) (some r) (some x) (some y) = rw (===_sym l r, ===_sym x y) refl

  verdict_sym : (t : RuleType) (a b : Option Fields) → verdict trim t a b ≡ verdict trim t b a
  verdict_sym RuleType.actor_mapping a b =
      compare_texts_sym (pick_first_value trim a sources) (pick_first_value trim b sources)
        (pick_first_value trim a targets) (pick_first_value trim b targets)
  verdict_sym RuleType.structural_constraint a b =
      compare_texts_sym (pick_first_value trim a structures) (pick_first_value trim b structures)
        (pick_first_value trim a modes) (pick_first_value trim b modes)
  verdict_sym RuleType.extraction a b = refl
  verdict_sym RuleType.validation a b = refl
  verdict_sym RuleType.naming_convention a b = refl
  verdict_sym RuleType.prompt_injection a b = refl

  -- Of two rules of one type it makes no difference which one is the candidate.
  pub conflict_sym : (a b : Rule) → a.rule_type ≡ b.rule_type → conflict a b ≡ conflict b a
  unfolding has_type_specific_conflict
  conflict_sym a b e =
      let v : verdict trim a.rule_type a.condition b.condition
          ≡ verdict trim b.rule_type b.condition a.condition =
        subst
          (λ t.
            verdict trim t a.condition b.condition
            ≡ verdict trim b.rule_type b.condition a.condition)
          (sym e) (verdict_sym b.rule_type a.condition b.condition) in
      rw (overlap_sym a.condition b.condition, v, ===_sym (trim a.instruction) (trim b.instruction))
        refl

  -- No active rule of the same type, scope, agent and workflow conflicts with this one.
  abbrev pub IsClear : List Rule → Rule → Type 0
  IsClear t a =
      (b : Rule)
      → Contains b t
      → same_slot a b ≡ true
      → b.id ≢ a.id
      → is_contradictable a.rule_type ≡ true
      → a.is_active ≡ true
      → conflict a b ≡ false

  -- The version and the time of a rule make no difference.
  pub next-IsClear :
      (t : List Rule) (a : Rule) (version now : ℕ)
      → IsClear t a
      → IsClear t (record a { version = version; updated_at = now })
  unfolding has_type_specific_conflict
  next-IsClear t a version now h = h

  -- The rules, their versions and the cache are as they were.
  abbrev pub HasTables : World → World → Type 0
  HasTables w w' =
      (w'.rules ≡ w.rules)
      × (w'.rule_versions ≡ w.rule_versions)
      × (w'.active_rule_cache ≡ w.active_rule_cache)

  module _ (orm : Orm) (w : World) where
    -- The check passes only a rule that is clear of the table, and stops the request otherwise;
    -- the tables and the caches stay as they are.
    pub ensure_outcome :
        (a : Rule) (exclude : Option Uuid)
        → (exclude ≡ none) ⊎ (exclude ≡ some a.id)
        → ((ensure_no_conflict orm stringify trim a exclude none w ≡ (ok tt, w))
            × IsClear w.rules a)
          ⊎ ((e : Exception) × ((ensure_no_conflict orm stringify trim a exclude none w).0 ≡ err e)
              × HasTables w (ensure_no_conflict orm stringify trim a exclude none w).1)
    unfolding ensure_no_conflict
    ensure_outcome a exclude x =
        elim (Bool-cases (not a.is_active || not (is_contradictable a.rule_type))) [
          | inl skip ↦ inl (rw skip refl, λ b c s n k l. ground arith)
          | inr go ↦
              let pool = orm.find_ordered stands_before (same_slot a) w.rules in
              elim (Option-cases (array_find (conflicts_with stringify trim a exclude) pool)) [
                | inl e ↦ inl (
                  ground arith,
                  λ b c s n k l.
                      let f =
                        find-none (conflicts_with stringify trim a exclude) pool b e
                          ((orm.find_ordered_iff stands_before (same_slot a) w.rules b).1 (c, s)) in
                      other a b exclude x n f,
                )
                | inr (b, e) ↦ inr (
                  conflict_with (conflict_payload stringify a b Fields.end),
                  ground arith,
                  (ground arith, ground arith, ground arith),
                )
              ]
        ]
      where
        other :
            (a b : Rule) (exclude : Option Uuid)
            → (exclude ≡ none) ⊎ (exclude ≡ some a.id)
            → b.id ≢ a.id
            → conflicts_with stringify trim a exclude b ≡ false
            → conflict a b ≡ false
        other a b exclude (inl e) n f = ground arith
        other a b exclude (inr e) n f =
            let differs : (a.id == b.id) ≡ false = ground (arith, λ (q : a.id ≡ b.id). n (sym q)) in
            ground arith
