-- ===== src/Rules/Cache.antt =====
-- The cache of src/modules/rules/rules.service.ts: what is read through it is what the table holds.
use back_end.Prelude.{
  and_iff, ℕ, ◌+◌, String, Bool, true, not, ltb, ◌&&◌, ◌≡◌, ◌≢◌, ◌↔◌, inl, inr, refl, sym, ◌∙◌, ap,
  subst, List, ◌∷◌, none, some, ◌==◌, ==_iff, arith, array_find, Option-cases,
}
use back_end.Database.Rows.{HasUniqueKeys, Contains, Every}
use back_end.Database.Lists.{filter-Contains, find-Contains}
use back_end.Database.Counting.{row_is_unique}
use back_end.Database.Json.{Json}
use back_end.Database.Orm.{Orm}
use back_end.Database.Entities.{Uuid, Instant}
use back_end.Database.RuleEntities.{Rule, RuleVersion, ActiveRules, rule_entity}
use back_end.World.{World, Result, ok}
use back_end.Rules.Access.{RequestUser, is_active_in, stands_before}
use back_end.Rules.Service.{get_cached_active_rules, active_rule_cache_ttl_ms}
use back_end.Rules.Requests.{Request, serve, new_id_of, without_org}
use back_end.Rules.Changes.{serve-Change}

-- A cache entry lists the active rules of its organisation, and no others.
abbrev pub IsCurrent : World → ActiveRules → Type 0
IsCurrent w e =
    (r : Rule) → Contains r e.rules ↔ (Contains r w.rules × (is_active_in e.org_id r ≡ true))

-- A read of an organisation's active rules answers exactly those, changes no rule and leaves a
-- current cache.
abbrev IsRead : Uuid → World → Result (List Rule) × World → Type 0
IsRead org_id w p =
    ((rows : List Rule) × (p.0 ≡ ok rows)
      × ((r : Rule) → Contains r rows ↔ (Contains r w.rules × (is_active_in org_id r ≡ true))))
    × (p.1.rules ≡ w.rules)
    × Every (IsCurrent p.1) p.1.active_rule_cache

abbrev pub ReadsCurrent : Orm → Instant → Uuid → World → Type 0
ReadsCurrent orm now org_id w = IsRead org_id w (get_cached_active_rules orm now org_id w)

module _ (orm : Orm) (now : Instant) (org_id : Uuid) (w : World) where
  abbrev fits : ActiveRules → Bool
  fits e = e.org_id == org_id && ltb now e.expires_at

  abbrev rows_of : List Rule
  rows_of = orm.find_ordered stands_before (is_active_in org_id) w.rules

  abbrev cached_now : World
  cached_now = record w {
    active_rule_cache =
        record { org_id = org_id; expires_at = now + active_rule_cache_ttl_ms; rules = rows_of }
        ∷ without_org org_id w;
  }

  found_in_cache :
      (e : ActiveRules)
      → array_find fits w.active_rule_cache ≡ some e
      → get_cached_active_rules orm now org_id w ≡ (ok e.rules, w)
  unfolding get_cached_active_rules
  found_in_cache e k = rw (k, get_cached_active_rules) refl

  found_in_table :
      array_find fits w.active_rule_cache ≡ none
      → get_cached_active_rules orm now org_id w ≡ (ok rows_of, cached_now)
  unfolding get_cached_active_rules
  found_in_table k = rw (k, get_cached_active_rules) refl

  cached_now-IsCurrent :
      Every (IsCurrent w) w.active_rule_cache
      → Every (IsCurrent cached_now) cached_now.active_rule_cache
  cached_now-IsCurrent h e (inl q) =
      subst (IsCurrent w) (sym q) (orm.find_ordered_iff stands_before (is_active_in org_id) w.rules)
  cached_now-IsCurrent h e (inr m) =
      h e
        ((filter-Contains (λ (e : ActiveRules). not (e.org_id == org_id)) w.active_rule_cache e).0
          m).0

  read-IsCurrent : Every (IsCurrent w) w.active_rule_cache → ReadsCurrent orm now org_id w
  read-IsCurrent h = elim (Option-cases (array_find fits w.active_rule_cache)) [
    | inr (e, k) ↦
        let (c, p) = find-Contains fits w.active_rule_cache e k in
        let i = (==_iff e.org_id org_id).0 ((and_iff _ _).0 p).0 in
        subst (IsRead org_id w) (sym (found_in_cache e k))
          ((e.rules, refl, subst (λ o. IsCurrent w (record e { org_id = o })) i (h e c)), refl, h)
    | inl k ↦ subst (IsRead org_id w) (sym (found_in_table k)) (
      (rows_of, refl, orm.find_ordered_iff stands_before (is_active_in org_id) w.rules),
      refl,
      cached_now-IsCurrent h,
    )
  ]

module _ (orm : Orm) (stringify : Json → String) (trim : String → String) (caller : RequestUser)
    (w : World) (r : Request) where
  abbrev after : World
  after = (serve orm stringify trim r caller w).1

  abbrev DrawsNew : Type 0
  DrawsNew =
      (id : Uuid)
      → new_id_of r ≡ some id
      → Every (λ (x : Rule). x.id ≢ id) w.rules
        × Every (λ (v : RuleVersion). v.rule_id ≢ id) w.rule_versions

  -- The rules of another organisation are as they were.
  others :
      (org : Uuid) (row : Rule)
      → row.org_id ≡ org
      → ((b : Rule) → Contains b w.rules → b.id ≡ row.id → b.org_id ≡ org)
      → (x : Rule) → x.org_id ≢ org
      → Contains x (orm.save row w.rules) ↔ Contains x w.rules
  others org row o same x ne = (
    λ c. elim (orm.save_other row w.rules x c) [
      | inl e ↦ absurd (ne (ap (λ (z : Rule). z.org_id) e ∙ o))
      | inr d ↦ d
    ],
    λ c. orm.save_keeps row w.rules x (λ i. ne (same x c i)) c,
  )

  saved-IsCurrent :
      (org : Uuid) (row : Rule)
      → row.org_id ≡ org
      → ((b : Rule) → Contains b w.rules → b.id ≡ row.id → b.org_id ≡ org)
      → after.rules ≡ orm.save row w.rules
      → after.active_rule_cache ≡ without_org org w
      → Every (IsCurrent w) w.active_rule_cache
      → Every (IsCurrent after) after.active_rule_cache
  saved-IsCurrent org row o same a k h e c x =
      let (d, n) =
        (filter-Contains (λ (e : ActiveRules). not (e.org_id == org)) w.active_rule_cache e).0
          (subst (Contains e) k c) in
      let differs = λ (t : is_active_in e.org_id x ≡ true).
        let i = (==_iff x.org_id e.org_id).0 ((and_iff _ _).0 t).0 in
        λ (q : x.org_id ≡ org). absurd {A = ⊥} (ground (arith, i, q, n)) in
      let (f, g) = h e d x in
      (
        λ m.
            let (y, t) = f m in
            (subst (Contains x) (sym a) ((others org row o same x (differs t)).1 y), t),
        λ (y, t). g ((others org row o same x (differs t)).0 (subst (Contains x) a y), t),
      )

  serve-AllCurrent :
      HasUniqueKeys w.rules
      → DrawsNew
      → Every (IsCurrent w) w.active_rule_cache
      → Every (IsCurrent after) after.active_rule_cache
  serve-AllCurrent u new h = elim (serve-Change orm stringify trim caller w r) [
    | inl (e, _, k) ↦ λ x c.
        subst
          (λ t. (z : Rule) → Contains z x.rules ↔ (Contains z t × (is_active_in x.org_id z ≡ true)))
          (sym e) (h x (k x c))
    | inr (inl (org, c)) ↦
        saved-IsCurrent org c.row c.row_org
          (λ b d i.
            ap (λ (z : Rule). z.org_id) (row_is_unique w.rules b c.old u d c.old_in (i ∙ c.same_id))
            ∙ c.old_org)
          c.rules c.cache h
    | inr (inr (org, id, n, c)) ↦
        saved-IsCurrent org c.row c.row_org (λ b d i. absurd ((new id n).0 b d (i ∙ c.new_id)))
          c.rules c.cache h
  ]

  -- After a request that creates, changes, switches or deletes one rule, the read of an
  -- organisation's active rules through the cache gives exactly the rules of the table that are
  -- active in the organisation, and every entry that it leaves in the cache lists exactly those of
  -- its own, where no two rules have one id, a new rule's id is new and the entries before were
  -- so.
  pub serve-IsCurrent :
      (now org_id : ℕ)
      → HasUniqueKeys w.rules
      → DrawsNew
      → Every (IsCurrent w) w.active_rule_cache
      → ReadsCurrent orm now org_id after
  serve-IsCurrent now org_id u new h =
      read-IsCurrent orm now org_id after (serve-AllCurrent u new h)
