-- ===== src/Organizations/LastAdmin.antt =====
-- No request to src/modules/organizations leaves an organisation without an active administrator.
use back_end.Prelude.{
  subst, sym, refl, ◌≤◌, false, ◌≡◌, ◌⊎◌, inl, inr, some, ◌==◌, ◌===◌, arith, Option-cases,
  Bool-cases, leb, sym,
}
use back_end.Database.Rows.{HasUniqueKeys, Contains, count_if}
use back_end.Database.Counting.{count_save_ge, count_save_uncounted}
use back_end.Database.Enums.{user_role_beq_iff, UserRole, user_role_Eq}
use back_end.Database.Orm.{Orm}
use back_end.Database.Entities.{Uuid, User, user_entity}
use back_end.World.{World, Exception, ok, err, not_found, bad_request, forbidden}
use back_end.Organizations.Service.{
  assert_admin, update_user_role, revoke_user, RequestUser, is_active_admin, is_member,
  find_org_user_or_throw, assert_not_last_active_admin,
}

-- The organisation has an active administrator.
abbrev pub HasActiveAdmin : Uuid → World → Type 0
HasActiveAdmin org_id w = 1 ≤ count_if (is_active_admin org_id) w.users

-- A caller is refused, or is an administrator of an organisation.
pub assert_admin_outcome :
    (w : World) (caller : RequestUser)
    → ((e : Exception) × (assert_admin caller w ≡ (err e, w)))
      ⊎ ((org_id : Uuid) × (assert_admin caller w ≡ (ok org_id, w))
          × (caller.org_id ≡ some org_id)
          × (caller.role ≡ UserRole.admin))
unfolding assert_admin
assert_admin_outcome w caller = elim (Option-cases caller.org_id) [
  | inl e ↦ inl (forbidden "Organization scope is required", rw e)
  | inr (org, e) ↦ elim (Bool-cases (caller.role === UserRole.admin)) [
    | inl a ↦ inr (org, ground arith, e, (user_role_beq_iff caller.role UserRole.admin).0 a)
    | inr n ↦ inl (forbidden "Admin role is required", ground arith)
  ]
]

module _ (orm : Orm) (w : World) where
  pub find_org_user_outcome :
      (user_id org_id : Uuid)
      → (find_org_user_or_throw orm user_id org_id w ≡ (err (not_found "User not found"), w))
        ⊎ ((u : User) × (find_org_user_or_throw orm user_id org_id w ≡ (ok u, w))
            × (orm.find_one (is_member user_id org_id) w.users ≡ some u)
            × Contains u w.users
            × (u.id ≡ user_id)
            × (u.org_id ≡ org_id))
  unfolding find_org_user_or_throw
  find_org_user_outcome user_id org_id =
      elim (Option-cases (orm.find_one (is_member user_id org_id) w.users)) [
        | inl e ↦ inl (rw e)
        | inr (u, e) ↦
            let (p, c) = orm.find_one_sound (is_member user_id org_id) w.users u e in
            inr (u, rw e, e, c, ground arith, ground arith)
      ]

  -- The check passes for an administrator only where there are two.
  last_admin_check :
      (u : User) (org_id : Uuid)
      → orm.find_one (is_member u.id org_id) w.users ≡ some u
      → u.role ≡ UserRole.admin
      → ((e : Exception) × (assert_not_last_active_admin orm u.id org_id w ≡ (err e, w)))
        ⊎ ((assert_not_last_active_admin orm u.id org_id w ≡ (ok tt, w))
            × (2 ≤ count_if (is_active_admin org_id) w.users))
  unfolding assert_not_last_active_admin
  last_admin_check u org_id f a =
      elim (Bool-cases (leb (orm.count (is_active_admin org_id) w.users) 1)) [
        | inl few ↦
            inl (bad_request "Cannot downgrade or revoke the last active admin", ground arith)
        | inr many ↦
            inr (ground arith, ground (arith, orm.count_lem (is_active_admin org_id) w.users))
      ]

  -- Saving a member's row keeps an active administrator in every organisation, if the row was no
  -- administrator's, or there is a second one.
  save_keeps_admin :
      (old row : User) (org_id any_org : Uuid)
      → HasUniqueKeys w.users
      → Contains old w.users
      → row.id ≡ old.id
      → old.org_id ≡ org_id
      → ((old.role === UserRole.admin) ≡ false) ⊎ (2 ≤ count_if (is_active_admin org_id) w.users)
      → 1 ≤ count_if (is_active_admin any_org) w.users
      → 1 ≤ count_if (is_active_admin any_org) (orm.save row w.users)
  save_keeps_admin old row org_id any_org u c i o (inl n) h = omega (
    arith,
    count_save_uncounted orm (is_active_admin any_org) row w.users u old c (sym i) (ground arith),
  )
  save_keeps_admin old row org_id any_org u c i o (inr two) h =
      elim (Bool-cases (old.org_id == any_org)) [
        | inl same ↦ ground (arith, count_save_ge orm (is_active_admin any_org) row w.users u)
        | inr other ↦ omega (
          arith,
          count_save_uncounted orm (is_active_admin any_org) row w.users u old c (sym i)
              (ground arith),
        )
      ]

  -- Changing a member's role leaves each organisation that has an active administrator with one,
  -- whether or not the request succeeds, where no two users have one id.
  pub update_user_role-HasActiveAdmin :
      (user_id : Uuid) (role : UserRole) (caller : RequestUser) (any_org : Uuid)
      → HasUniqueKeys w.users
      → HasActiveAdmin any_org w
      → HasActiveAdmin any_org (update_user_role orm user_id role caller w).1
  unfolding update_user_role
  update_user_role-HasActiveAdmin user_id role caller any_org u h =
      elim (assert_admin_outcome w caller) [
        | inl (ex, d) ↦ ground arith
        | inr (org, d, _, _) ↦ elim (find_org_user_outcome user_id org) [
          | inl e ↦ ground arith
          | inr (x, e, f, c, k, o) ↦
              let f' = subst (λ v. orm.find_one (is_member v org) w.users ≡ some x) (sym k) f in
              let saved = save_keeps_admin x (record x { role = role }) org any_org u c refl o in
              elim (Bool-cases (x.role === UserRole.admin)) [
                | inl a ↦
                    elim (last_admin_check x org f'
                      ((user_role_beq_iff x.role UserRole.admin).0 a)) [
                        | inl (ex, g) ↦ ground arith
                        | inr (g, two) ↦ let s = saved (inr two) h in ground arith
                      ]
                | inr n ↦ let s = saved (inl n) h in ground arith
              ]
        ]
      ]

  -- Revoking a member leaves each organisation that has an active administrator with one, whether or
  -- not the request succeeds, where no two users have one id.
  pub revoke_user-HasActiveAdmin :
      (user_id : Uuid) (caller : RequestUser) (any_org : Uuid)
      → HasUniqueKeys w.users
      → HasActiveAdmin any_org w
      → HasActiveAdmin any_org (revoke_user orm user_id caller w).1
  unfolding revoke_user
  revoke_user-HasActiveAdmin user_id caller any_org u h = elim (assert_admin_outcome w caller) [
    | inl (ex, d) ↦ ground arith
    | inr (org, d, _, _) ↦ elim (find_org_user_outcome user_id org) [
      | inl e ↦ ground arith
      | inr (x, e, f, c, k, o) ↦
          let f' = subst (λ v. orm.find_one (is_member v org) w.users ≡ some x) (sym k) f in
          let saved = save_keeps_admin x (record x { is_active = false }) org any_org u c refl o in
          elim (Bool-cases (x.role === UserRole.admin)) [
            | inl a ↦
                elim (last_admin_check x org f' ((user_role_beq_iff x.role UserRole.admin).0 a)) [
                  | inl (ex, g) ↦ ground arith
                  | inr (g, two) ↦ let s = saved (inr two) h in ground arith
                ]
            | inr n ↦ let s = saved (inl n) h in ground arith
          ]
    ]
  ]
