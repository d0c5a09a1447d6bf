-- ===== src/Organizations/Membership.antt =====
-- What revoking a member does (src/modules/organizations), and what an administrator cannot reach.
use back_end.Prelude.{
  ◌≡◌, ◌⊎◌, inl, inr, true, false, some, sym, ◌==◌, ◌===◌, refl, arith, Bool-cases, Option-cases,
  leb, subst,
}
use back_end.Database.Rows.{Contains}
use back_end.Database.Enums.{UserRole, user_role_Eq}
use back_end.Database.Orm.{Orm}
use back_end.Database.Entities.{Uuid, User, RefreshToken, user_entity}
use back_end.World.{World, ok, err, Exception, not_found, bad_request}
use back_end.Organizations.Service.{
  RequestUser, is_active_admin, is_member, assert_not_last_active_admin, revoke_user,
}
use back_end.Organizations.LastAdmin.{assert_admin_outcome, find_org_user_outcome}

module _ (orm : Orm) (w : World) where
  last_admin_either :
      (user_id org_id : Uuid)
      → (assert_not_last_active_admin orm user_id org_id w
          ≡ (err (bad_request "Cannot downgrade or revoke the last active admin"), w))
        ⊎ (assert_not_last_active_admin orm user_id org_id w ≡ (ok tt, w))
  unfolding assert_not_last_active_admin
  last_admin_either user_id org_id =
      elim (Bool-cases (leb (orm.count (is_active_admin org_id) w.users) 1)) [
        | inl few ↦ elim (Option-cases (orm.find_one (is_member user_id org_id) w.users)) [
          | inl e ↦ inr (ground arith)
          | inr (u, e) ↦ elim (Bool-cases (u.role === UserRole.admin)) [
            | inl t ↦ inl (ground arith)
            | inr t ↦ inr (ground arith)
          ]
        ]
        | inr many ↦ inr (ground arith)
      ]

  -- The world after a revocation that went through.
  abbrev IsRevoked : Uuid → Uuid → World → Type 0
  IsRevoked user_id org w' =
      (u : User) × (u.id ≡ user_id)
      × (u.org_id ≡ org)
      × Contains u w.users
      × (w'.users ≡ orm.save (record u { is_active = false }) w.users)
      × (w'.refresh_tokens
          ≡ orm.update (λ t. t.user_id == u.id) (λ t. record t { revoked = true }) w.refresh_tokens)

  pub revoke_user_outcome :
      (user_id : Uuid) (caller : RequestUser)
      → ((e : Exception) × (revoke_user orm user_id caller w ≡ (err e, w)))
        ⊎ ((org : Uuid) × (caller.org_id ≡ some org)
            × ((revoke_user orm user_id caller w).0 ≡ ok tt)
            × IsRevoked user_id org (revoke_user orm user_id caller w).1)
  unfolding revoke_user
  revoke_user_outcome user_id caller = elim (assert_admin_outcome w caller) [
    | inl (ex, d) ↦ inl (ex, ground arith)
    | inr (org, d, co, _) ↦ elim (find_org_user_outcome orm w user_id org) [
      | inl e ↦ inl (not_found "User not found", ground arith)
      | inr (x, e, f, c, k, o) ↦ elim (Bool-cases (x.role === UserRole.admin)) [
        | inr n ↦ inr (org, co, ground arith, (x, k, o, c, ground arith, ground arith))
        | inl a ↦ elim (last_admin_either x.id org) [
          | inl g ↦
              inl (bad_request "Cannot downgrade or revoke the last active admin", ground arith)
          | inr g ↦ inr (org, co, ground arith, (x, k, o, c, ground arith, ground arith))
        ]
      ]
    ]
  ]

  -- After a revocation that went through, the member is inactive and every refresh token of theirs is revoked.
  pub revoke_user-tokens :
      (user_id : Uuid) (caller : RequestUser)
      → (revoke_user orm user_id caller w).0 ≡ ok tt
      → ((u : User) × Contains u (revoke_user orm user_id caller w).1.users
          × (u.id ≡ user_id)
          × (u.is_active ≡ false))
        × ((t : RefreshToken)
            → Contains t (revoke_user orm user_id caller w).1.refresh_tokens
            → t.user_id ≡ user_id
            → t.revoked ≡ true)
  revoke_user-tokens user_id caller done = elim (revoke_user_outcome user_id caller) [
    | inl (e, h) ↦ let x : ⊥ = ground arith in elim x [ ]
    | inr (org, co, _, (x, k, o, c, us, ts)) ↦ (
      (
        record x { is_active = false },
        subst (Contains (record x { is_active = false })) (sym us) (orm.save_self _ w.users),
        k,
        refl,
      ),
      λ t m i.
          let (r, _, e) =
            orm.update_sound (λ (t : RefreshToken). t.user_id == x.id)
              (λ t. record t { revoked = true }) w.refresh_tokens t (subst (Contains t) ts m) in
          ground arith,
    )
  ]
