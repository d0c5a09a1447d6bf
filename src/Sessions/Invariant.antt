-- ===== src/Sessions/Invariant.antt =====
-- What the requests to src/modules/sessions/sessions.controller.ts keep: every other session, and
-- that an archived session has the time of its archiving.
use back_end.Prelude.{
  true, ◌≡◌, refl, ◌≢◌, ◌⊎◌, inl, inr, ◌↔◌, some, subst, sym, ap, ◌∙◌, ◌===◌, Bool-cases, arith,
}
use back_end.Database.Rows.{Contains, Every}
use back_end.Database.Orm.{Orm}
use back_end.Database.Enums.{UserRole, user_role_Eq}
use back_end.Database.Entities.{Uuid, Instant, Session, session_entity}
use back_end.World.{World, ◌>>◌}
use back_end.Sessions.Access.{RequestUser, UpdateSessionStatusDto}
use back_end.Sessions.Lookup.{find_session_outcome, find_workflow_outcome}
use back_end.Sessions.Service.{
  create_session, new_session, update_mode, finalize, archive, override_status,
}
use back_end.Sessions.Controller.{
  Request, create, set_mode, finish, delete, set_status, session_org_guard, handle,
}
use back_end.Sessions.Requests.{target, guard_refuses, guarded}
use back_end.Sessions.Saves.{
  IsConsistent, Keeps, archive-Keeps, update_mode-Keeps, finalize-Keeps, override_status-Keeps,
}

module _ (orm : Orm) (caller : RequestUser) (w : World) where
  -- What a request does to the sessions.
  abbrev Effect : Request → World → Type 0
  Effect (create id _ _) w' =
      (w' ≡ w)
      ⊎ ((row : Session) × (row.id ≡ id)
          × IsConsistent row
          × (w'.sessions ≡ orm.save row w.sessions))
  Effect (set_mode id _) w' = Keeps orm caller w id w'
  Effect (finish id _) w' = Keeps orm caller w id w'
  Effect (delete id _) w' = Keeps orm caller w id w'
  Effect (set_status id _ _) w' = Keeps orm caller w id w'

  admin_passes :
      (id : Uuid) (now : Instant) (dto : UpdateSessionStatusDto)
      → (caller.role === UserRole.admin) ≡ true
      → handle orm (set_status id now dto) caller w
        ≡ (session_org_guard orm id caller >> override_status orm id now dto caller) w
  unfolding handle
  admin_passes id now dto a = ground arith

  handle-Effect : (r : Request) → Effect r (handle orm r caller w).1
  unfolding handle
  handle-Effect (create id now dto) =
      elim (find_workflow_outcome orm w dto.workflow_id caller.org_id "Workflow not found") [
        | inl e ↦ inl (unfold create_session in ground arith)
        | inr (x, e, _, _, _) ↦ inr (
          new_session id now x.id dto.mode caller,
          refl,
          (λ h. cc),
          (unfold create_session in ground arith),
        )
      ]
  handle-Effect (set_mode id mode) = elim (find_session_outcome orm w id caller.org_id) [
    | inl e ↦ inl (ground (arith, guard_refuses orm caller w id e))
    | inr (s, e, _) ↦
        subst (λ p. Keeps orm caller w id p.1)
          (sym (guarded orm caller w id s (update_mode orm id mode caller) e))
          (update_mode-Keeps orm caller w id mode)
  ]
  handle-Effect (finish id now) = elim (find_session_outcome orm w id caller.org_id) [
    | inl e ↦ inl (ground (arith, guard_refuses orm caller w id e))
    | inr (s, e, _) ↦
        subst (λ p. Keeps orm caller w id p.1)
          (sym (guarded orm caller w id s (finalize orm id now caller) e))
          (finalize-Keeps orm caller w id now)
  ]
  handle-Effect (delete id now) = elim (find_session_outcome orm w id caller.org_id) [
    | inl e ↦ inl (ground (arith, guard_refuses orm caller w id e))
    | inr (s, e, _) ↦
        subst (λ p. Keeps orm caller w id p.1)
          (sym (guarded orm caller w id s (archive orm id now caller) e))
          (archive-Keeps orm caller w id now)
  ]
  handle-Effect (set_status id now dto) = elim (Bool-cases (caller.role === UserRole.admin)) [
    | inr n ↦ inl (ground arith)
    | inl a ↦ elim (find_session_outcome orm w id caller.org_id) [
      | inl e ↦ inl (ground (arith, guard_refuses orm caller w id e))
      | inr (s, e, _) ↦
          subst (λ p. Keeps orm caller w id p.1)
            (sym (
              admin_passes id now dto a
              ∙ guarded orm caller w id s (override_status orm id now dto caller) e))
            (override_status-Keeps orm caller w id now dto)
    ]
  ]

  -- The row saved keeps the property, if every row had it.
  saved-IsConsistent :
      (row : Session) (t : Session)
      → Every IsConsistent w.sessions
      → IsConsistent row
      → Contains t (orm.save row w.sessions)
      → IsConsistent t
  saved-IsConsistent row t h r c = elim (orm.save_other row w.sessions t c) [
    | inl e ↦ subst IsConsistent (sym e) r
    | inr old ↦ h t old
  ]

  Keeps-IsConsistent :
      (sid : Uuid) (w' : World)
      → Keeps orm caller w sid w'
      → Every IsConsistent w.sessions
      → Every IsConsistent w'.sessions
  Keeps-IsConsistent sid w' (inl e) h =
      subst (λ (u : World). Every IsConsistent u.sessions) (sym e) h
  Keeps-IsConsistent sid w' (inr (old, row, o, i, _, _, k, e)) h =
      λ t c. saved-IsConsistent row t h (k (h old o.0)) (subst (Contains t) e c)

  Effect-IsConsistent :
      (r : Request) (w' : World)
      → Effect r w'
      → Every IsConsistent w.sessions
      → Every IsConsistent w'.sessions
  Effect-IsConsistent (create _ _ _) w' (inl e) h =
      subst (λ (u : World). Every IsConsistent u.sessions) (sym e) h
  Effect-IsConsistent (create _ _ _) w' (inr (row, _, k, e)) h =
      λ t c. saved-IsConsistent row t h k (subst (Contains t) e c)
  Effect-IsConsistent (set_mode id _) w' f h = Keeps-IsConsistent id w' f h
  Effect-IsConsistent (finish id _) w' f h = Keeps-IsConsistent id w' f h
  Effect-IsConsistent (delete id _) w' f h = Keeps-IsConsistent id w' f h
  Effect-IsConsistent (set_status id _ _) w' f h = Keeps-IsConsistent id w' f h

  -- Every request that writes keeps the invariant: each archived session has the time of its archiving.
  pub handle-IsConsistent :
      (r : Request)
      → Every IsConsistent w.sessions
      → Every IsConsistent (handle orm r caller w).1.sessions
  handle-IsConsistent r h = Effect-IsConsistent r (handle orm r caller w).1 (handle-Effect r) h

  Keeps-others :
      (sid : Uuid) (w' : World) (s : Session)
      → Keeps orm caller w sid w'
      → s.id ≢ sid
      → Contains s w'.sessions ↔ Contains s w.sessions
  Keeps-others sid w' s (inl e) ne = rw e (λ c. c, λ c. c)
  Keeps-others sid w' s (inr (old, row, o, i, _, _, k, e)) ne = rw e (
    λ c. elim (orm.save_other row w.sessions s c) [
      | inl same ↦ absurd (ne (ap (λ (x : Session). x.id) same ∙ i))
      | inr c' ↦ c'
    ],
    λ c. orm.save_keeps row w.sessions s (λ q. ne (q ∙ i)) c,
  )

  -- A request that writes leaves every session but the one that it names as it was.
  pub handle-others :
      (r : Request) (sid : Uuid) (s : Session)
      → target r ≡ some sid
      → s.id ≢ sid
      → Contains s (handle orm r caller w).1.sessions ↔ Contains s w.sessions
  handle-others (create _ _ _) sid s t ne = cc
  handle-others (set_mode id m) sid s t ne =
      Keeps-others id _ s (handle-Effect (set_mode id m)) (λ q. ne (q ∙ cc))
  handle-others (finish id now) sid s t ne =
      Keeps-others id _ s (handle-Effect (finish id now)) (λ q. ne (q ∙ cc))
  handle-others (delete id now) sid s t ne =
      Keeps-others id _ s (handle-Effect (delete id now)) (λ q. ne (q ∙ cc))
  handle-others (set_status id now dto) sid s t ne =
      Keeps-others id _ s (handle-Effect (set_status id now dto)) (λ q. ne (q ∙ cc))
