-- ===== src/Sessions/Lookup.antt =====
-- The lookup that guards every method of src/modules/sessions/sessions.service.ts: what it finds
-- belongs to the caller's organisation, and it writes nothing.
use back_end.Prelude.{String, ◌≡◌, ◌⊎◌, inl, inr, ◌==◌, arith, Option-cases}
use back_end.Database.Rows.{Contains}
use back_end.Database.Orm.{Orm}
use back_end.Database.Entities.{Uuid, Workflow, Session}
use back_end.World.{World, ok, err, not_found}
use back_end.Sessions.Access.{in_org, find_workflow_in_org_or_throw, find_session_in_org_or_throw}

-- A workflow of the organisation.
abbrev pub WorkflowIn : World → Uuid → Uuid → Type 0
WorkflowIn w workflow_id org_id =
    (x : Workflow) × Contains x w.workflows × (x.id ≡ workflow_id) × (x.org_id ≡ org_id)

-- A session with this id, whose workflow belongs to the organisation.
abbrev pub OwnedBy : World → Uuid → Uuid → Session → Type 0
OwnedBy w session_id org_id s =
    Contains s w.sessions × (s.id ≡ session_id) × WorkflowIn w s.workflow_id org_id

module _ (orm : Orm) (w : World) where
  pub find_workflow_outcome :
      (wid oid : Uuid) (message : String)
      → (find_workflow_in_org_or_throw orm wid oid message w ≡ (err (not_found message), w))
        ⊎ ((x : Workflow) × (find_workflow_in_org_or_throw orm wid oid message w ≡ (ok x, w))
            × Contains x w.workflows
            × (x.id ≡ wid)
            × (x.org_id ≡ oid))
  unfolding find_workflow_in_org_or_throw
  find_workflow_outcome wid oid message =
      elim (Option-cases (orm.find_one (in_org wid oid) w.workflows)) [
        | inl e ↦ inl (rw e)
        | inr (x, e) ↦
            let (p, c) = orm.find_one_sound (in_org wid oid) w.workflows x e in
            inr (x, rw e, c, ground arith, ground arith)
      ]

  pub find_session_outcome :
      (sid oid : Uuid)
      → (find_session_in_org_or_throw orm sid oid w ≡ (err (not_found "Session not found"), w))
        ⊎ ((s : Session) × (find_session_in_org_or_throw orm sid oid w ≡ (ok s, w))
            × OwnedBy w sid oid s)
  unfolding find_session_in_org_or_throw
  find_session_outcome sid oid =
      elim (Option-cases (orm.find_one (λ (x : Session). x.id == sid) w.sessions)) [
        | inl e ↦ inl (rw e)
        | inr (s, e) ↦
            let (p, c) = orm.find_one_sound (λ (x : Session). x.id == sid) w.sessions s e in
            elim (find_workflow_outcome s.workflow_id oid "Session not found") [
              | inl f ↦ inl (ground arith)
              | inr (x, f, m, a, b) ↦ inr (s, ground arith, (c, ground arith, (x, m, a, b)))
            ]
      ]
