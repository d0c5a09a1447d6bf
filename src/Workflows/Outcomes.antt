-- ===== src/Workflows/Outcomes.antt =====
-- The outcomes of the methods of src/modules/workflows/workflows.service.ts, in the terms of the
-- rows they find and save.
use back_end.Prelude.{
  ℕ, ◌+◌, Bool, true, false, not, ◌&&◌, ◌≡◌, ◌⊎◌, inl, inr, none, some, option_get, option_map,
  ◌==◌, ◌===◌, arith, Option-cases,
}
use back_end.Database.Rows.{HasUniqueKeys, Contains}
use back_end.Database.Counting.{row_is_unique}
use back_end.Database.Json.{Json}
use back_end.Database.Enums.{UserRole, user_role_Eq}
use back_end.Database.Orm.{Orm}
use back_end.Database.Entities.{Uuid, Workflow, workflow_entity}
use back_end.World.{World, ok, err, Exception, not_found, forbidden}
use back_end.Workflows.Rows.{
  version_elements, with_id_and_org, workflow_not_found, UpdateWorkflowDto, edited, new_version,
}
use back_end.Workflows.Service.{find_one, update}

module _ (orm : Orm) (w : World) where
  -- A workflow is found in the caller's organisation, or the request ends there.
  pub find_one_outcome :
      (id org_id : Uuid)
      → (find_one orm id org_id w ≡ (err (not_found workflow_not_found), w))
        ⊎ ((x : Workflow) × (find_one orm id org_id w ≡ (ok x, w))
            × Contains x w.workflows
            × (x.id ≡ id)
            × (x.org_id ≡ org_id))
  unfolding find_one
  find_one_outcome id org_id =
      elim (Option-cases (orm.find_one (with_id_and_org id org_id) w.workflows)) [
        | inl e ↦ inl (rw e)
        | inr (x, e) ↦
            let (p, c) = orm.find_one_sound (with_id_and_org id org_id) w.workflows x e in
            inr (x, rw e, c, ground arith, ground arith)
      ]

  -- Neither the owner nor an administrator.
  abbrev pub is_stranger : Uuid → UserRole → Workflow → Bool
  is_stranger caller_id role x = not (x.owner_id == caller_id) && not (role === UserRole.admin)

  -- The number that the transaction of `update` gives.
  abbrev pub next_number : Uuid → ℕ
  next_number id =
      option_get
        (option_map (λ (x : Workflow). x.current_version)
          (orm.find_one (λ x. x.id == id) w.workflows))
        0
      + 1

  pub next_number_lem :
      (x : Workflow)
      → HasUniqueKeys w.workflows
      → Contains x w.workflows
      → next_number x.id ≡ x.current_version + 1
  next_number_lem x u c = elim (Option-cases (orm.find_one (λ y. y.id == x.id) w.workflows)) [
    | inl e ↦ ground (arith, orm.find_one_complete (λ y. y.id == x.id) w.workflows x e c)
    | inr (y, e) ↦
        let (p, d) = orm.find_one_sound (λ y. y.id == x.id) w.workflows y e in
        ground (arith, row_is_unique w.workflows y x u d c (ground arith))
  ]

  module _ (version_id correlation_id id : Uuid) (dto : UpdateWorkflowDto) (org_id caller_id : Uuid)
      (role : UserRole) where
    abbrev pub after_update : World
    after_update = (update orm version_id correlation_id id dto org_id caller_id role w).1

    -- What `update` does to the tables, whether or not its message is accepted.
    pub update_plain :
        (x : Workflow)
        → find_one orm id org_id w ≡ (ok x, w)
        → is_stranger caller_id role x ≡ false
        → version_elements dto.elements_json ≡ none
        → (after_update.workflows ≡ orm.save (edited dto x) w.workflows)
          × (after_update.workflow_versions ≡ w.workflow_versions)
    unfolding update
    update_plain x e s k = (ground arith, ground arith)

    pub update_version :
        (x : Workflow) (elements : Json)
        → find_one orm id org_id w ≡ (ok x, w)
        → is_stranger caller_id role x ≡ false
        → version_elements dto.elements_json ≡ some elements
        → (after_update.workflows
            ≡ orm.save
                (record (edited dto x) { current_version = x.current_version + 1 })
                (orm.update
                  (λ y. y.id == id)
                  (λ y. record y { current_version = next_number id })
                  w.workflows))
          × (after_update.workflow_versions
              ≡ orm.insert
                  (new_version version_id id (next_number id) elements none caller_id)
                  w.workflow_versions)
    unfolding update
    update_version x elements e s k = (ground arith, ground arith)

    -- The workflow is not in the organisation, or the caller may not update it: nothing happens.
    pub update_refused :
        (find_one orm id org_id w ≡ (err (not_found workflow_not_found), w))
          ⊎ ((x : Workflow) × (find_one orm id org_id w ≡ (ok x, w))
              × (is_stranger caller_id role x ≡ true))
        → (e : Exception) × (update orm version_id correlation_id id dto org_id caller_id role w
            ≡ (err e, w))
    unfolding update
    update_refused (inl f) = (not_found workflow_not_found, ground arith)
    update_refused (inr (x, f, s)) =
        (forbidden "Only owner or admin can update this workflow", ground arith)
