-- ===== src/Workflows/Versions.antt =====
-- Creating, updating, archiving and duplicating workflows keep the numbers of their versions.
use back_end.Prelude.{
  ℕ, ◌+◌, ◌≤◌, ◌≡◌, ◌≢◌, inl, inr, refl, sym, subst, List, some, none, ◌∙◌, ap, arith, ◌==◌,
  Bool-cases, Option-cases, Option, String,
}
use back_end.Database.Rows.{HasUniqueKeys, Contains, Every}
use back_end.Database.Enums.{UserRole, WorkflowStatus}
use back_end.Database.Orm.{Orm}
use back_end.Database.Entities.{Uuid, Workflow, WorkflowVersion, workflow_entity}
use back_end.World.{World}
use back_end.Workflows.Rows.{
  version_elements, UpdateWorkflowDto, CreateWorkflowDto, edited, created, copied, copied_version,
  new_version, empty_object,
}
use back_end.Workflows.Service.{update, create, duplicate, archive, latest_version}
use back_end.Workflows.Outcomes.{
  find_one_outcome, is_stranger, update_plain, update_version, update_refused, next_number,
  next_number_lem,
}
use back_end.Workflows.Numbering.{IsNumbered, save-IsNumbered, next-IsNumbered, next_version}

-- Every workflow's versions are numbered 1, …, `current_version`.
abbrev pub HasNumberedVersions : World → Type 0
HasNumberedVersions w = IsNumbered w.workflows w.workflow_versions

move :
    {ws ws' : List Workflow} {vs vs' : List WorkflowVersion}
    → ws' ≡ ws
    → vs' ≡ vs
    → IsNumbered ws vs
    → IsNumbered ws' vs'
move a b n = rw (a, b) n

copied_version_of :
    (id workflow_id owner_id : Uuid) (latest : Option WorkflowVersion)
    → ((copied_version id workflow_id latest owner_id).workflow_id ≡ workflow_id)
      × ((copied_version id workflow_id latest owner_id).version_number ≡ 1)
copied_version_of id workflow_id owner_id none = (refl, refl)
copied_version_of id workflow_id owner_id (some v) = (refl, refl)

module _ (orm : Orm) (w : World) where
  -- The transaction changes no row but the workflow's.
  others :
      (id n : ℕ) (y : Workflow)
      → Contains y
          (orm.update (λ y. y.id == id) (λ y. record y { current_version = n }) w.workflows)
      → y.id ≢ id
      → Contains y w.workflows
  others id n y m ne =
      let (r, d, q) =
        orm.update_sound (λ y. y.id == id) (λ y. record y { current_version = n }) w.workflows y
          m in
      elim (Bool-cases (r.id == id)) [
        | inl t ↦ ground (arith, ap (λ (z : Workflow). z.id) q)
        | inr f ↦ subst (λ z. Contains z w.workflows) (sym (q ∙ rw f refl)) d
      ]

  -- An update keeps every workflow's versions numbered from 1 to its current version, also an update
  -- that is refused or whose message is lost, where no two workflows have one id.
  pub update-HasNumberedVersions :
      (version_id correlation_id id : Uuid) (dto : UpdateWorkflowDto) (org_id caller_id : Uuid)
      (role : UserRole)
      → HasUniqueKeys w.workflows
      → HasNumberedVersions w
      → HasNumberedVersions (update orm version_id correlation_id id dto org_id caller_id role w).1
  update-HasNumberedVersions version_id correlation_id id dto org_id caller_id role u h =
      elim (find_one_outcome orm w id org_id) [
        | inl e ↦
            let (x, r) =
              update_refused orm w version_id correlation_id id dto org_id caller_id role (inl e) in
            subst (λ p. HasNumberedVersions p.1) (sym r) h
        | inr (x, e, c, i, _) ↦ elim (Bool-cases (is_stranger orm w caller_id role x)) [
          | inl s ↦
              let (x, r) =
                update_refused orm w version_id correlation_id id dto org_id caller_id role
                  (inr (x, e, s)) in
              subst (λ p. HasNumberedVersions p.1) (sym r) h
          | inr s ↦ elim (Option-cases (version_elements dto.elements_json)) [
            | inl k ↦
                let (a, b) =
                  update_plain orm w version_id correlation_id id dto org_id caller_id role x e s
                    k in
                move a b (
                  save-IsNumbered orm w.workflows w.workflow_versions x (edited dto x) c refl refl
                    h)
            | inr (elements, k) ↦
                let (a, b) =
                  update_version orm w version_id correlation_id id dto org_id caller_id role x
                    elements e s k in
                let n =
                  subst (λ z. next_number orm w z ≡ x.current_version + 1) i
                    (next_number_lem orm w x u c) in
                let row = record (edited dto x) { current_version = x.current_version + 1 } in
                let v = new_version version_id id (next_number orm w id) elements none caller_id in
                move a b (
                  next-IsNumbered orm w.workflows _ w.workflow_versions row v (sym i)
                    (λ y m ne. others id (next_number orm w id) y m (λ q. ne (q ∙ sym i)))
                    (next_version orm w.workflow_versions x row v refl refl (sym i) n (h x c)) h)
          ]
        ]
      ]

  -- The id is no workflow's, and no version's workflow.
  abbrev pub IsNew : Uuid → Type 0
  IsNew id =
      Every (λ (x : Workflow). x.id ≢ id) w.workflows
      × Every (λ (v : WorkflowVersion). v.workflow_id ≢ id) w.workflow_versions

  -- A new workflow, saved before and after its first version was.
  first-IsNumbered :
      (row draft : Workflow) (v : WorkflowVersion)
      → IsNew row.id
      → draft.id ≡ row.id
      → row.current_version ≡ 1
      → v.workflow_id ≡ row.id
      → v.version_number ≡ 1
      → HasNumberedVersions w
      → IsNumbered (orm.save row (orm.save draft w.workflows)) (orm.insert v w.workflow_versions)
  first-IsNumbered row draft v (nx, nv) d c i n h =
      next-IsNumbered orm w.workflows _ w.workflow_versions row v i
        (λ y m ne. elim (orm.save_other draft w.workflows y m) [
          | inl e ↦ absurd (ne (ap (λ (z : Workflow). z.id) e ∙ d))
          | inr o ↦ o
        ])
        (
          λ k l u. (v, (orm.insert_iff v w.workflow_versions v).1 (inl refl), i, ground arith),
          λ t m k. elim ((orm.insert_iff v w.workflow_versions t).0 m) [
            | inl e ↦ ground arith
            | inr o ↦ absurd (nv t o k)
          ],
        )
        h

  -- Creating a workflow under a new id keeps every workflow's versions numbered from 1 to its current
  -- version.
  pub create-HasNumberedVersions :
      (new_id version_id : Uuid) (dto : CreateWorkflowDto) (org_id owner_id : Uuid)
      → IsNew new_id
      → HasNumberedVersions w
      → HasNumberedVersions (create orm new_id version_id dto org_id owner_id w).1
  unfolding create
  create-HasNumberedVersions new_id version_id dto org_id owner_id f h =
      move (ground arith) (ground arith) (
        first-IsNumbered (record (created new_id dto org_id owner_id) { current_version = 1 })
          (created new_id dto org_id owner_id)
          (new_version version_id new_id 1 empty_object none owner_id) f refl refl refl refl h)

  -- Duplicating a workflow under a new id keeps every workflow's versions numbered from 1 to its
  -- current version.
  pub duplicate-HasNumberedVersions :
      (new_id version_id id org_id owner_id : Uuid) (title : Option String)
      → IsNew new_id
      → HasNumberedVersions w
      → HasNumberedVersions (duplicate orm new_id version_id id org_id owner_id title w).1
  unfolding duplicate
  duplicate-HasNumberedVersions new_id version_id id org_id owner_id title f h =
      elim (find_one_outcome orm w id org_id) [
        | inl e ↦ move (ground arith) (ground arith) h
        | inr (x, e, _, _, _) ↦ move (ground arith) (ground arith) (
            first-IsNumbered
              (record (copied new_id x org_id owner_id title) { current_version = 1 })
              (copied new_id x org_id owner_id title)
              (copied_version version_id new_id (latest_version orm id w) owner_id) f refl refl
              (copied_version_of version_id new_id owner_id (latest_version orm id w)).0
              (copied_version_of version_id new_id owner_id (latest_version orm id w)).1 h)
      ]

  pub archive-HasNumberedVersions :
      (id org_id caller_id : Uuid) (role : UserRole)
      → HasNumberedVersions w
      → HasNumberedVersions (archive orm id org_id caller_id role w).1
  unfolding archive
  archive-HasNumberedVersions id org_id caller_id role h = elim (find_one_outcome orm w id org_id) [
    | inl e ↦ move (ground arith) (ground arith) h
    | inr (x, e, c, i, _) ↦ elim (Bool-cases (is_stranger orm w caller_id role x)) [
      | inl s ↦ move (ground arith) (ground arith) h
      | inr s ↦ move (ground arith) (ground arith) (
          save-IsNumbered orm w.workflows w.workflow_versions x
            (record x { status = WorkflowStatus.archived }) c refl refl h)
    ]
  ]

  -- Where versions are numbered so, a workflow that has a version has its current version found as the
  -- latest.
  pub latest_version_lem :
      (x : Workflow)
      → HasNumberedVersions w
      → Contains x w.workflows
      → 1 ≤ x.current_version
      → (v : WorkflowVersion) × (latest_version orm x.id w ≡ some v)
        × (v.version_number ≡ x.current_version)
  latest_version_lem x h c l =
      let (f, g) = h x c in
      let (v, m, i, n) = f x.current_version l (ground arith) in
      elim (Option-cases (latest_version orm x.id w)) [
        | inl e ↦ ground (
          arith,
          orm.find_latest_complete (λ v. v.version_number) (λ v. v.workflow_id == x.id)
              w.workflow_versions v e m,
        )
        | inr (t, e) ↦
            let (p, d) =
              orm.find_latest_sound (λ v. v.version_number) (λ v. v.workflow_id == x.id)
                w.workflow_versions t e in
            let (_, u) = g t d (ground arith) in
            (
              t,
              e,
              ground (
                arith,
                orm.find_latest_max (λ v. v.version_number) (λ v. v.workflow_id == x.id)
                    w.workflow_versions t v e m,
              ),
            )
      ]
