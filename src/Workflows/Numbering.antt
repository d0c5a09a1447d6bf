-- ===== src/Workflows/Numbering.antt =====
-- The versions of a workflow are numbered without a gap, from 1 to its current version
-- (src/modules/workflows/workflows.service.ts).
use back_end.Prelude.{
  ℕ, ◌+◌, ◌≤◌, ◌≡◌, ◌≢◌, inl, inr, refl, sym, subst, List, ◌∙◌, ap, arith, ◌==◌, Bool-cases,
}
use back_end.Database.Rows.{Contains, Every}
use back_end.Database.Orm.{Orm}
use back_end.Database.Entities.{Workflow, WorkflowVersion, workflow_entity}

-- The numbers of the versions of `x` are 1, …, `x.current_version`.
abbrev pub HasVersions : List WorkflowVersion → Workflow → Type 0
HasVersions versions x =
    ((n : ℕ)
      → 1 ≤ n
      → n ≤ x.current_version
      → (v : WorkflowVersion) × Contains v versions
        × (v.workflow_id ≡ x.id)
        × (v.version_number ≡ n))
    × ((v : WorkflowVersion)
        → Contains v versions
        → v.workflow_id ≡ x.id
        → (1 ≤ v.version_number) × (v.version_number ≤ x.current_version))

abbrev pub IsNumbered : List Workflow → List WorkflowVersion → Type 0
IsNumbered workflows versions = Every (HasVersions versions) workflows

same_versions :
    (versions : List WorkflowVersion) (x y : Workflow)
    → y.id ≡ x.id
    → y.current_version ≡ x.current_version
    → HasVersions versions x
    → HasVersions versions y
same_versions vs x y i c (f, g) = (
  λ n l u. let (v, m, k, e) = f n l (ground arith) in (v, m, k ∙ sym i, e),
  λ v m k. let (a, b) = g v m (k ∙ i) in (a, ground arith),
)

module _ (orm : Orm) where
  -- The next version extends the numbers by one.
  pub next_version :
      (versions : List WorkflowVersion) (x y : Workflow) (v : WorkflowVersion)
      → y.id ≡ x.id
      → y.current_version ≡ x.current_version + 1
      → v.workflow_id ≡ x.id
      → v.version_number ≡ x.current_version + 1
      → HasVersions versions x
      → HasVersions (orm.insert v versions) y
  next_version vs x y v i c vi vn (f, g) = (
    λ n l u. elim (Bool-cases (n == x.current_version + 1)) [
      | inl last ↦ (v, (orm.insert_iff v vs v).1 (inl refl), vi ∙ sym i, ground arith)
      | inr other ↦
          let (u', m, k, e) = f n l (ground arith) in
          (u', (orm.insert_iff v vs u').1 (inr m), k ∙ sym i, e)
    ],
    λ t m k. elim ((orm.insert_iff v vs t).0 m) [
      | inl new ↦ ground arith
      | inr old ↦ let (a, b) = g t old (k ∙ i) in (a, ground arith)
    ],
  )

  -- A version of another workflow does not count.
  other_version :
      (versions : List WorkflowVersion) (y : Workflow) (v : WorkflowVersion)
      → y.id ≢ v.workflow_id
      → HasVersions versions y
      → HasVersions (orm.insert v versions) y
  other_version vs y v ne (f, g) = (
    λ n l u. let (t, m, k, e) = f n l u in (t, (orm.insert_iff v vs t).1 (inr m), k, e),
    λ t m k. elim ((orm.insert_iff v vs t).0 m) [ inl new ↦ ground arith | inr old ↦ g t old k ],
  )

  pub save-IsNumbered :
      (workflows : List Workflow) (versions : List WorkflowVersion) (old row : Workflow)
      → Contains old workflows
      → row.id ≡ old.id
      → row.current_version ≡ old.current_version
      → IsNumbered workflows versions
      → IsNumbered (orm.save row workflows) versions
  save-IsNumbered ws vs old row c i k h = λ y m. elim (orm.save_other row ws y m) [
    | inl e ↦
        same_versions vs old y (ap (λ z. z.id) e ∙ i) (ap (λ z. z.current_version) e ∙ k) (h old c)
    | inr o ↦ h y o
  ]

  -- A row that is saved with its next version, the other rows being as they were.
  pub next-IsNumbered :
      (workflows before : List Workflow) (versions : List WorkflowVersion) (row : Workflow)
      (v : WorkflowVersion)
      → v.workflow_id ≡ row.id
      → ((y : Workflow) → Contains y before → y.id ≢ row.id → Contains y workflows)
      → HasVersions (orm.insert v versions) row
      → IsNumbered workflows versions
      → IsNumbered (orm.save row before) (orm.insert v versions)
  next-IsNumbered ws before vs row v i o r h = λ y m. elim (Bool-cases (y.id == row.id)) [
    | inl same ↦
        subst (HasVersions (orm.insert v vs)) (sym (orm.save_only row before y m (ground arith))) r
    | inr other ↦ elim (orm.save_other row before y m) [
      | inl e ↦ ground (arith, ap (λ (z : Workflow). z.id) e)
      | inr b ↦ other_version vs y v (ground arith) (h y (o y b (ground arith)))
    ]
  ]
