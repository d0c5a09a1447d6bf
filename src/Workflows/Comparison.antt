-- ===== src/Workflows/Comparison.antt =====
-- What the comparison of two versions tells (`computeDiff` of
-- src/modules/workflows/workflows.service.ts).
use back_end.Prelude.{
  ◌≢◌, false, not, ◌&&◌, ◌≡◌, ◌↔◌, inl, inr, List, String, some, Option, array_find, ◌===◌,
  string_Eq, arith, Bool-cases, Option-cases,
}
use back_end.Database.Json.{same_value, Json}
use back_end.Database.Rows.{Contains}
use back_end.Database.Lists.{filter-Contains, find-some}
use back_end.Workflows.Diff.{diff_elements, has_id, is_modified, element_id}

module _ (stringify : Json → String) (older newer : List Json) where
  abbrev pub old_one : Json → Option Json
  old_one e = array_find (λ o. same_value (element_id o) (element_id e)) older

  pub diff_partition :
      (e : Json)
      → (Contains e (diff_elements stringify older newer).added
          ↔ (Contains e newer × (has_id older e ≡ false)))
        × (Contains e (diff_elements stringify older newer).modified ↔ (
            Contains e newer × ((o : Json) × (old_one e ≡ some o) × (stringify o ≢ stringify e))))
        × (Contains e (diff_elements stringify older newer).removed
            ↔ (Contains e older × (has_id newer e ≡ false)))
  unfolding diff_elements
  diff_partition e = (
    ground (arith, filter-Contains (λ e. not (has_id older e)) newer e),
    (modified_of, λ (c, (o, k, n)). to_modified c o k n),
    ground (arith, filter-Contains (λ e. not (has_id newer e)) older e),
  )
    where
      modified_of :
          Contains e (diff_elements stringify older newer).modified
          → Contains e newer × ((o : Json) × (old_one e ≡ some o) × (stringify o ≢ stringify e))
      modified_of c =
          let (m, t) =
            (filter-Contains (λ e. has_id older e && is_modified stringify older e) newer e).0 c in
          elim (Option-cases (old_one e)) [
            | inl k ↦ ground arith
            | inr (o, k) ↦ (
              m,
              (
                o,
                k,
                λ q.
                    let differs : (stringify o === stringify e) ≡ false = ground arith in
                    ground (arith, (string_Eq.beq_iff (stringify o) (stringify e)).1 q, differs),
              ),
            )
          ]

      to_modified :
          Contains e newer
          → (o : Json) → old_one e ≡ some o
          → stringify o ≢ stringify e
          → Contains e (diff_elements stringify older newer).modified
      to_modified c o k n =
          (filter-Contains (λ e. has_id older e && is_modified stringify older e) newer e).1 (
            c,
            elim (Bool-cases (stringify o === stringify e)) [
              | inl same ↦ absurd (n ((string_Eq.beq_iff (stringify o) (stringify e)).0 same))
              | inr other ↦
                  ground
                    (arith, find-some (λ o. same_value (element_id o) (element_id e)) older o k)
            ],
          )
