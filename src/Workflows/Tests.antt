-- ===== src/Workflows/Tests.antt =====
-- Runs of the workflow component on the database of World/Fixtures.antt: user 10 of organisation 1
-- owns the workflow 50, whose one version holds two elements.
use back_end.Prelude.{
  ◌==◌, ◌≢◌, ◌≡◌, ◌⊎◌, ◌↔◌, refl, inl, inr, true, false, some, none, [], ◌∷◌, arith, ◌≤◌, String,
  List,
}
use back_end.Database.Json.{Json, Items, Fields}
use back_end.Database.Rows.{HasUniqueKeys, Contains}
use back_end.Database.InMemory.{in_memory}
use back_end.Database.Enums.{UserRole}
use back_end.Database.Entities.{Workflow, workflow_entity}
use back_end.World.{ok}
use back_end.World.Fixtures.{office, purchase, first_version, element}
use back_end.Workflows.Rows.{CreateWorkflowDto, UpdateWorkflowDto}
use back_end.Workflows.Diff.{diff_elements, has_id}
use back_end.Workflows.Share.{
  ShareOptions, ExpiresIn, create_share, get_shared_workflow, viewed, is_expired, is_used_up,
}
use back_end.Workflows.Versions.{HasNumberedVersions, IsNew}
use back_end.Workflows.Requests.{updates, serve, serve-HasNumberedVersions}
use back_end.Workflows.Sharing.{
  HasOldLimits, times_seen, share-bounded, share_again, get_shared_workflow_outcome, IsInvalid,
}
use back_end.Workflows.Comparison.{old_one, diff_partition}

workflows-HasUniqueKeys : HasUniqueKeys (office true).workflows
workflows-HasUniqueKeys k = ground arith

office-HasNumberedVersions : HasNumberedVersions (office true)
office-HasNumberedVersions x (inl e) = (
  λ n l u. (first_version, inl refl, ground (arith, e), ground (arith, e, l, u)),
  λ v c i. ground (arith, e, c),
)
office-HasNumberedVersions x (inr c) = absurd c

office-IsNew : IsNew in_memory (office true) 90
office-IsNew = (λ x c e. ground (arith, c, e), λ v c e. ground (arith, c, e))

abbrev redraw : UpdateWorkflowDto
redraw = record {
  title = some "Purchases";
  description = none;
  domain = some none;
  tags = none;
  status = none;
  elements_json = some (Json.array (Items.cons (element 2 "pay") Items.nil));
  source = none;
}

abbrev hiring : CreateWorkflowDto
hiring = record { project_id = 5; title = "Hiring"; description = none; domain = none; tags = none }

abbrev once : ShareOptions
once = record { workflow_id = 50; expires_in = some ExpiresIn.one_day; max_views = some 1 }

share-bounded_example :
    times_seen in_memory "key"
      (100 ∷ 101 ∷ 102 ∷ [])
      (create_share in_memory "key" 99 once (office true)).1
    ≤ 1
share-bounded_example =
    share-bounded in_memory "key" 99 once 1 (100 ∷ 101 ∷ 102 ∷ []) (office true)
      (λ x c e. ground (arith, c, e)) refl (omega arith)

share_again_example : HasOldLimits in_memory "key" purchase (
    create_share in_memory "key" 99
      (record { workflow_id = 50; expires_in = some ExpiresIn.never; max_views = none })
      (office true))
share_again_example = share_again in_memory "key" 99 50 (office true) purchase (inl refl) refl

get_shared_workflow_outcome_example :
    (IsInvalid in_memory "key" 99 (office true)
      × (get_shared_workflow in_memory 99 "key" (office true) ≡ (ok none, office true)))
    ⊎ ((x : Workflow) × Contains x (office true).workflows
        × (x.share_token ≡ some "key")
        × (is_expired 99 x ≡ false)
        × (is_used_up x ≡ false)
        × (get_shared_workflow in_memory 99 "key" (office true) ≡ (
          ok (some x),
          record (office true) {
            workflows = in_memory.update (λ y. y.id == x.id) viewed (office true).workflows;
          },
        )))
get_shared_workflow_outcome_example = get_shared_workflow_outcome in_memory "key" 99 (office true)

abbrev label_text : Json → String
label_text (Json.object (Fields.field _ _ (Fields.field _ (Json.text t) _))) = t
label_text _ = ""

abbrev before : List Json
before = element 1 "ask" ∷ element 2 "pay" ∷ []

abbrev after : List Json
after = element 2 "pay twice" ∷ element 3 "file" ∷ []

diff_partition_example :
    (Contains (element 2 "pay twice") (diff_elements label_text before after).added
      ↔ (Contains (element 2 "pay twice") after × (has_id before (element 2 "pay twice") ≡ false)))
    × (Contains (element 2 "pay twice") (diff_elements label_text before after).modified ↔ (
        Contains (element 2 "pay twice") after
        × ((o : Json) × (old_one label_text before after (element 2 "pay twice") ≡ some o)
            × (label_text o ≢ label_text (element 2 "pay twice")))))
    × (Contains (element 2 "pay twice") (diff_elements label_text before after).removed ↔ (
        Contains (element 2 "pay twice") before × (has_id after (element 2 "pay twice") ≡ false)))
diff_partition_example = diff_partition label_text before after (element 2 "pay twice")

serve-HasNumberedVersions_example : HasNumberedVersions (
    serve in_memory
      (record { id = 90; version_id = 61; correlation_id = 7 })
      (record { id = 10; org_id = 1; role = UserRole.viewer })
      (updates 50 redraw)
      (office true))
serve-HasNumberedVersions_example =
    serve-HasNumberedVersions in_memory (record { id = 90; version_id = 61; correlation_id = 7 })
      (record { id = 10; org_id = 1; role = UserRole.viewer }) (updates 50 redraw) (office true)
      office-IsNew workflows-HasUniqueKeys office-HasNumberedVersions
