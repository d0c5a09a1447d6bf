-- ===== src/Workflows/Service.antt =====
-- src/modules/workflows/workflows.service.ts: the methods that change workflows and versions. New
-- ids are the database's, and arguments here.
use back_end.Prelude.{
  ℕ, ◌+◌, String, not, Option, none, some, ◌==◌, ◌===◌, string_Eq, ◌&&◌, if◌then◌else◌, option_get,
  option_map, is_some,
}
use back_end.Database.Json.{Json, Items, Fields}
use back_end.Database.Enums.{UserRole, user_role_Eq, WorkflowStatus, workflow_status_text}
use back_end.Database.Orm.{Orm}
use back_end.Database.Entities.{Uuid, Workflow, WorkflowVersion, workflow_entity}
use back_end.World.{
  World, Action, ok, not_found, forbidden, pure, throw_if, gets, modify, or_throw, when, of_id,
  ◌>>=◌, ◌>>◌,
}
use back_end.Messaging.Audit.{log, user_entry}
use back_end.Messaging.Publisher.{publish, build_msg_id}
use back_end.Workflows.Rows.{
  version_elements, CreateWorkflowDto, Source, source_text, UpdateWorkflowDto, workflow_not_found,
  empty_object, with_id_and_org, edited, summary, new_version, created, copied, copied_version,
}

module _ (orm : Orm) where
  unfoldable pub save_workflow : Workflow → Action Workflow
  save_workflow x w = (ok x, record w { workflows = orm.save x w.workflows })

  unfoldable pub insert_version : WorkflowVersion → Action (Unit {0})
  insert_version v = modify (λ w. record w { workflow_versions = orm.insert v w.workflow_versions })

  unfoldable pub find_one : Uuid → Uuid → Action Workflow
  find_one id org_id = do
    found ← gets (λ w. orm.find_one (with_id_and_org id org_id) w.workflows)
    or_throw found (not_found workflow_not_found)

  -- `findOne({ where: { workflowId }, order: { versionNumber: 'DESC' } })`
  abbrev pub latest_version : Uuid → World → Option WorkflowVersion
  latest_version workflow_id w =
      orm.find_latest (λ v. v.version_number) (λ v. v.workflow_id == workflow_id)
        w.workflow_versions

  unfoldable pub create : Uuid → Uuid → CreateWorkflowDto → Uuid → Uuid → Action Workflow
  unfolding save_workflow insert_version log find_one
  create new_id version_id dto org_id owner_id = do
    saved ← save_workflow (created new_id dto org_id owner_id)
    insert_version (new_version version_id saved.id 1 empty_object none owner_id)
    numbered ← save_workflow (record saved { current_version = 1 })
    log orm (
        user_entry (some numbered.id) owner_id "WORKFLOW_CREATED" none none (
          some (
            Json.object (
              Fields.field "title" (Json.text numbered.title) (
                Fields.field "status" (Json.text (workflow_status_text numbered.status))
                  Fields.end)))))
    find_one numbered.id org_id

  unfoldable pub find_one_with_latest_version :
      Uuid → Uuid → Action (Workflow × Option WorkflowVersion)
  unfolding find_one
  find_one_with_latest_version id org_id = do
    workflow ← find_one id org_id
    latest ← gets (latest_version id)
    pure (workflow, latest)

  -- The transaction of `update`.
  unfoldable pub add_version : Uuid → Uuid → Json → Uuid → Action (Unit {0})
  unfolding insert_version
  add_version version_id id elements caller_id = do
    current ← gets (λ w. orm.find_one (λ x. x.id == id) w.workflows)
    insert_version (
        new_version version_id id
          (option_get (option_map (λ (x : Workflow). x.current_version) current) 0 + 1) elements
          none caller_id)
    modify (λ w. record w {
      workflows =
          orm.update (λ x. x.id == id)
            (λ x. record x {
              current_version =
                  option_get (option_map (λ (x : Workflow). x.current_version) current) 0 + 1;
            })
            w.workflows;
    })

  -- `publishWorkflowUpdated`
  unfoldable pub publish_workflow_updated : Uuid → ℕ → Source → Uuid → Action (Unit {0})
  unfolding publish
  publish_workflow_updated workflow_id version_number source correlation_id =
      publish "workflow.events.updated"
        (Json.object (
          Fields.field "workflow_id" (Json.uuid workflow_id) (
            Fields.field "version_number" (Json.number version_number) (
              Fields.field "changed_elements" (Json.array Items.nil) (
                Fields.field "source" (Json.text (source_text source))
                  (Fields.field "correlation_id" (Json.uuid correlation_id) Fields.end))))))
        (build_msg_id (of_id correlation_id) "workflow.events.updated" none)

  unfoldable pub update :
      Uuid → Uuid → Uuid → UpdateWorkflowDto → Uuid → Uuid → UserRole → Action Workflow
  unfolding find_one save_workflow log add_version publish_workflow_updated
  update version_id correlation_id id dto org_id caller_id caller_role = do
    workflow ← find_one id org_id
    throw_if (not (workflow.owner_id == caller_id) && not (caller_role === UserRole.admin))
        (forbidden "Only owner or admin can update this workflow")
    elim (version_elements dto.elements_json) [
      | none ↦ pure tt
      | some elements ↦ add_version version_id id elements caller_id
    ]
    saved ← save_workflow (record (edited dto workflow) {
      current_version =
          workflow.current_version
          + (if is_some (version_elements dto.elements_json) then 1 else 0);
    })
    log orm (
        user_entry (some id) caller_id
          (if is_some (version_elements dto.elements_json)
            then "WORKFLOW_VERSION_CREATED"
            else "WORKFLOW_UPDATED")
          none (some (summary workflow)) (some (summary saved)))
    when (is_some (version_elements dto.elements_json)) (
        publish_workflow_updated id saved.current_version (option_get dto.source Source.user)
          correlation_id)
    find_one id org_id

  unfoldable pub archive : Uuid → Uuid → Uuid → UserRole → Action Workflow
  unfolding find_one save_workflow log
  archive id org_id caller_id caller_role = do
    workflow ← find_one id org_id
    throw_if (not (workflow.owner_id == caller_id) && not (caller_role === UserRole.admin))
        (forbidden "Only owner or admin can archive this workflow")
    saved ← save_workflow (record workflow { status = WorkflowStatus.archived })
    log orm (
        user_entry (some id) caller_id "WORKFLOW_ARCHIVED" none
          (some (
            Json.object (
              Fields.field "status" (Json.text (workflow_status_text workflow.status)) Fields.end)))
          (some (Json.object (Fields.field "status" (Json.text "archived") Fields.end))))
    pure saved

  unfoldable pub find_version : Uuid → ℕ → Uuid → Action WorkflowVersion
  unfolding find_one
  find_version workflow_id version_number org_id = do
    find_one workflow_id org_id
    found ← gets (λ w.
        orm.find_one (λ v. v.workflow_id == workflow_id && v.version_number == version_number)
          w.workflow_versions)
    or_throw found (not_found "Version ${versionNumber} not found for workflow ${workflowId}")

  unfoldable pub duplicate : Uuid → Uuid → Uuid → Uuid → Uuid → Option String → Action Workflow
  unfolding find_one save_workflow insert_version
  duplicate new_id version_id id org_id owner_id title = do
    workflow ← find_one id org_id
    latest ← gets (latest_version id)
    saved ← save_workflow (copied new_id workflow org_id owner_id title)
    insert_version (copied_version version_id saved.id latest owner_id)
    numbered ← save_workflow (record saved { current_version = 1 })
    find_one numbered.id org_id
