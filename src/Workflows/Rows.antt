-- ===== src/Workflows/Rows.antt =====
-- src/modules/workflows/dto/workflow.dto.ts, and the rows that the methods of workflows.service.ts
-- write.
use back_end.Prelude.{
  ℕ, String, Bool, true, false, not, Option, none, some, List, [], ◌==◌, ◌===◌, string_Eq, ◌&&◌,
  if◌then◌else◌, option_get,
}
use Prim.Native.String.{◌++◌}
use back_end.Database.Json.{Json, Fields}
use back_end.Database.Enums.{user_role_Eq, WorkflowStatus, workflow_status_text}
use back_end.Database.Entities.{Uuid, Workflow, WorkflowVersion, workflow_entity}

pub record CreateWorkflowDto : Type 0 where
  pub project_id : Uuid
  pub title : String
  pub description : Option String
  pub domain : Option String
  pub tags : Option (List String)

pub data Source : Type 0 where
  ai user reconciliation : Source

abbrev pub source_text : Source → String
source_text Source.ai = "ai"
source_text Source.user = "user"
source_text Source.reconciliation = "reconciliation"

-- A property that is absent is `none`; a description or a domain may be given as null.
pub record UpdateWorkflowDto : Type 0 where
  pub title : Option String
  pub description : Option (Option String)
  pub domain : Option (Option String)
  pub tags : Option (List String)
  pub status : Option WorkflowStatus
  pub elements_json : Option Json
  pub source : Option Source

-- A value that a condition of the program takes for true.
abbrev is_truthy : Json → Bool
is_truthy Json.null = false
is_truthy (Json.boolean b) = b
is_truthy (Json.number n) = not (n == 0)
is_truthy (Json.text t) = not (t === "")
is_truthy _ = true

-- `isVersionUpdate`, with the elements.
unfoldable pub version_elements : Option Json → Option Json
version_elements none = none
version_elements (some elements) = if is_truthy elements then some elements else none

abbrev pub workflow_not_found : String
workflow_not_found = "Workflow ${id} not found"

abbrev pub empty_object : Json
empty_object = Json.object Fields.end

abbrev pub with_id_and_org : Uuid → Uuid → Workflow → Bool
with_id_and_org id org_id x = x.id == id && x.org_id == org_id

-- `if (dto.title)`: an empty title is not a title.
abbrev pub new_title : Option String → String → String
new_title none old = old
new_title (some t) old = if t === "" then old else t

-- The row after the assignments of `update`.
abbrev pub edited : UpdateWorkflowDto → Workflow → Workflow
edited dto x = record x {
  title = new_title dto.title x.title;
  description = option_get dto.description x.description;
  domain = option_get dto.domain x.domain;
  tags = option_get dto.tags x.tags;
  status = option_get dto.status x.status;
}

abbrev pub summary : Workflow → Json
summary x = Json.object (
    Fields.field "title" (Json.text x.title) (
      Fields.field "status" (Json.text (workflow_status_text x.status))
        (Fields.field "currentVersion" (Json.number x.current_version) Fields.end)))

abbrev pub new_version : Uuid → Uuid → ℕ → Json → Option Json → Uuid → WorkflowVersion
new_version id workflow_id number elements elsa created_by = record {
  id = id;
  workflow_id = workflow_id;
  version_number = number;
  elements_json = elements;
  elsa_json = elsa;
  confidence_score = none;
  created_by = some created_by;
}

abbrev pub created : Uuid → CreateWorkflowDto → Uuid → Uuid → Workflow
created id dto org_id owner_id = record {
  id = id;
  title = dto.title;
  description = dto.description;
  status = WorkflowStatus.draft;
  current_version = 0;
  org_id = org_id;
  owner_id = owner_id;
  project_id = some dto.project_id;
  domain = dto.domain;
  tags = option_get dto.tags [];
  share_token = none;
  share_expires_at = none;
  share_max_views = none;
  share_view_count = 0;
}

-- The row that `duplicate` creates: the project and the share link are not copied.
abbrev pub copied : Uuid → Workflow → Uuid → Uuid → Option String → Workflow
copied id x org_id owner_id title = record {
  id = id;
  title = option_get title ("Copy of " ++ x.title);
  description = x.description;
  status = WorkflowStatus.draft;
  current_version = 0;
  org_id = org_id;
  owner_id = owner_id;
  project_id = none;
  domain = x.domain;
  tags = x.tags;
  share_token = none;
  share_expires_at = none;
  share_max_views = none;
  share_view_count = 0;
}

-- The first version of a duplicate.
abbrev pub copied_version : Uuid → Uuid → Option WorkflowVersion → Uuid → WorkflowVersion
copied_version id workflow_id none owner_id =
    new_version id workflow_id 1 empty_object none owner_id
copied_version id workflow_id (some v) owner_id =
    new_version id workflow_id 1 v.elements_json v.elsa_json owner_id
