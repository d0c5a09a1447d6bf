-- ===== src/Workflows/Requests.antt =====
-- The routes of src/modules/workflows/workflows.controller.ts that write, and the numbers of the
-- versions.
use back_end.Prelude.{String, Option, none, some, option_get}
use back_end.Database.Json.{Json}
use back_end.Database.Rows.{HasUniqueKeys}
use back_end.Database.Orm.{Orm}
use back_end.Database.Entities.{Uuid, workflow_entity}
use back_end.World.{World}
use back_end.Sessions.Access.{RequestUser}
use back_end.Workflows.Rows.{CreateWorkflowDto, UpdateWorkflowDto, Source}
use back_end.Workflows.Service.{create, update, duplicate, archive}
use back_end.Workflows.Versions.{
  HasNumberedVersions, IsNew, update-HasNumberedVersions, create-HasNumberedVersions,
  duplicate-HasNumberedVersions, archive-HasNumberedVersions,
}

-- The ids that a request draws, and its correlation id.
pub record Draw : Type 0 where
  pub id : Uuid
  pub version_id : Uuid
  pub correlation_id : Uuid

pub data Request : Type 0 where
  creates : CreateWorkflowDto → Request
  updates : Uuid → UpdateWorkflowDto → Request
  creates_version : Uuid → Option Json → Option Source → Request
  duplicates : Uuid → Option String → Request
  archives : Uuid → Request

-- `createVersion`
abbrev pub with_version : Option Json → Option Source → UpdateWorkflowDto
with_version elements source = record {
  title = none;
  description = none;
  domain = none;
  tags = none;
  status = none;
  elements_json = elements;
  source = some (option_get source Source.user);
}

module _ (orm : Orm) where
  -- The world that a request leaves.
  unfoldable pub serve : Draw → RequestUser → Request → World → World
  unfolding create update duplicate archive
  serve d caller (creates dto) w = (create orm d.id d.version_id dto caller.org_id caller.id w).1
  serve d caller (updates id dto) w =
      (update orm d.version_id d.correlation_id id dto caller.org_id caller.id caller.role w).1
  serve d caller (creates_version id elements source) w =
      (update orm d.version_id d.correlation_id id (with_version elements source) caller.org_id
        caller.id caller.role w).1
  serve d caller (duplicates id title) w =
      (duplicate orm d.id d.version_id id caller.org_id caller.id title w).1
  serve d caller (archives id) w = (archive orm id caller.org_id caller.id caller.role w).1

  -- Every request of the controller keeps every workflow's versions numbered from 1 to its current
  -- version, also one that is refused or whose message is lost, where the ids it draws are new and no
  -- two workflows have one id.
  pub serve-HasNumberedVersions :
      (d : Draw) (caller : RequestUser) (r : Request) (w : World)
      → IsNew orm w d.id
      → HasUniqueKeys w.workflows
      → HasNumberedVersions w
      → HasNumberedVersions (serve d caller r w)
  unfolding serve
  serve-HasNumberedVersions d caller (creates dto) w new u h =
      create-HasNumberedVersions orm w d.id d.version_id dto caller.org_id caller.id new h
  serve-HasNumberedVersions d caller (updates id dto) w new u h =
      update-HasNumberedVersions orm w d.version_id d.correlation_id id dto caller.org_id caller.id
        caller.role u h
  serve-HasNumberedVersions d caller (creates_version id elements source) w new u h =
      update-HasNumberedVersions orm w d.version_id d.correlation_id id
        (with_version elements source) caller.org_id caller.id caller.role u h
  serve-HasNumberedVersions d caller (duplicates id title) w new u h =
      duplicate-HasNumberedVersions orm w d.id d.version_id id caller.org_id caller.id title new h
  serve-HasNumberedVersions d caller (archives id) w new u h =
      archive-HasNumberedVersions orm w id caller.org_id caller.id caller.role h
