-- ===== src/Database/RuleEntities.antt =====
-- The rows of src/modules/rules/entities.
use back_end.Prelude.{ℕ, String, Bool, Option, List}
use back_end.Database.Rows.{Entity}
use back_end.Database.Json.{Json, Fields}
use back_end.Database.Enums.{RuleType, RuleScope, AgentType}
use back_end.Database.Entities.{Uuid, Instant}

pub record Rule : Type 0 where
  pub id : Uuid
  pub org_id : Uuid
  pub workflow_id : Option Uuid
  pub name : String
  pub description : Option String
  pub rule_type : RuleType
  pub scope : RuleScope
  pub target_agent : Option AgentType
  pub condition : Option Fields
  pub instruction : String
  pub priority : ℕ
  pub version : ℕ
  pub is_active : Bool
  pub created_by : Uuid
  pub updated_at : Instant

pub record RuleVersion : Type 0 where
  pub id : Uuid
  pub rule_id : Uuid
  pub version : ℕ
  pub instruction : String
  pub condition : Option Fields
  pub priority : ℕ
  pub is_active : Bool
  pub changed_by : Uuid

-- An entry of `activeRuleCache`, under its organisation.
pub record ActiveRules : Type 0 where
  pub org_id : Uuid
  pub expires_at : Instant
  pub rules : List Rule

-- An entry of `simulationCache`, under the rule, the agent and the hash of the sample text.
pub record Simulation : Type 0 where
  pub rule_id : Uuid
  pub agent : AgentType
  pub sample_hash : String
  pub expires_at : Instant
  pub result : Json

instance abbrev pub rule_entity : Entity Rule
rule_entity = record { key = λ r. r.id }
