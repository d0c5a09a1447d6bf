-- ===== src/Database/Enums.antt =====
-- The column enumerations of src/database/enums/index.ts. The program compares two values of an
-- enumeration by their texts, which differ: here by their places in the declaration.
use back_end.Prelude.{ℕ, String, ◌≡◌, ◌↔◌, true, ◌==◌, Eq, arith}

pub data UserRole : Type 0 where
  admin process_owner business_analyst reviewer viewer : UserRole

abbrev pub user_role_text : UserRole → String
user_role_text UserRole.admin = "admin"
user_role_text UserRole.process_owner = "process_owner"
user_role_text UserRole.business_analyst = "business_analyst"
user_role_text UserRole.reviewer = "reviewer"
user_role_text UserRole.viewer = "viewer"

abbrev pub user_role_place : UserRole → ℕ
user_role_place UserRole.admin = 0
user_role_place UserRole.process_owner = 1
user_role_place UserRole.business_analyst = 2
user_role_place UserRole.reviewer = 3
user_role_place UserRole.viewer = 4

pub user_role_beq_iff :
    (a b : UserRole) → ((user_role_place a == user_role_place b) ≡ true) ↔ (a ≡ b)
user_role_beq_iff a b = ground arith

instance abbrev pub user_role_Eq : Eq UserRole
user_role_Eq = record {
  beq = λ a b. user_role_place a == user_role_place b;
  beq_iff = user_role_beq_iff;
}

pub data WorkflowStatus : Type 0 where
  draft in_elicitation pending_review validated exported archived : WorkflowStatus

abbrev pub workflow_status_text : WorkflowStatus → String
workflow_status_text WorkflowStatus.draft = "draft"
workflow_status_text WorkflowStatus.in_elicitation = "in_elicitation"
workflow_status_text WorkflowStatus.pending_review = "pending_review"
workflow_status_text WorkflowStatus.validated = "validated"
workflow_status_text WorkflowStatus.exported = "exported"
workflow_status_text WorkflowStatus.archived = "archived"

abbrev pub workflow_status_place : WorkflowStatus → ℕ
workflow_status_place WorkflowStatus.draft = 0
workflow_status_place WorkflowStatus.in_elicitation = 1
workflow_status_place WorkflowStatus.pending_review = 2
workflow_status_place WorkflowStatus.validated = 3
workflow_status_place WorkflowStatus.exported = 4
workflow_status_place WorkflowStatus.archived = 5

pub workflow_status_beq_iff :
    (a b : WorkflowStatus) → ((workflow_status_place a == workflow_status_place b) ≡ true) ↔ (a ≡ b)
workflow_status_beq_iff a b = ground arith

instance abbrev pub workflow_status_Eq : Eq WorkflowStatus
workflow_status_Eq = record {
  beq = λ a b. workflow_status_place a == workflow_status_place b;
  beq_iff = workflow_status_beq_iff;
}

pub data SessionMode : Type 0 where
  auto interactive : SessionMode

abbrev pub session_mode_text : SessionMode → String
session_mode_text SessionMode.auto = "auto"
session_mode_text SessionMode.interactive = "interactive"

abbrev pub session_mode_place : SessionMode → ℕ
session_mode_place SessionMode.auto = 0
session_mode_place SessionMode.interactive = 1

pub session_mode_beq_iff :
    (a b : SessionMode) → ((session_mode_place a == session_mode_place b) ≡ true) ↔ (a ≡ b)
session_mode_beq_iff a b = ground arith

instance abbrev pub session_mode_Eq : Eq SessionMode
session_mode_Eq = record {
  beq = λ a b. session_mode_place a == session_mode_place b;
  beq_iff = session_mode_beq_iff;
}

pub data SessionStatus : Type 0 where
  created awaiting_input processing draft_ready needs_reconciliation in_elicitation in_review
        validated exported archived error :
      SessionStatus

abbrev pub session_status_text : SessionStatus → String
session_status_text SessionStatus.created = "created"
session_status_text SessionStatus.awaiting_input = "awaiting_input"
session_status_text SessionStatus.processing = "processing"
session_status_text SessionStatus.draft_ready = "draft_ready"
session_status_text SessionStatus.needs_reconciliation = "needs_reconciliation"
session_status_text SessionStatus.in_elicitation = "in_elicitation"
session_status_text SessionStatus.in_review = "in_review"
session_status_text SessionStatus.validated = "validated"
session_status_text SessionStatus.exported = "exported"
session_status_text SessionStatus.archived = "archived"
session_status_text SessionStatus.error = "error"

abbrev pub session_status_place : SessionStatus → ℕ
session_status_place SessionStatus.created = 0
session_status_place SessionStatus.awaiting_input = 1
session_status_place SessionStatus.processing = 2
session_status_place SessionStatus.draft_ready = 3
session_status_place SessionStatus.needs_reconciliation = 4
session_status_place SessionStatus.in_elicitation = 5
session_status_place SessionStatus.in_review = 6
session_status_place SessionStatus.validated = 7
session_status_place SessionStatus.exported = 8
session_status_place SessionStatus.archived = 9
session_status_place SessionStatus.error = 10

pub session_status_beq_iff :
    (a b : SessionStatus) → ((session_status_place a == session_status_place b) ≡ true) ↔ (a ≡ b)
session_status_beq_iff a b = ground arith

instance abbrev pub session_status_Eq : Eq SessionStatus
session_status_Eq = record {
  beq = λ a b. session_status_place a == session_status_place b;
  beq_iff = session_status_beq_iff;
}

pub data MessageRole : Type 0 where
  user ai system : MessageRole

pub data MessageType : Type 0 where
  user_input ai_question ai_response ai_summary ai_update ai_confidence_report system_note
        system_status :
      MessageType

abbrev pub message_type_place : MessageType → ℕ
message_type_place MessageType.user_input = 0
message_type_place MessageType.ai_question = 1
message_type_place MessageType.ai_response = 2
message_type_place MessageType.ai_summary = 3
message_type_place MessageType.ai_update = 4
message_type_place MessageType.ai_confidence_report = 5
message_type_place MessageType.system_note = 6
message_type_place MessageType.system_status = 7

pub message_type_beq_iff :
    (a b : MessageType) → ((message_type_place a == message_type_place b) ≡ true) ↔ (a ≡ b)
message_type_beq_iff a b = ground arith

instance abbrev pub message_type_Eq : Eq MessageType
message_type_Eq = record {
  beq = λ a b. message_type_place a == message_type_place b;
  beq_iff = message_type_beq_iff;
}

pub data CommentType : Type 0 where
  question correction approval suggestion escalation : CommentType

abbrev pub comment_type_text : CommentType → String
comment_type_text CommentType.question = "question"
comment_type_text CommentType.correction = "correction"
comment_type_text CommentType.approval = "approval"
comment_type_text CommentType.suggestion = "suggestion"
comment_type_text CommentType.escalation = "escalation"

abbrev pub comment_type_place : CommentType → ℕ
comment_type_place CommentType.question = 0
comment_type_place CommentType.correction = 1
comment_type_place CommentType.approval = 2
comment_type_place CommentType.suggestion = 3
comment_type_place CommentType.escalation = 4

pub comment_type_beq_iff :
    (a b : CommentType) → ((comment_type_place a == comment_type_place b) ≡ true) ↔ (a ≡ b)
comment_type_beq_iff a b = ground arith

instance abbrev pub comment_type_Eq : Eq CommentType
comment_type_Eq = record {
  beq = λ a b. comment_type_place a == comment_type_place b;
  beq_iff = comment_type_beq_iff;
}

pub data ActorType : Type 0 where
  user ai_agent system : ActorType

pub data AgentType : Type 0 where
  orchestrator intake extraction pattern gap_detection qa validation export divergence
        rules_skills_loader :
      AgentType

abbrev pub agent_type_text : AgentType → String
agent_type_text AgentType.orchestrator = "ORCHESTRATOR"
agent_type_text AgentType.intake = "INTAKE"
agent_type_text AgentType.extraction = "EXTRACTION"
agent_type_text AgentType.pattern = "PATTERN"
agent_type_text AgentType.gap_detection = "GAP_DETECTION"
agent_type_text AgentType.qa = "QA"
agent_type_text AgentType.validation = "VALIDATION"
agent_type_text AgentType.export = "EXPORT"
agent_type_text AgentType.divergence = "DIVERGENCE"
agent_type_text AgentType.rules_skills_loader = "RULES_SKILLS_LOADER"

abbrev pub agent_type_place : AgentType → ℕ
agent_type_place AgentType.orchestrator = 0
agent_type_place AgentType.intake = 1
agent_type_place AgentType.extraction = 2
agent_type_place AgentType.pattern = 3
agent_type_place AgentType.gap_detection = 4
agent_type_place AgentType.qa = 5
agent_type_place AgentType.validation = 6
agent_type_place AgentType.export = 7
agent_type_place AgentType.divergence = 8
agent_type_place AgentType.rules_skills_loader = 9

pub agent_type_beq_iff :
    (a b : AgentType) → ((agent_type_place a == agent_type_place b) ≡ true) ↔ (a ≡ b)
agent_type_beq_iff a b = ground arith

instance abbrev pub agent_type_Eq : Eq AgentType
agent_type_Eq = record {
  beq = λ a b. agent_type_place a == agent_type_place b;
  beq_iff = agent_type_beq_iff;
}

pub data PipelineTaskType : Type 0 where
  full_pipeline scoped_reprocess export_only qa_round : PipelineTaskType

pub data PipelineStatus : Type 0 where
  pending running paused completed failed cancelled : PipelineStatus

abbrev pub pipeline_status_place : PipelineStatus → ℕ
pipeline_status_place PipelineStatus.pending = 0
pipeline_status_place PipelineStatus.running = 1
pipeline_status_place PipelineStatus.paused = 2
pipeline_status_place PipelineStatus.completed = 3
pipeline_status_place PipelineStatus.failed = 4
pipeline_status_place PipelineStatus.cancelled = 5

pub pipeline_status_beq_iff :
    (a b : PipelineStatus) → ((pipeline_status_place a == pipeline_status_place b) ≡ true) ↔ (a ≡ b)
pipeline_status_beq_iff a b = ground arith

instance abbrev pub pipeline_status_Eq : Eq PipelineStatus
pipeline_status_Eq = record {
  beq = λ a b. pipeline_status_place a == pipeline_status_place b;
  beq_iff = pipeline_status_beq_iff;
}

pub data RuleType : Type 0 where
  extraction actor_mapping structural_constraint validation naming_convention prompt_injection :
      RuleType

abbrev pub rule_type_text : RuleType → String
rule_type_text RuleType.extraction = "EXTRACTION"
rule_type_text RuleType.actor_mapping = "ACTOR_MAPPING"
rule_type_text RuleType.structural_constraint = "STRUCTURAL_CONSTRAINT"
rule_type_text RuleType.validation = "VALIDATION"
rule_type_text RuleType.naming_convention = "NAMING_CONVENTION"
rule_type_text RuleType.prompt_injection = "PROMPT_INJECTION"

abbrev pub rule_type_place : RuleType → ℕ
rule_type_place RuleType.extraction = 0
rule_type_place RuleType.actor_mapping = 1
rule_type_place RuleType.structural_constraint = 2
rule_type_place RuleType.validation = 3
rule_type_place RuleType.naming_convention = 4
rule_type_place RuleType.prompt_injection = 5

pub rule_type_beq_iff :
    (a b : RuleType) → ((rule_type_place a == rule_type_place b) ≡ true) ↔ (a ≡ b)
rule_type_beq_iff a b = ground arith

instance abbrev pub rule_type_Eq : Eq RuleType
rule_type_Eq = record {
  beq = λ a b. rule_type_place a == rule_type_place b;
  beq_iff = rule_type_beq_iff;
}

pub data RuleScope : Type 0 where
  org workflow agent : RuleScope

abbrev pub rule_scope_text : RuleScope → String
rule_scope_text RuleScope.org = "ORG"
rule_scope_text RuleScope.workflow = "WORKFLOW"
rule_scope_text RuleScope.agent = "AGENT"

abbrev pub rule_scope_place : RuleScope → ℕ
rule_scope_place RuleScope.org = 0
rule_scope_place RuleScope.workflow = 1
rule_scope_place RuleScope.agent = 2

pub rule_scope_beq_iff :
    (a b : RuleScope) → ((rule_scope_place a == rule_scope_place b) ≡ true) ↔ (a ≡ b)
rule_scope_beq_iff a b = ground arith

instance abbrev pub rule_scope_Eq : Eq RuleScope
rule_scope_Eq = record {
  beq = λ a b. rule_scope_place a == rule_scope_place b;
  beq_iff = rule_scope_beq_iff;
}

pub data SkillType : Type 0 where
  vocabulary archetype few_shot_example domain_knowledge actor_catalog prompt_template : SkillType

abbrev pub skill_type_place : SkillType → ℕ
skill_type_place SkillType.vocabulary = 0
skill_type_place SkillType.archetype = 1
skill_type_place SkillType.few_shot_example = 2
skill_type_place SkillType.domain_knowledge = 3
skill_type_place SkillType.actor_catalog = 4
skill_type_place SkillType.prompt_template = 5

pub skill_type_beq_iff :
    (a b : SkillType) → ((skill_type_place a == skill_type_place b) ≡ true) ↔ (a ≡ b)
skill_type_beq_iff a b = ground arith

instance abbrev pub skill_type_Eq : Eq SkillType
skill_type_Eq = record {
  beq = λ a b. skill_type_place a == skill_type_place b;
  beq_iff = skill_type_beq_iff;
}
