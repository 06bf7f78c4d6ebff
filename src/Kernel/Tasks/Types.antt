-- ===== src/Kernel/Tasks/Types.antt =====
-- The types of packages/kernel/src/tasks.ts, which packages/contracts/src/runtime.ts declares.
use apex_vnext.Common.{ℕ, String, Bool, List, Option}
use apex_vnext.Kernel.Canonical.{Text}

pub data SideEffect : Type 0 where
  no_effect local_effect remote_effect : SideEffect

pub record CapabilityGrant : Type 0 where
  pub capability : String
  pub side_effect : SideEffect
  pub expires_at : ℕ

-- `TaskEnvelopeV1`, less the constant `schemaVersion`: what the input gives, and what is added.
pub record TaskRequest : Type 0 where
  pub project_id : String
  pub run_id : String
  pub role : String
  pub task_type : String
  pub expected_head : String
  pub owner_epoch : ℕ
  pub input_refs : List String
  pub allowed_output_kinds : List String
  pub capability_grants : List CapabilityGrant
  pub max_output_bytes : ℕ

pub record TaskEnvelope : Type 0 where
  pub request : TaskRequest
  pub open request use *
  pub task_id : String
  pub created_at : ℕ
  pub expires_at : ℕ

pub data ValueType : Type 0 where
  budget recovery environment_set data_classification compliance : ValueType

-- `QuestionV1`, less `recommendation`, which the kernel does not read.
pub record Question : Type 0 where
  pub id : Text
  pub prompt : Text
  pub optional : Bool
  pub options : Option (List Text)
  pub multi_select : Bool
  pub value_type : Option ValueType

pub data AnswerValue : Type 0 where
  text_value : Text → AnswerValue
  list_value : List Text → AnswerValue
  deferred : Text → AnswerValue
  unknown : AnswerValue
  budget_value : Text → Text → AnswerValue
  recovery_value : ℕ → ℕ → AnswerValue
  classification_value : Text → AnswerValue
  compliance_value : List Text → AnswerValue

pub record InputAnswer : Type 0 where
  pub question_id : Text
  pub value : AnswerValue

pub data TaskError : Type 0 where
  ttl_not_positive expired stale_task_head stale_task_epoch : TaskError
  no_questions : TaskError
  duplicate_answer unknown_answer : Text → TaskError
  answer_missing : TaskError
  repeated_option wrong_shape undeclared_option combined_none not_explicit : Text → TaskError
