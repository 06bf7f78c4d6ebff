-- ===== src/Kernel/Tasks/Tests.antt =====
-- Two questions, one of them optional, and the answers to them.
use apex_vnext.Common.{◌≡◌, refl, true, false, List, [], ◌∷◌, none, some, ok, err, includes}
use mathlib.Core.List.{Memᴰ}
use apex_vnext.Kernel.Canonical.{text_Eq, units}
use apex_vnext.Kernel.Tasks.{
  TaskRequest, TaskEnvelope, create_task_envelope, assert_task_current, Question, text_value,
  list_value, InputAnswer, validate_input_answers, normal_value, is_placeholder, answer_missing,
  duplicate_answer, undeclared_option, stale_task_head, expired, needs_input, no_questions,
}
use apex_vnext.Kernel.Tasks.Texts.{is_environment_name}
use apex_vnext.Kernel.Tasks.Answers.{ids_of, IsCounted, IsAnswering, validated_answers}
use apex_vnext.Kernel.Tasks.Declared.{Declared}

abbrev request : TaskRequest
request = record {
  project_id = "p";
  run_id = "r";
  role = "architect";
  task_type = "plan";
  expected_head = "h1";
  owner_epoch = 2;
  input_refs = [];
  allowed_output_kinds = [];
  capability_grants = [];
  max_output_bytes = 1000;
}

abbrev task : TaskEnvelope
task = record { request = request; task_id = "t1"; created_at = 100; expires_at = 150 }

creates : create_task_envelope request 50 100 "t1" ≡ ok task
unfolding create_task_envelope
creates = refl

too_late : assert_task_current task "h1" 2 150 ≡ err expired
unfolding assert_task_current
too_late = refl

other_head : assert_task_current task "h2" 2 149 ≡ err stale_task_head
unfolding assert_task_current
other_head = refl

nothing_to_ask : needs_input [] ≡ err no_questions
unfolding needs_input
nothing_to_ask = refl

abbrev regions : Question
regions = record {
  id = units "regions";
  prompt = units "Which regions?";
  optional = false;
  options = some (units "west" ∷ units "north" ∷ []);
  multi_select = true;
  value_type = none;
}

abbrev notes : Question
notes = record {
  id = units "notes";
  prompt = units "Notes?";
  optional = true;
  options = none;
  multi_select = false;
  value_type = none;
}

abbrev questions : List Question
questions = notes ∷ regions ∷ []

abbrev given : InputAnswer
given = record {
  question_id = units "regions";
  value = list_value (units "north" ∷ units "west" ∷ []);
}

abbrev blank : InputAnswer
blank = record { question_id = units "notes"; value = text_value (units " ") }

abbrev answered : List InputAnswer
answered =
    record { question_id = units "regions"; value = list_value (units "west" ∷ units "north" ∷ []) }
    ∷ []

validates : validate_input_answers questions (blank ∷ given ∷ []) ≡ ok answered
unfolding validate_input_answers normal_value is_placeholder
validates = refl

missing : validate_input_answers questions (blank ∷ []) ≡ err answer_missing
unfolding validate_input_answers
missing = refl

twice :
    validate_input_answers questions (given ∷ given ∷ []) ≡ err (duplicate_answer (units "regions"))
unfolding validate_input_answers
twice = refl

not_listed :
    normal_value regions (list_value (units "east" ∷ []))
    ≡ err (undeclared_option (units "regions"))
unfolding normal_value is_placeholder
not_listed = refl

is_name : is_environment_name (units "dev-eu1") ≡ true
unfolding is_environment_name
is_name = refl

is_no_name : is_environment_name (units "dev-") ≡ false
unfolding is_environment_name
is_no_name = refl

validated_answers_example :
    IsAnswering questions (blank ∷ given ∷ []) questions answered
    × ((q : Question)
        → Memᴰ q questions
        → q.optional ≡ false
        → includes q.id (ids_of answered) ≡ true)
    × ((a : InputAnswer)
        → Memᴰ a (blank ∷ given ∷ [])
        → IsCounted questions a
        → includes a.question_id (ids_of answered) ≡ true)
validated_answers_example = validated_answers questions (blank ∷ given ∷ []) answered validates
