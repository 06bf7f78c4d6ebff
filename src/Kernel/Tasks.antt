-- ===== src/Kernel/Tasks.antt =====
-- packages/kernel/src/tasks.ts. Times are milliseconds; what a call reads from the clock and from the source of ids is an argument.
mod Types
pub mod Texts
pub mod Answers
pub use Types.*
pub mod Currency
pub mod Declared
mod Tests
use apex_vnext.Kernel.Tasks.Texts.{is_empty, trim, is_word, is_environment_name}
use apex_vnext.Common.{
  ℕ, ◌+◌, String, Bool, true, false, ◌&&◌, ◌||◌, List, [], ◌∷◌, ◌++◌, Option, none, some, Result,
  ok, err, not, ◌==◌, nat_Eq, string_Eq, ltb, leb, if◌then◌else◌, ◌>>=◌, ◌>>◌, refuse, find, any,
  all, filter, length, includes, distinct, map,
}
use apex_vnext.Kernel.Canonical.{Text, text_Eq, units}

unfoldable pub create_task_envelope : TaskRequest → ℕ → ℕ → String → Result TaskError TaskEnvelope
create_task_envelope request ttl now task_id = do
  refuse (leb ttl 0) ttl_not_positive
  ok (record { request = request; task_id = task_id; created_at = now; expires_at = now + ttl })

unfoldable pub assert_task_current : TaskEnvelope → String → ℕ → ℕ → Result TaskError Unit
assert_task_current task head owner_epoch now = do
  refuse (leb task.expires_at now) expired
  refuse (not (task.expected_head == head)) stale_task_head
  refuse (not (task.owner_epoch == owner_epoch)) stale_task_epoch

-- The questions of the result with the status `needs_input`.
pub needs_input : List Question → Result TaskError (List Question)
needs_input [] = err no_questions
needs_input (q ∷ qs) = ok (q ∷ qs)

-- `EXPLICIT_NONE_ANSWERS`, for ids that are no property of every object.
pub explicit_none : Text → Option Text
explicit_none id =
    if id == units "prohibited-services"
    then some (units "No Azure services are prohibited.")
    else if id == units "environment-overrides"
    then some (units "No environment-specific service or sizing overrides.")
    else none

abbrev pub Answers : Type 0
Answers = List (Text × AnswerValue)

pub answer_of : Text → Answers → Option AnswerValue
answer_of id [] = none
answer_of id ((k, v) ∷ answers) = if k == id then some v else answer_of id answers

abbrev pub is_given : Option AnswerValue → Bool
is_given none = false
is_given (some v) = true

abbrev pub has_answer : Answers → Text → Bool
has_answer answers id = is_given (answer_of id answers)

-- An empty answer to an optional question, which does not count.
pub is_skipped_answer : Option Question → AnswerValue → Bool
unfolding trim
is_skipped_answer (some q) (text_value t) = q.optional && is_empty (trim t)
is_skipped_answer _ _ = false

abbrev pub question_of : List Question → Text → Option Question
question_of qs id = find (λ (q : Question). q.id == id) qs

-- The first loop: the map of the answers, in the order in which they were set.
pub collect_answers : List Question → List InputAnswer → Answers → Result TaskError Answers
unfolding is_skipped_answer answer_of
collect_answers qs [] answers = ok answers
collect_answers qs (a ∷ submitted) answers = do
  refuse (has_answer answers a.question_id) (duplicate_answer a.question_id)
  elim (is_skipped_answer (question_of qs a.question_id) a.value) [
    | true ↦ collect_answers qs submitted answers
    | false ↦ collect_answers qs submitted (answers ++ (a.question_id, a.value) ∷ [])
  ]

-- The second loop.
pub refuse_unknown : List Question → Answers → Result TaskError Unit
refuse_unknown qs [] = ok tt
refuse_unknown qs ((id, v) ∷ answers) = do
  refuse (not (any (λ (q : Question). q.id == id) qs)) (unknown_answer id)
  refuse_unknown qs answers

abbrev pub required_of : List Question → List Question
required_of qs = filter (λ (q : Question). not q.optional) qs

-- `isDeferredOrUnknown`.
abbrev pub is_deferred_or_unknown : AnswerValue → Bool
is_deferred_or_unknown (deferred owner) = true
is_deferred_or_unknown unknown = true
is_deferred_or_unknown _ = false

abbrev pub selections : AnswerValue → List Text
selections (list_value ts) = ts
selections (compliance_value scopes) = scopes
selections _ = []

abbrev pub has_kind : ValueType → AnswerValue → Bool
has_kind budget (budget_value amount currency) = true
has_kind recovery (recovery_value rto rpo) = true
has_kind data_classification (classification_value c) = true
has_kind compliance (compliance_value scopes) = true
has_kind _ _ = false

-- Some of the texts is not among the options, if there are any.
abbrev pub undeclared : Option (List Text) → List Text → Bool
undeclared none ts = false
undeclared (some options) ts = any (λ t. not (includes t options)) ts

-- The texts in the order of the options.
abbrev pub in_option_order : Option (List Text) → List Text → List Text
in_option_order none ts = ts
in_option_order (some options) ts = filter (λ o. includes o ts) options

abbrev pub chosen : AnswerValue → List Text
chosen (classification_value c) = c ∷ []
chosen (compliance_value scopes) = scopes
chosen _ = []

abbrev pub combines_none : AnswerValue → Bool
combines_none (compliance_value scopes) = includes (units "none") scopes && ltb 1 (length scopes)
combines_none _ = false

abbrev pub reordered : Option (List Text) → AnswerValue → AnswerValue
reordered options (compliance_value scopes) = compliance_value (in_option_order options scopes)
reordered options v = v

abbrev pub normal_environments : Question → AnswerValue → Result TaskError AnswerValue
normal_environments q (list_value ts) = do
  refuse (any (λ t. not (is_environment_name t)) ts) (wrong_shape q.id)
  refuse (undeclared q.options ts) (undeclared_option q.id)
  ok (list_value (in_option_order q.options ts))
normal_environments q _ = err (wrong_shape q.id)

abbrev pub normal_kind : Question → ValueType → AnswerValue → Result TaskError AnswerValue
normal_kind q t v = do
  refuse (not (has_kind t v)) (wrong_shape q.id)
  refuse (undeclared q.options (chosen v)) (undeclared_option q.id)
  refuse (combines_none v) (combined_none q.id)
  ok (reordered q.options v)

-- An item that is empty or stands for no answer.
pub is_placeholder : Text → Bool
unfolding trim is_word
is_placeholder t =
    let s = trim t in is_empty s || (is_word (units "none") s || is_word (units "n/a") s)

abbrev pub explicit_for : Option Text → Text → Option Text
explicit_for none t = none
explicit_for (some answer) t = if is_word (units "none") (trim t) then some answer else none

-- An answer to a question that has no value type.
abbrev pub normal_selected : Question → List Text → AnswerValue → Result TaskError AnswerValue
normal_selected q ts v = do
  refuse (any is_placeholder ts) (not_explicit q.id)
  refuse (undeclared q.options ts) (undeclared_option q.id)
  ok v

abbrev pub normal_text : Question → Text → Option Text → Result TaskError AnswerValue
normal_text q t (some answer) = ok (text_value answer)
normal_text q t none = normal_selected q (t ∷ []) (text_value t)

abbrev pub normal_plain : Question → AnswerValue → Result TaskError AnswerValue
normal_plain q (text_value t) =
    if q.multi_select
    then err (wrong_shape q.id)
    else normal_text q t (explicit_for (explicit_none q.id) t)
normal_plain q (list_value ts) =
    if q.multi_select
    then normal_selected q ts (list_value (in_option_order q.options ts))
    else err (wrong_shape q.id)
normal_plain q _ = err (wrong_shape q.id)

abbrev pub normal_typed : Question → Option ValueType → AnswerValue → Result TaskError AnswerValue
normal_typed q none v = normal_plain q v
normal_typed q (some environment_set) v = normal_environments q v
normal_typed q (some budget) v = normal_kind q budget v
normal_typed q (some recovery) v = normal_kind q recovery v
normal_typed q (some data_classification) v = normal_kind q data_classification v
normal_typed q (some compliance) v = normal_kind q compliance v

-- The body of the last loop, for a question that has an answer.
unfoldable pub normal_value : Question → AnswerValue → Result TaskError AnswerValue
normal_value q v = if is_deferred_or_unknown v then ok v else do
  refuse (not (distinct (selections v))) (repeated_option q.id)
  normal_typed q q.value_type v

abbrev pub normal_answer : Question → Option AnswerValue → Result TaskError (List InputAnswer)
normal_answer q none = ok []
normal_answer q (some v) = do
  v' ← normal_value q v
  ok (record { question_id = q.id; value = v' } ∷ [])

pub normal_answers : List Question → Answers → Result TaskError (List InputAnswer)
normal_answers [] answers = ok []
normal_answers (q ∷ qs) answers = do
  first ← normal_answer q (answer_of q.id answers)
  rest ← normal_answers qs answers
  ok (first ++ rest)

unfoldable pub validate_input_answers :
    List Question → List InputAnswer → Result TaskError (List InputAnswer)
unfolding collect_answers refuse_unknown normal_answers
validate_input_answers questions submitted = do
  answers ← collect_answers questions submitted []
  refuse_unknown questions answers
  refuse
      (ltb (length answers) (length (required_of questions))
        || any (λ (q : Question). not (has_answer answers q.id)) (required_of questions))
      answer_missing
  normal_answers questions answers
