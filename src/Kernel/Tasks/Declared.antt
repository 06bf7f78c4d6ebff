-- ===== src/Kernel/Tasks/Declared.antt =====
-- An answer keeps to the options of its question.
use apex_vnext.Common.{◌≡◌, true, List, [], ◌∷◌, All, includes}
use apex_vnext.Kernel.Canonical.{Text, text_Eq}
use apex_vnext.Kernel.Tasks.{
  AnswerValue, text_value, list_value, classification_value, compliance_value,
}

-- The options that a value names.
abbrev pub picked : AnswerValue → List Text
picked (text_value t) = t ∷ []
picked (list_value ts) = ts
picked (classification_value c) = c ∷ []
picked (compliance_value scopes) = scopes
picked _ = []

abbrev pub Declared : List Text → List Text → Type 0
Declared options ts = All (λ t. includes t options ≡ true) ts
