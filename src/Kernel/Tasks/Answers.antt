-- ===== src/Kernel/Tasks/Answers.antt =====
-- What the answers that pass their validation are.
use apex_vnext.Common.{
  ◌≡◌, refl, ap, sym, ◌∙◌, Bool, true, false, ◌||◌, List, [], ◌∷◌, ◌++◌, some, ok, arith, inl, inr,
  ◌⊎◌, ◌&&◌, none, subst, not, ◌==◌, refuse, >>=-eq-ok, Bool-cases, Option-cases, map, filter,
  includes, any, length, ltb,
}
use mathlib.Core.List.{Memᴰ}
use apex_vnext.Kernel.Canonical.{Text, text_Eq, text_eq_iff}
use apex_vnext.Kernel.Tasks.{
  Question, AnswerValue, InputAnswer, Answers, answer_of, has_answer, is_skipped_answer,
  question_of, collect_answers, refuse_unknown, required_of, normal_value, normal_answer,
  normal_answers, validate_input_answers, duplicate_answer, unknown_answer, answer_missing,
}

abbrev pub ids_of : List InputAnswer → List Text
ids_of = map (λ (a : InputAnswer). a.question_id)

abbrev pub question_ids : List Question → List Text
question_ids = map (λ (q : Question). q.id)

normal_answers-ids :
    (qs : List Question) (answers : Answers) (out : List InputAnswer)
    → normal_answers qs answers ≡ ok out
    → ids_of out ≡ filter (has_answer answers) (question_ids qs)
unfolding normal_answers
normal_answers-ids [] answers [] h = refl
normal_answers-ids [] answers (a ∷ out) h = cc
normal_answers-ids (q ∷ qs) answers out h =
    let (first, e, h1) = >>=-eq-ok (normal_answer q (answer_of q.id answers)) _ h in
    let (rest, later, h2) = >>=-eq-ok (normal_answers qs answers) _ h1 in
    let ih = normal_answers-ids qs answers rest later in
    elim (Option-cases (answer_of q.id answers)) [
      | inl missing ↦ ground (arith, e, missing, h2, ih)
      | inr (v, there) ↦
          let (v', _, made) =
            >>=-eq-ok (normal_value q v) _ (ap (normal_answer q) (sym there) ∙ e) in
          ground (arith, made, there, h2, ih)
    ]

answer_of-append :
    (k : Text) (v : AnswerValue) (answers more : Answers)
    → answer_of k answers ≡ some v
    → answer_of k (answers ++ more) ≡ some v
unfolding answer_of
answer_of-append k v [] more h = cc
answer_of-append k v ((j, w) ∷ answers) more h =
    ground (arith, h, answer_of-append k v answers more)

answer_of-added :
    (k : Text) (v : AnswerValue) (answers : Answers)
    → has_answer answers k ≡ false
    → answer_of k (answers ++ (k, v) ∷ []) ≡ some v
unfolding answer_of
answer_of-added k v [] h = ground (arith, text_eq_iff k k)
answer_of-added k v ((j, w) ∷ answers) h = ground (arith, h, answer_of-added k v answers)

answer_of-other :
    (j k : Text) (w v : AnswerValue) (answers : Answers)
    → j == k ≡ false
    → answer_of k (answers ++ (j, w) ∷ []) ≡ some v
    → answer_of k answers ≡ some v
unfolding answer_of
answer_of-other j k w v [] n h = absurd (ground arith)
answer_of-other j k w v ((i, x) ∷ answers) n h = ground (arith, answer_of-other j k w v answers n)

collect-keeps :
    (qs : List Question) (submitted : List InputAnswer) (acc answers : Answers) (k : Text)
    (v : AnswerValue)
    → answer_of k acc ≡ some v
    → collect_answers qs submitted acc ≡ ok answers
    → answer_of k answers ≡ some v
unfolding collect_answers
collect-keeps qs [] acc answers k v there h = ground (arith, there, h)
collect-keeps qs (a ∷ submitted) acc answers k v there h =
    let (_, _, h1) =
      >>=-eq-ok (refuse (has_answer acc a.question_id) (duplicate_answer a.question_id)) _ h in
    elim (Bool-cases (is_skipped_answer (question_of qs a.question_id) a.value)) [
      | inl skip ↦ collect-keeps qs submitted acc answers k v there (ground (arith, h1, skip))
      | inr keep ↦
          collect-keeps qs submitted (acc ++ (a.question_id, a.value) ∷ []) answers k v
            (answer_of-append k v acc _ there) (ground (arith, h1, keep))
    ]

abbrev pub IsCounted : List Question → InputAnswer → Type 0
IsCounted qs a = is_skipped_answer (question_of qs a.question_id) a.value ≡ false

collect-takes :
    (qs : List Question) (submitted : List InputAnswer) (acc answers : Answers) (a : InputAnswer)
    → Memᴰ a submitted
    → IsCounted qs a
    → collect_answers qs submitted acc ≡ ok answers
    → answer_of a.question_id answers ≡ some a.value
unfolding collect_answers
collect-takes qs [] acc answers a m counted h = elim m [ ]
collect-takes qs (b ∷ submitted) acc answers a (Memᴰ.head e) counted h =
    let (_, new, h1) =
      >>=-eq-ok (refuse (has_answer acc b.question_id) (duplicate_answer b.question_id)) _ h in
    let same : a ≡ b = cc e in
    let counted' : is_skipped_answer (question_of qs b.question_id) b.value ≡ false =
      rw same at counted in
    rw same (
      collect-keeps qs submitted (acc ++ (b.question_id, b.value) ∷ []) answers b.question_id
        b.value (answer_of-added b.question_id b.value acc (ground (arith, new)))
        (ground (arith, h1, counted')))
collect-takes qs (b ∷ submitted) acc answers a (Memᴰ.tail m) counted h =
    let (_, _, h1) =
      >>=-eq-ok (refuse (has_answer acc b.question_id) (duplicate_answer b.question_id)) _ h in
    elim (Bool-cases (is_skipped_answer (question_of qs b.question_id) b.value)) [
      | inl skip ↦ collect-takes qs submitted acc answers a m counted (ground (arith, h1, skip))
      | inr keep ↦
          collect-takes qs submitted (acc ++ (b.question_id, b.value) ∷ []) answers a m counted
            (ground (arith, h1, keep))
    ]

-- A submitted answer that counts answers the question `k`.
abbrev pub is_answered : List Question → List InputAnswer → Text → Bool
is_answered qs submitted k =
    any
      (λ (a : InputAnswer).
        not (is_skipped_answer (question_of qs a.question_id) a.value) && a.question_id == k)
      submitted

-- The answer to `k` is one that was there, or a submitted one that counts.
collect-from :
    (qs : List Question) (submitted : List InputAnswer) (acc answers : Answers) (k : Text)
    (v : AnswerValue)
    → collect_answers qs submitted acc ≡ ok answers
    → answer_of k answers ≡ some v
    → (answer_of k acc ≡ some v)
      ⊎ ((a : InputAnswer) × Memᴰ a submitted
          × IsCounted qs a
          × (a.question_id ≡ k)
          × (a.value ≡ v))
unfolding collect_answers
collect-from qs [] acc answers k v h there = inl (ground arith)
collect-from qs (b ∷ submitted) acc answers k v h there =
    let (_, new, h1) =
      >>=-eq-ok (refuse (has_answer acc b.question_id) (duplicate_answer b.question_id)) _ h in
    elim (Bool-cases (is_skipped_answer (question_of qs b.question_id) b.value)) [
      | inl skip ↦
          elim (collect-from qs submitted acc answers k v (ground (arith, h1, skip)) there) [
            | inl before ↦ inl before
            | inr (a, m, counted, same, value) ↦ inr (a, Memᴰ.tail m, counted, same, value)
          ]
      | inr keep ↦
          elim (collect-from qs submitted (acc ++ (b.question_id, b.value) ∷ []) answers k v
            (ground (arith, h1, keep)) there) [
              | inr (a, m, counted, same, value) ↦ inr (a, Memᴰ.tail m, counted, same, value)
              | inl before ↦ elim (Bool-cases (b.question_id == k)) [
                | inl y ↦
                    let same : b.question_id ≡ k = (text_eq_iff b.question_id k).0 y in
                    let added = answer_of-added b.question_id b.value acc (ground (arith, new)) in
                    let now : answer_of k (acc ++ (b.question_id, b.value) ∷ []) ≡ some b.value =
                      ap (λ x. answer_of x (acc ++ (b.question_id, b.value) ∷ [])) (sym same)
                      ∙ added in
                    inr (b, Memᴰ.head (cc), keep, same, ground (arith, now, before))
                | inr n ↦ inl (answer_of-other b.question_id k b.value v acc n before)
              ]
            ]
    ]

any-includes :
    (k : Text) (qs : List Question)
    → any (λ (q : Question). q.id == k) qs ≡ true
    → includes k (question_ids qs) ≡ true
any-includes k [] h = cc
any-includes k (q ∷ qs) h = ground (arith, h, any-includes k qs)

known-answer :
    (qs : List Question) (answers : Answers) (k : Text) (v : AnswerValue)
    → refuse_unknown qs answers ≡ ok tt
    → answer_of k answers ≡ some v
    → includes k (question_ids qs) ≡ true
unfolding refuse_unknown answer_of
known-answer qs [] k v h there = cc
known-answer qs ((j, w) ∷ answers) k v h there =
    let (_, asked, h1) =
      >>=-eq-ok (refuse (not (any (λ (q : Question). q.id == j) qs)) (unknown_answer j)) _ h in
    elim (Bool-cases (j == k)) [
      | inl y ↦
          let same : j ≡ k = (text_eq_iff j k).0 y in
          any-includes k qs
            (ground (arith, asked, ap (λ x. any (λ (q : Question). q.id == x) qs) same))
      | inr no_ ↦ known-answer qs answers k v h1 (ground (arith, no_, there))
    ]

includes-filter :
    (p : Text → Bool) (k : Text) (ts : List Text)
    → includes k ts ≡ true
    → p k ≡ true
    → includes k (filter p ts) ≡ true
includes-filter p k [] h there = cc
includes-filter p k (t ∷ ts) h there = elim (Bool-cases (t == k)) [
  | inl y ↦ let same : t ≡ k = (text_eq_iff t k).0 y in ground (arith, y, there, ap p same)
  | inr no_ ↦ ground (arith, h, no_, includes-filter p k ts)
]

required_has :
    (answers : Answers) (qs : List Question) (q : Question)
    → any (λ (r : Question). not (has_answer answers r.id)) (required_of qs) ≡ false
    → Memᴰ q qs
    → q.optional ≡ false
    → has_answer answers q.id ≡ true
required_has answers [] q h m needed = elim m [ ]
required_has answers (r ∷ qs) q h (Memᴰ.head e) needed =
    let same : q ≡ r = cc e in
    ground (
      arith,
      h,
      ap (λ (x : Question). x.optional) same,
      ap (λ (x : Question). has_answer answers x.id) same,
      needed,
    )
required_has answers (r ∷ qs) q h (Memᴰ.tail m) needed =
    required_has answers qs q (ground (arith, h)) m needed

includes-id :
    (q : Question) (qs : List Question) → Memᴰ q qs → includes q.id (question_ids qs) ≡ true
includes-id q [] m = elim m [ ]
includes-id q (r ∷ qs) (Memᴰ.head e) =
    ground (arith, text_eq_iff r.id q.id, ap (λ (x : Question). x.id) e)
includes-id q (r ∷ qs) (Memᴰ.tail m) = ground (arith, includes-id q qs m)

any-Mem :
    (p : InputAnswer → Bool) (xs : List InputAnswer)
    → any p xs ≡ true
    → (a : InputAnswer) × Memᴰ a xs × (p a ≡ true)
any-Mem p [] h = cc
any-Mem p (b ∷ xs) h = elim (Bool-cases (p b)) [
  | inl y ↦ (b, Memᴰ.head cc, y)
  | inr n ↦ let (a, m, y) = any-Mem p xs (ground arith) in (a, Memᴰ.tail m, y)
]

-- The answers `out` to the questions `qs`, one after the other: no answer to a question that no
-- submitted answer answers, and the normal form of the submitted one to each other question.
pub data IsAnswering (all_qs : List Question) (submitted : List InputAnswer)
    : List Question → List InputAnswer → Type 0 where
  no_more : IsAnswering all_qs submitted [] []
  left_out :
      {qs : List Question} {out : List InputAnswer} (q : Question)
      → is_answered all_qs submitted q.id ≡ false
      → IsAnswering all_qs submitted qs out
      → IsAnswering all_qs submitted (q ∷ qs) out
  answered_by :
      {qs : List Question} {out : List InputAnswer} (q : Question) (a : InputAnswer)
      (v : AnswerValue)
      → Memᴰ a submitted
      → IsCounted all_qs a
      → a.question_id ≡ q.id
      → normal_value q a.value ≡ ok v
      → IsAnswering all_qs submitted qs out
      → IsAnswering all_qs submitted (q ∷ qs) (record { question_id = q.id; value = v } ∷ out)

unanswered :
    (all_qs : List Question) (submitted : List InputAnswer) (answers : Answers) (k : Text)
    → collect_answers all_qs submitted [] ≡ ok answers
    → answer_of k answers ≡ none
    → is_answered all_qs submitted k ≡ false
unanswered all_qs submitted answers k collected missing =
    elim (Bool-cases (is_answered all_qs submitted k)) [
      | inr n ↦ n
      | inl y ↦
          let (a, m, fits) = any-Mem _ submitted y in
          let counted : IsCounted all_qs a = ground arith in
          let same : a.question_id ≡ k = ground (arith, text_eq_iff a.question_id k) in
          let there = collect-takes all_qs submitted [] answers a m counted collected in
          absurd (ground (arith, there, ap (λ x. answer_of x answers) same))
    ]

normal_answers-IsAnswering :
    (all_qs : List Question) (submitted : List InputAnswer) (answers : Answers)
    → collect_answers all_qs submitted [] ≡ ok answers
    → (qs : List Question) (out : List InputAnswer) → normal_answers qs answers ≡ ok out
    → IsAnswering all_qs submitted qs out
unfolding normal_answers answer_of
normal_answers-IsAnswering all_qs submitted answers collected [] [] h = no_more
normal_answers-IsAnswering all_qs submitted answers collected [] (a ∷ out) h = cc
normal_answers-IsAnswering all_qs submitted answers collected (q ∷ qs) out h =
    let (first, e, h1) = >>=-eq-ok (normal_answer q (answer_of q.id answers)) _ h in
    let (rest, later, h2) = >>=-eq-ok (normal_answers qs answers) _ h1 in
    let ih = normal_answers-IsAnswering all_qs submitted answers collected qs rest later in
    elim (Option-cases (answer_of q.id answers)) [
      | inl missing ↦
          let same : rest ≡ out = ground (arith, e, missing, h2) in
          left_out q (unanswered all_qs submitted answers q.id collected missing)
            (subst (IsAnswering all_qs submitted qs) same ih)
      | inr (w, there) ↦
          let (v, normal, made) =
            >>=-eq-ok (normal_value q w) _ (ap (normal_answer q) (sym there) ∙ e) in
          let same : record { question_id = q.id; value = v } ∷ rest ≡ out =
            ground (arith, made, h2) in
          elim (collect-from all_qs submitted [] answers q.id w collected there) [
            | inl before ↦ absurd (ground arith)
            | inr (a, m, counted, id_is, value_is) ↦
                subst (IsAnswering all_qs submitted (q ∷ qs)) same
                  (answered_by q a v m counted id_is (ap (normal_value q) value_is ∙ normal) ih)
          ]
    ]

-- When the validation succeeds, it goes through the questions in their order and returns for each of
-- them the normal form of the submitted answer to it, and nothing for a question that no submitted
-- answer answers, where an empty answer to an optional question does not count. Every question that
-- is not optional is answered, and no submitted answer that counts is lost.
pub validated_answers :
    (qs : List Question) (submitted out : List InputAnswer)
    → validate_input_answers qs submitted ≡ ok out
    → IsAnswering qs submitted qs out
      × ((q : Question) → Memᴰ q qs → q.optional ≡ false → includes q.id (ids_of out) ≡ true)
      × ((a : InputAnswer)
          → Memᴰ a submitted
          → IsCounted qs a
          → includes a.question_id (ids_of out) ≡ true)
unfolding validate_input_answers
validated_answers qs submitted out h =
    let (answers, collected, h1) = >>=-eq-ok (collect_answers qs submitted []) _ h in
    let (tt, known, h2) = >>=-eq-ok (refuse_unknown qs answers) _ h1 in
    let (_, complete, h3) =
      >>=-eq-ok
        (refuse
          (ltb (length answers) (length (required_of qs))
            || any (λ (q : Question). not (has_answer answers q.id)) (required_of qs))
          answer_missing)
        _ h2 in
    let ids = normal_answers-ids qs answers out h3 in
    (
      normal_answers-IsAnswering qs submitted answers collected qs out h3,
      λ q m needed. rw ids (
          includes-filter (has_answer answers) q.id (question_ids qs) (includes-id q qs m)
            (required_has answers qs q (ground (arith, complete)) m needed)),
      λ a m counted.
          let taken = collect-takes qs submitted [] answers a m counted collected in
          rw ids (
            includes-filter (has_answer answers) a.question_id (question_ids qs)
              (known-answer qs answers a.question_id a.value known taken) (ground (arith, taken))),
    )
