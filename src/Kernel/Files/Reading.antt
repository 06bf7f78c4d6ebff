-- ===== src/Kernel/Files/Reading.antt =====
-- What `readPublishedFile` of packages/kernel/src/files.ts returns, in terms of what its attempts meet.
use apex_vnext.Common.{
  ℕ, zero, suc, ◌-◌, ◌≤◌, ◌<◌, Bool, true, false, ◌≡◌, refl, ◌∙◌, ◌↔◌, inl, inr, arith, List,
  Option, none, some, Result, ok, err, length, Bool-cases, Result-cases, ap,
}
use apex_vnext.Kernel.Files.{
  enoent, eperm, eacces, ebusy, other_code, FileError, Attempt, unexamined, examined, one_attempt,
  read_published_file, attempts_ok, is_transient, or_ten, retry,
}

module _ {A : Type 0} (again : FileError → Bool) where
  -- The attempt `k`, at most `n`, returns `a`, and all before it fail with an error to try again after.
  abbrev IsFirst : ℕ → (ℕ → Result FileError A) → A → ℕ → Type 0
  IsFirst n results a k =
      (k ≤ n)
      × ((j : ℕ) → j < k → (e : FileError) × (results j ≡ err e) × (again e ≡ true))
      × (results k ≡ ok a)

  retry-ok :
      (n : ℕ) (results : ℕ → Result FileError A) (a : A)
      → retry again n results ≡ ok a
      → (k : ℕ) × IsFirst n results a k
  unfolding retry
  retry-ok zero results a h = (0, (omega arith, λ j l. absurd (omega arith), h))
  retry-ok (suc n) results a h = elim (Result-cases (results 0)) [
    | inl (b, success) ↦ (0, (omega arith, λ j l. absurd (omega arith), ground arith))
    | inr (e, failure) ↦ elim (Bool-cases (again e)) [
      | inl tried ↦
          let (k, (l, before, at)) = retry-ok n (λ i. results (suc i)) a (ground arith) in
          (
            suc k,
            (
              omega arith,
              λ j m.
                  elim j
                      as (λ x.
                        x < suc k → (f : FileError) × (results x ≡ err f) × (again f ≡ true)) [
                          | zero ↦ λ m'. (e, failure, tried)
                          | suc i ↦ λ m'. before i (omega arith)
                        ]
                    m,
              at,
            ),
          )
      | inr not_tried ↦ absurd (ground arith)
    ]
  ]

  ok-retry :
      (n : ℕ) (results : ℕ → Result FileError A) (a : A) (k : ℕ)
      → IsFirst n results a k
      → retry again n results ≡ ok a
  unfolding retry
  ok-retry zero results a zero (l, before, at) = at
  ok-retry zero results a (suc k) (l, before, at) = absurd (omega arith)
  ok-retry (suc n) results a zero (l, before, at) = ground arith
  ok-retry (suc n) results a (suc k) (l, before, at) =
      let rest =
        ok-retry n (λ i. results (suc i)) a k
          (omega arith, (λ j m. before (suc j) (omega arith)), at) in
      let (e, failure, tried) = before 0 (omega arith) in ground arith

-- The outcome of an attempt that ends the loop.
abbrev pub IsOutcome : ℕ → Attempt → Option (List ℕ) → Type 0
IsOutcome max_bytes a none = a ≡ unexamined enoent
IsOutcome max_bytes a (some bytes) =
    (size : ℕ) × (a ≡ examined true false size (ok bytes))
    × (size ≤ max_bytes)
    × (length bytes ≤ max_bytes)

one_attempt-IsOutcome :
    (max_bytes : ℕ) (a : Attempt) (v : Option (List ℕ))
    → one_attempt max_bytes a ≡ ok v
    → IsOutcome max_bytes a v
unfolding one_attempt
one_attempt-IsOutcome max_bytes (unexamined enoent) none h = refl
one_attempt-IsOutcome max_bytes (unexamined enoent) (some bytes) h = absurd (ground arith)
one_attempt-IsOutcome max_bytes (unexamined eperm) v h = absurd (ground arith)
one_attempt-IsOutcome max_bytes (unexamined eacces) v h = absurd (ground arith)
one_attempt-IsOutcome max_bytes (unexamined ebusy) v h = absurd (ground arith)
one_attempt-IsOutcome max_bytes (unexamined other_code) v h = absurd (ground arith)
one_attempt-IsOutcome max_bytes (examined is_file is_symlink size (err code)) v h =
    absurd (ground arith)
one_attempt-IsOutcome max_bytes (examined is_file is_symlink size (ok bytes)) none h =
    absurd (ground arith)
one_attempt-IsOutcome max_bytes (examined false is_symlink size (ok bytes)) (some bytes') h =
    absurd (ground arith)
one_attempt-IsOutcome max_bytes (examined true true size (ok bytes)) (some bytes') h =
    absurd (ground arith)
one_attempt-IsOutcome max_bytes (examined true false size (ok bytes)) (some bytes') h =
    let same : bytes ≡ bytes' = ground arith in
    (size, ap (λ b. examined true false size (ok b)) same, ground arith, ground arith)

IsOutcome-ok :
    (max_bytes : ℕ) (a : Attempt) (v : Option (List ℕ))
    → IsOutcome max_bytes a v
    → one_attempt max_bytes a ≡ ok v
unfolding one_attempt
IsOutcome-ok max_bytes a none h = ap (one_attempt max_bytes) h
IsOutcome-ok max_bytes a (some bytes) (size, e, l, m) = ap (one_attempt max_bytes) e ∙ ground arith

at_least_one : (attempts : Option ℕ) → attempts_ok attempts ≡ true → 0 < or_ten attempts
unfolding attempts_ok
at_least_one none h = omega arith
at_least_one (some n) h = ground arith

-- With a number of attempts in range, the read returns `v` exactly when one of its attempts ends it with
-- `v` and every earlier one failed with a missing file or, on Windows, a sharing violation: `none` only
-- when `lstat` reports that there is no file, and bytes only of a regular file, within `max_bytes` before
-- and after the read.
pub read_published_file-ok_iff :
    (windows : Bool) (max_bytes : ℕ) (attempts : Option ℕ) (met : ℕ → Attempt) (v : Option (List ℕ))
    → attempts_ok attempts ≡ true
    → (read_published_file windows max_bytes attempts met ≡ ok v) ↔ (
        (k : ℕ) × (k < or_ten attempts)
        × ((j : ℕ)
            → j < k
            → (e : FileError) × (one_attempt max_bytes (met j) ≡ err e)
              × (is_transient windows e ≡ true))
        × IsOutcome max_bytes (met k) v)
unfolding read_published_file
read_published_file-ok_iff windows max_bytes attempts met v in_range = (
  λ h.
      let (k, (l, before, at)) = retry-ok again n results v (ground arith) in
      (
        k,
        ground (arith, at_least_one attempts in_range),
        before,
        one_attempt-IsOutcome max_bytes (met k) v at,
      ),
  λ (k, l, before, at).
      let run =
        ok-retry again n results v k (ground arith, before, IsOutcome-ok max_bytes (met k) v at) in
      ground arith,
)
  where
    again : FileError → Bool
    again = is_transient windows

    n : ℕ
    n = or_ten attempts - 1

    results : ℕ → Result FileError (Option (List ℕ))
    results i = one_attempt max_bytes (met i)
