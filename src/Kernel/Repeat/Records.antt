-- ===== src/Kernel/Repeat/Records.antt =====
-- The bounded list of records of packages/kernel/src/repeat-guard.ts.
use apex_vnext.Common.{
  ℕ, ◌≤◌, Bool, true, ◌≡◌, refl, inl, inr, ◌⊎◌, List, [], ◌∷◌, ◌++◌, some, nat_Eq, filter, all,
  length, arith, Option-cases,
}
use apex_vnext.Common.Assoc.{get}
use apex_vnext.Kernel.Canonical.{Text, text_Eq}
use apex_vnext.Kernel.Repeat.{
  RepeatRecord, unreadable, stored, RepeatDisk, valid_records, read_repeat_records, take_last,
  fits_result,
}
use apex_vnext.Kernel.Repeat.Guard.{find_last}

abbrev pub Listed : {A : Type 0} → A → List A → Type 0
Listed a [] = ⊥
Listed a (x ∷ xs) = (x ≡ a) ⊎ Listed a xs

pub find_last-Listed :
    (p : RepeatRecord → Bool) (xs : List RepeatRecord) (r : RepeatRecord)
    → find_last p xs ≡ some r
    → Listed r xs × (p r ≡ true)
unfolding find_last
find_last-Listed p [] r h = cc
find_last-Listed p (x ∷ xs) r h = elim (Option-cases (find_last p xs)) [
  | inl e ↦ (inl (ground arith), ground arith)
  | inr (y, e) ↦ let (there, fits) = find_last-Listed p xs r (ground arith) in (inr there, fits)
]

pub length-take_last : (n : ℕ) (xs : List RepeatRecord) → length (take_last n xs) ≤ n
unfolding take_last
length-take_last n [] = omega arith
length-take_last n (x ∷ xs) = ground (arith, length-take_last n xs)

pub all-take_last :
    (p : RepeatRecord → Bool) (n : ℕ) (xs : List RepeatRecord)
    → all p xs ≡ true
    → all p (take_last n xs) ≡ true
unfolding take_last
all-take_last p n [] h = refl
all-take_last p n (x ∷ xs) h = ground (arith, all-take_last p n xs)

find_last-last :
    (p : RepeatRecord → Bool) (xs : List RepeatRecord) (r : RepeatRecord)
    → p r ≡ true
    → find_last p (xs ++ r ∷ []) ≡ some r
unfolding find_last
find_last-last p [] r h = ground arith
find_last-last p (x ∷ xs) r h = ground (arith, find_last-last p xs r h)

-- The last record stays, if one may stay.
pub find_last-take_last :
    (p : RepeatRecord → Bool) (n : ℕ) (xs : List RepeatRecord) (r : RepeatRecord)
    → p r ≡ true
    → 1 ≤ n
    → find_last p (take_last n (xs ++ r ∷ [])) ≡ some r
unfolding take_last find_last
find_last-take_last p n [] r h k = ground arith
find_last-take_last p n (x ∷ xs) r h k =
    ground (arith, find_last-take_last p n xs r h k, find_last-last p xs r h)

pub all-filter :
    (p q : RepeatRecord → Bool)
    → ((r : RepeatRecord) → q r ≡ true → p r ≡ true)
    → (xs : List RepeatRecord) → all p (filter q xs) ≡ true
all-filter p q h [] = refl
all-filter p q h (x ∷ xs) = ground (arith, all-filter p q h xs, h x)

pub all-filter_kept :
    (p q : RepeatRecord → Bool) (xs : List RepeatRecord)
    → all p xs ≡ true
    → all p (filter q xs) ≡ true
all-filter_kept p q [] h = refl
all-filter_kept p q (x ∷ xs) h = ground (arith, all-filter_kept p q xs)

pub all-append :
    (p : RepeatRecord → Bool) (xs ys : List RepeatRecord)
    → all p xs ≡ true
    → all p ys ≡ true
    → all p (xs ++ ys) ≡ true
all-append p [] ys h k = k
all-append p (x ∷ xs) ys h k = ground (arith, all-append p xs ys)

-- Only records whose results fit are read.
pub read-fits :
    (to_iso : ℕ → Text) (disk : RepeatDisk) (directory : Text)
    → all fits_result (read_repeat_records to_iso disk directory) ≡ true
unfolding read_repeat_records valid_records
read-fits to_iso disk directory = elim (Option-cases (get disk.files directory)) [
  | inl e ↦ rw e refl
  | inr (unreadable, e) ↦ rw e refl
  | inr (stored records, e) ↦ rw e (ground arith)
]
