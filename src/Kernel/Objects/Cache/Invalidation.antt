-- ===== src/Kernel/Objects/Cache/Invalidation.antt =====
-- What `invalidate` of packages/kernel/src/content-cache.ts removes.
use apex_vnext.Common.{
  ℕ, ◌+◌, ◌&&◌, ◌≡◌, refl, List, [], ◌∷◌, Option, none, some, Result, ok, err, nat_Eq, ◌≢◌,
  if◌then◌else◌, arith, Bool-cases, inl, inr,
}
use apex_vnext.Common.Assoc.{get}
use apex_vnext.Kernel.Canonical.{Text, text_Eq, text_eq_iff}
use apex_vnext.Kernel.Objects.{ObjectError, is_hash}
use apex_vnext.Kernel.Objects.Cache.{
  EntryFile, entry, malformed, no_file, CacheDisk, is_affected, sweep_file, counted, sweep,
  invalidate,
}

-- A directory lists no name twice.
abbrev pub IsListing : List (Text × EntryFile) → Type 0
IsListing [] = Unit {0}
IsListing ((k, f) ∷ files) = (get files k ≡ none) × IsListing files

-- What an invalidation leaves under a name.
abbrev pub survivor : Option Text → Text → Option EntryFile → Option EntryFile
survivor dependency key (some (entry e)) =
    if is_hash key && is_affected dependency e then none else some (entry e)
survivor dependency key f = f

abbrev pub weight : Option Text → Text → EntryFile → ℕ
weight dependency k (entry e) = if is_hash k && is_affected dependency e then 1 else 0
weight dependency k _ = 0

abbrev pub affected_count : Option Text → List (Text × EntryFile) → ℕ
affected_count dependency [] = 0
affected_count dependency ((k, f) ∷ files) = weight dependency k f + affected_count dependency files

-- What a sweep that returned has left under a name.
abbrev Swept : Option Text → List (Text × EntryFile) → List (Text × EntryFile) → ℕ → Text → Type 0
Swept dependency files kept n key =
    (get kept key ≡ survivor dependency key (get files key)) × (n ≡ affected_count dependency files)

-- One file more, of each kind.
add-Swept :
    (dependency : Option Text) (k : Text) (f : EntryFile)
    (files kept kept' : List (Text × EntryFile)) (n n' : ℕ) (key : Text)
    → (if is_hash k then sweep_file dependency k f files (ok n, kept) else (ok n, (k, f) ∷ kept))
      ≡ (ok n', kept')
    → get files k ≡ none
    → Swept dependency files kept n key
    → Swept dependency ((k, f) ∷ files) kept' n' key
unfolding sweep_file counted get
add-Swept dependency k (entry e) files kept kept' n n' key h new swept =
    elim (Bool-cases (is_hash k)) [
      | inl yes_hash ↦ elim (Bool-cases (is_affected dependency e)) [
        | inl gone ↦ ground (arith, text_eq_iff k key)
        | inr stays ↦ ground (arith, text_eq_iff k key)
      ]
      | inr no_hash ↦ ground (arith, text_eq_iff k key)
    ]
add-Swept dependency k malformed files kept kept' n n' key h new swept =
    ground (arith, text_eq_iff k key)
add-Swept dependency k no_file files kept kept' n n' key h new swept =
    ground (arith, text_eq_iff k key)

sweep_file-err :
    (dependency : Option Text) (k : Text) (f : EntryFile)
    (files kept kept' : List (Text × EntryFile)) (x : ObjectError) (n : ℕ)
    → (if is_hash k then sweep_file dependency k f files (err x, kept) else (err x, (k, f) ∷ kept))
      ≢ (ok n, kept')
unfolding sweep_file counted
sweep_file-err dependency k (entry e) files kept kept' x n h = ground arith
sweep_file-err dependency k malformed files kept kept' x n h = ground arith
sweep_file-err dependency k no_file files kept kept' x n h = ground arith

sweep-Swept :
    (dependency : Option Text) (files kept : List (Text × EntryFile)) (n : ℕ) (key : Text)
    → sweep dependency files ≡ (ok n, kept)
    → IsListing files
    → Swept dependency files kept n key
unfolding sweep get
sweep-Swept dependency [] kept n key h listing = ground arith
sweep-Swept dependency ((k, f) ∷ files) kept n key h (new, listing) =
    split (sweep dependency files) refl h
      (λ kept' n' e. sweep-Swept dependency files kept' n' key e listing)
  where
    split :
        (x : Result ObjectError ℕ × List (Text × EntryFile))
        → sweep dependency files ≡ x
        → (if is_hash k then sweep_file dependency k f files x else (x.0, (k, f) ∷ x.1))
          ≡ (ok n, kept)
        → ((kept' : List (Text × EntryFile)) (n' : ℕ)
            → sweep dependency files ≡ (ok n', kept')
            → Swept dependency files kept' n' key)
        → Swept dependency ((k, f) ∷ files) kept n key
    split (ok n', kept') at done ih =
        add-Swept dependency k f files kept' kept n' n key done new (ih kept' n' at)
    split (err x, kept') at done ih =
        absurd (sweep_file-err dependency k f files kept' kept x n done)

-- An invalidation that returns has removed every entry that depends on the name, or every entry where
-- no name is given, and nothing else; it returns their number, and leaves the objects.
pub invalidate-exact :
    (dependency : Option Text) (c c' : CacheDisk) (n : ℕ) (key : Text)
    → invalidate dependency c ≡ (ok n, c')
    → IsListing c.entries
    → (get c'.entries key ≡ survivor dependency key (get c.entries key))
      × (n ≡ affected_count dependency c.entries)
      × (c'.objects ≡ c.objects)
unfolding invalidate
invalidate-exact dependency c c' n key h listing =
    let (left, count) = sweep-Swept dependency c.entries c'.entries n key (ground arith) listing in
    (left, count, ground arith)
