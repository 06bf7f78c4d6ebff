-- ===== src/Kernel/Objects/Cache.antt =====
-- packages/kernel/src/content-cache.ts: values by what they depend on. The state is the directory of
-- entries and the object store.
pub mod Laws
pub mod Invalidation
use apex_vnext.Common.{
  ℕ, zero, suc, Bool, true, false, ◌&&◌, ◌||◌, List, [], ◌∷◌, Option, none, some, Result, ok, err,
  not, ◌==◌, nat_Eq, if◌then◌else◌, refuse, ◌>>=◌, ◌>>◌, includes,
}
use apex_vnext.Common.Assoc.{get, put}
use apex_vnext.Kernel.Canonical.{
  Text, Json, obj, Fields, end, field, units, text_Eq, canonical_json,
}
use apex_vnext.Kernel.Objects.{
  Bytes, ObjectDisk, ObjectError, root_symlink, not_regular, invalid_identifier, no_json, is_hash,
  get_bytes, put_bytes,
}

-- `dependencies` are the own properties of the object of that name.
pub record ContentCacheInput : Type 0 where
  pub dependencies : Fields
  pub config : Json
  pub toolchain : Json

pub record CacheEntry : Type 0 where
  pub object_hash : Text
  pub dependencies : List Text

-- What lies under the name of an entry: `malformed` is no JSON, `no_file` no regular file.
pub data EntryFile : Type 0 where
  entry : CacheEntry → EntryFile
  malformed no_file : EntryFile

pub record CacheDisk : Type 0 where
  pub root_is_link : Bool
  pub entries : List (Text × EntryFile)
  pub objects : ObjectDisk

-- `Object.keys(...)`; `sort_names` is the sorting of names.
unfoldable pub names_of : Fields → List Text
names_of end = []
names_of (field k v fields) = k ∷ names_of fields

refuse_no_file : Option EntryFile → Result ObjectError Unit
refuse_no_file (some no_file) = err not_regular
refuse_no_file _ = ok tt

-- `entryPath`: the checks on the path of an entry.
unfoldable pub check_entry : CacheDisk → Text → Result ObjectError Unit
unfolding refuse_no_file
check_entry c key = do
  refuse (not (is_hash key)) invalid_identifier
  refuse c.root_is_link root_symlink
  refuse_no_file (get c.entries key)

-- What the cache calls: the digests, `JSON.parse` of the bytes of an object, the UTF-8 bytes of a
-- text, and the sorting of names.
pub record CacheHost : Type 0 where
  pub digest : Json → Text
  pub sha256_bytes : Bytes → Text
  pub parse : Bytes → Option Json
  pub encode : Text → Bytes
  pub sort_names : List Text → List Text

module _ (host : CacheHost) where
  open host use {digest, sha256_bytes, parse, encode, sort_names}

  unfoldable pub content_cache_key : ContentCacheInput → Text
  content_cache_key input = digest (
      obj (
        field (units "dependencies") (obj input.dependencies)
          (field (units "config") input.config (field (units "toolchain") input.toolchain end))))

  unfoldable pub parsed : Option Json → Result ObjectError Json
  parsed none = err no_json
  parsed (some v) = ok v

  unfoldable pub get_json : ObjectDisk → Text → Result ObjectError Json
  unfolding parsed
  get_json d hash = get_bytes sha256_bytes d hash >>= λ bytes. parsed (parse bytes)

  -- `putJson`.
  unfoldable pub put_json : Json → ObjectDisk → Result ObjectError Text × ObjectDisk
  put_json v d = put_bytes sha256_bytes (encode (canonical_json v)) d

  unfoldable pub read_entry : Option EntryFile → ObjectDisk → Result ObjectError (Option Json)
  read_entry none d = ok none
  read_entry (some (entry e)) d = get_json d e.object_hash >>= λ v. ok (some v)
  read_entry (some malformed) d = err no_json
  read_entry (some no_file) d = err not_regular

  unfoldable pub cache_get : ContentCacheInput → CacheDisk → Result ObjectError (Option Json)
  unfolding read_entry
  cache_get input c = do
    check_entry c (content_cache_key input)
    read_entry (get c.entries (content_cache_key input)) c.objects

  unfoldable pub write_entry :
      ContentCacheInput → Text → CacheDisk → Result ObjectError Text × CacheDisk
  write_entry input object_hash c = elim (check_entry c (content_cache_key input)) [
    | err e ↦ (err e, c)
    | ok _ ↦ (
      ok (content_cache_key input),
      record c {
        entries = put c.entries (content_cache_key input) (
            entry (record {
              object_hash = object_hash;
              dependencies = sort_names (names_of input.dependencies);
            }));
      },
    )
  ]

  unfoldable pub after_put :
      ContentCacheInput
      → CacheDisk
      → Result ObjectError Text × ObjectDisk
      → Result ObjectError Text × CacheDisk
  unfolding write_entry
  after_put input c (err e, d) = (err e, record c { objects = d })
  after_put input c (ok hash, d) = write_entry input hash (record c { objects = d })

  unfoldable pub cache_set :
      ContentCacheInput → Json → CacheDisk → Result ObjectError Text × CacheDisk
  unfolding after_put
  cache_set input v c = after_put input c (put_json v c.objects)

-- The entries that an invalidation removes; `none` removes all.
unfoldable pub is_affected : Option Text → CacheEntry → Bool
is_affected none e = true
is_affected (some dependency) e = includes dependency e.dependencies

unfoldable pub counted : Bool → Result ObjectError ℕ → Result ObjectError ℕ
counted true (ok n) = ok (suc n)
counted _ r = r

-- One file: an invalidation stops at a file that it cannot read, and leaves the rest.
unfoldable pub sweep_file :
    Option Text
    → Text
    → EntryFile
    → List (Text × EntryFile)
    → Result ObjectError ℕ × List (Text × EntryFile)
    → Result ObjectError ℕ × List (Text × EntryFile)
unfolding counted
sweep_file dependency k malformed rest (r, kept) = (err no_json, (k, malformed) ∷ rest)
sweep_file dependency k no_file rest (r, kept) = (err not_regular, (k, no_file) ∷ rest)
sweep_file dependency k (entry e) rest (r, kept) = (
  counted (is_affected dependency e) r,
  (if is_affected dependency e then kept else (k, entry e) ∷ kept),
)

-- A name that is no entry's is passed over.
unfoldable pub sweep :
    Option Text → List (Text × EntryFile) → Result ObjectError ℕ × List (Text × EntryFile)
unfolding sweep_file
sweep dependency [] = (ok 0, [])
sweep dependency ((k, f) ∷ files) =
    let (r, kept) = sweep dependency files in
    if is_hash k then sweep_file dependency k f files (r, kept) else (r, (k, f) ∷ kept)

-- `invalidate`.
unfoldable pub invalidate : Option Text → CacheDisk → Result ObjectError ℕ × CacheDisk
invalidate dependency c =
    let (r, kept) = sweep dependency c.entries in
    if c.root_is_link then (err root_symlink, c) else (r, record c { entries = kept })
