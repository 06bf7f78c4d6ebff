-- ===== src/Kernel/Objects.antt =====
-- packages/kernel/src/object-store.ts: objects on disk under the digest of their bytes. The state is
-- what lies below the root of the store.
pub mod Immutable
pub mod Cache
mod Tests
use apex_vnext.Common.{
  ℕ, zero, suc, Bool, true, false, ◌&&◌, ◌||◌, List, [], ◌∷◌, Option, none, some, Result, ok, err,
  not, ltb, leb, ◌==◌, nat_Eq, if◌then◌else◌, refuse, ◌>>=◌, ◌>>◌, all, length, includes,
}
use apex_vnext.Common.Assoc.{get, put}
use apex_vnext.Kernel.Canonical.{Text, Json, text_Eq, canonical_json}

abbrev pub Bytes : Type 0
Bytes = List ℕ

-- What lies at the path of an object: a regular file, or a link, a directory and so on.
pub data ObjectNode : Type 0 where
  file : Bytes → ObjectNode
  other : ObjectNode

-- `root_is_link`: the root of the store is a symbolic link. `redirected` are the directories of two
-- characters below it that lead elsewhere.
pub record ObjectDisk : Type 0 where
  pub root_is_link : Bool
  pub redirected : List Text
  pub nodes : List (Text × ObjectNode)

pub data ObjectError : Type 0 where
  invalid_identifier root_symlink path_escapes not_regular : ObjectError
  not_found hash_mismatch not_immutable : ObjectError
  no_json : ObjectError

-- `/^[0-9a-f]{64}$/`.
pub is_hex : ℕ → Bool
is_hex c = (leb b'0' c && leb c b'9') || (leb b'a' c && leb c b'f')

unfoldable pub is_hash : Text → Bool
unfolding is_hex
is_hash h = length h == 64 && all is_hex h

-- `hash.slice(0, 2)`.
abbrev shard : Text → Text
shard (a ∷ b ∷ _) = a ∷ b ∷ []
shard h = h

refuse_other : Option ObjectNode → Result ObjectError Unit
refuse_other (some other) = err not_regular
refuse_other _ = ok tt

-- `pathFor`: the checks on the path of an object.
unfoldable pub check_path : ObjectDisk → Text → Result ObjectError Unit
unfolding refuse_other
check_path d hash = do
  refuse (not (is_hash hash)) invalid_identifier
  refuse d.root_is_link root_symlink
  refuse (includes (shard hash) d.redirected) path_escapes
  refuse_other (get d.nodes hash)

read_node : Option ObjectNode → Result ObjectError Bytes
read_node none = err not_found
read_node (some other) = err not_regular
read_node (some (file bytes)) = ok bytes

-- The exclusive creation of a file: an object that is there stays.
write_once : Option ObjectNode → Text → Bytes → ObjectDisk → ObjectDisk
write_once none hash bytes d = record d { nodes = put d.nodes hash (file bytes) }
write_once (some _) hash bytes d = d

module _ (sha256_bytes : Bytes → Text) where
  unfoldable pub get_bytes : ObjectDisk → Text → Result ObjectError Bytes
  unfolding read_node
  get_bytes d hash = do
    check_path d hash
    bytes ← read_node (get d.nodes hash)
    refuse (not (sha256_bytes bytes == hash)) hash_mismatch
    ok bytes

  stored_bytes : Text → Bytes → Bytes → Result ObjectError Text
  stored_bytes hash bytes found = if found == bytes then ok hash else err not_immutable

  put_checked : Text → Bytes → ObjectDisk → Result ObjectError Text × ObjectDisk
  unfolding write_once stored_bytes
  put_checked hash bytes d =
      let d' = write_once (get d.nodes hash) hash bytes d in
      (get_bytes d' hash >>= stored_bytes hash bytes, d')

  put_if :
      Text → Bytes → ObjectDisk → Result ObjectError Unit → Result ObjectError Text × ObjectDisk
  put_if hash bytes d (ok _) = put_checked hash bytes d
  put_if hash bytes d (err e) = (err e, d)

  unfoldable pub put_bytes : Bytes → ObjectDisk → Result ObjectError Text × ObjectDisk
  unfolding put_if put_checked
  put_bytes bytes d = put_if (sha256_bytes bytes) bytes d (check_path d (sha256_bytes bytes))
