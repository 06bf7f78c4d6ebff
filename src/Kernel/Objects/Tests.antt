-- ===== src/Kernel/Objects/Tests.antt =====
-- The object store and the content cache at concrete inputs.
use apex_vnext.Common.{ℕ, zero, suc, ◌≡◌, refl, false, [], ◌∷◌, Option, some, ok, err}
use apex_vnext.Common.Assoc.{get, put}
use apex_vnext.Kernel.Canonical.{Text, Json, null, obj, end, field, units, canonical_json, text_Eq}
use apex_vnext.Kernel.Objects.{
  Bytes, file, ObjectDisk, hash_mismatch, get_bytes, put_bytes, check_path, is_hash,
}
use apex_vnext.Kernel.Objects.Cache.{
  ContentCacheInput, CacheEntry, entry, CacheDisk, CacheHost, content_cache_key, cache_get,
  cache_set, check_entry, invalidate, sweep, sweep_file, counted, is_affected, names_of,
  write_entry, after_put, put_json, get_json, read_entry, parsed,
}
use apex_vnext.Kernel.Objects.Cache.Laws.{set_then_get}
use apex_vnext.Kernel.Objects.Cache.Invalidation.{survivor, affected_count, invalidate-exact}

abbrev repeat : ℕ → ℕ → Text
repeat zero c = []
repeat (suc n) c = c ∷ repeat n c

-- A digest that reads one unit.
abbrev sha : Bytes → Text
sha (n ∷ _) = repeat 64 n
sha [] = repeat 64 b'0'

abbrev empty_disk : ObjectDisk
empty_disk = record { root_is_link = false; redirected = []; nodes = [] }

abbrev one_object : ObjectDisk
one_object = record empty_disk { nodes = (repeat 64 b'a', file (units "a1")) ∷ [] }

put_one : put_bytes sha (units "a1") empty_disk ≡ (ok (repeat 64 b'a'), one_object)
unfolding put_bytes check_path is_hash get_bytes get put
put_one = refl

-- Other bytes under an identifier are noticed.
tampered :
    get_bytes sha
      (record empty_disk { nodes = (repeat 64 b'a', file (units "b")) ∷ [] })
      (repeat 64 b'a')
    ≡ err hash_mismatch
unfolding check_path is_hash get_bytes get
tampered = refl

abbrev parse_null : Bytes → Option Json
parse_null bytes = some null

abbrev digest : Json → Text
digest (obj (field k (obj end) rest)) = repeat 64 b'c'
digest v = repeat 64 b'd'

abbrev host : CacheHost
host = record {
  digest = digest;
  sha256_bytes = λ bytes. repeat 64 b'e';
  parse = parse_null;
  encode = λ t. t;
  sort_names = λ names. names;
}

abbrev input : ContentCacheInput
input = record { dependencies = end; config = null; toolchain = null }

abbrev other_input : ContentCacheInput
other_input = record input { dependencies = field (units "x") null end }

abbrev other_entry : CacheEntry
other_entry = record { object_hash = repeat 64 b'e'; dependencies = units "x" ∷ [] }

abbrev cache : CacheDisk
cache = record {
  root_is_link = false;
  entries = (repeat 64 b'd', entry other_entry) ∷ [];
  objects = record empty_disk { nodes = (repeat 64 b'e', file (units "null")) ∷ [] };
}

abbrev next_cache : CacheDisk
next_cache = record cache {
  entries =
      (repeat 64 b'd', entry other_entry)
      ∷ (repeat 64 b'c', entry (record { object_hash = repeat 64 b'e'; dependencies = [] }))
      ∷ [];
}

set_one : cache_set host input null cache ≡ (ok (repeat 64 b'c'), next_cache)
unfolding cache_set put_json put_bytes check_path is_hash get put get_bytes canonical_json
    check_entry content_cache_key after_put write_entry names_of
set_one = refl

other_hit : cache_get host other_input cache ≡ ok (some null)
unfolding cache_get check_entry is_hash content_cache_key get read_entry get_json get_bytes
    check_path parsed
other_hit = refl

abbrev empty_cache : CacheDisk
empty_cache = record { root_is_link = false; entries = []; objects = empty_disk }

abbrev filled_cache : CacheDisk
filled_cache = record empty_cache {
  entries =
      (repeat 64 b'c', entry (record { object_hash = repeat 64 b'e'; dependencies = [] })) ∷ [];
  objects = record empty_disk { nodes = (repeat 64 b'e', file (units "null")) ∷ [] };
}

set_first : cache_set host input null empty_cache ≡ (ok (repeat 64 b'c'), filled_cache)
unfolding cache_set put_json put_bytes check_path is_hash get put get_bytes canonical_json
    check_entry content_cache_key after_put write_entry names_of
set_first = refl

set_then_get_example :
    (repeat 64 b'c' ≡ content_cache_key host input)
    × (cache_get host input filled_cache ≡ ok (some null))
set_then_get_example =
    set_then_get host input null null empty_cache filled_cache (repeat 64 b'c') refl set_first

abbrev swept_cache : CacheDisk
swept_cache = record cache { entries = [] }

swept_one : invalidate (some (units "x")) cache ≡ (ok 1, swept_cache)
unfolding invalidate sweep is_hash sweep_file counted is_affected
swept_one = refl

invalidate-exact_example :
    (get swept_cache.entries (repeat 64 b'd')
      ≡ survivor (some (units "x")) (repeat 64 b'd') (get cache.entries (repeat 64 b'd')))
    × (1 ≡ affected_count (some (units "x")) cache.entries)
    × (swept_cache.objects ≡ cache.objects)
unfolding get
invalidate-exact_example =
    invalidate-exact (some (units "x")) cache swept_cache 1 (repeat 64 b'd') swept_one (refl, tt)
