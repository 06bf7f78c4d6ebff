-- ===== src/Kernel/Objects/Cache/Laws.antt =====
-- What packages/kernel/src/content-cache.ts returns after a value was set, and after an invalidation.
use apex_vnext.Common.{
  ◌≡◌, refl, sym, ◌∙◌, ap, Option, none, some, Result, ok, err, nat_Eq, ◌≢◌, >>=-eq-ok, arith,
  Result-cases, inl, inr, subst,
}
use apex_vnext.Common.Assoc.{get, put, get-put}
use apex_vnext.Kernel.Canonical.{Text, Json, text_Eq, text_eq_iff, canonical_json}
use apex_vnext.Kernel.Objects.{Bytes, ObjectDisk, ObjectError, get_bytes, put_bytes}
use apex_vnext.Kernel.Objects.Immutable.{put_bytes-readable, readable_stays}
use apex_vnext.Kernel.Objects.Cache.{
  ContentCacheInput, CacheEntry, EntryFile, entry, malformed, no_file, CacheDisk, names_of,
  check_entry, CacheHost, content_cache_key, get_json, put_json, read_entry, cache_get, write_entry,
  after_put, cache_set, parsed, refuse_no_file,
}

module _ (host : CacheHost) where
  open host use {sha256_bytes, parse, encode, sort_names}

  new_entry : ContentCacheInput → Text → EntryFile
  new_entry input hash =
      entry (record { object_hash = hash; dependencies = sort_names (names_of input.dependencies) })

  -- The state after a value was set.
  record SetAt (input : ContentCacheInput) (v : Json) (c c' : CacheDisk) (key : Text) : Type 0 where
    hash : Text
    objects : ObjectDisk
    is_key : key ≡ content_cache_key host input
    put_done : put_bytes sha256_bytes (encode (canonical_json v)) c.objects ≡ (ok hash, objects)
    checked : check_entry c key ≡ ok tt
    left : c' ≡ record c { entries = put c.entries key (new_entry input hash); objects = objects }

  write_entry-ok :
      (input : ContentCacheInput) (hash : Text) (c c' : CacheDisk) (key : Text)
      → write_entry host input hash c ≡ (ok key, c')
      → (key ≡ content_cache_key host input)
        × (check_entry c key ≡ ok tt)
        × (c' ≡ record c { entries = put c.entries key (new_entry input hash) })
  unfolding write_entry new_entry
  write_entry-ok input hash c c' key h =
      elim (Result-cases (check_entry c (content_cache_key host input))) [
        | inl (u, e) ↦
            let same : key ≡ content_cache_key host input = ground arith in
            (same, ap (check_entry c) same ∙ e, ground arith)
        | inr (x, e) ↦ absurd (ground arith)
      ]

  cache_set-SetAt :
      (input : ContentCacheInput) (v : Json) (c c' : CacheDisk) (key : Text)
      → cache_set host input v c ≡ (ok key, c')
      → SetAt input v c c' key
  unfolding cache_set put_json after_put check_entry
  cache_set-SetAt input v c c' key h =
      go (put_bytes sha256_bytes (encode (canonical_json v)) c.objects) refl h
    where
      go :
          (x : Result ObjectError Text × ObjectDisk)
          → put_bytes sha256_bytes (encode (canonical_json v)) c.objects ≡ x
          → after_put host input c x ≡ (ok key, c')
          → SetAt input v c c' key
      go (err e, d) at done = absurd (ground arith)
      go (ok hash, d) at done =
          let (same, checked, left) =
            write_entry-ok input hash (record c { objects = d }) c' key done in
          record {
            hash = hash;
            objects = d;
            is_key = same;
            put_done = at;
            checked = checked;
            left = left;
          }

  get_json-ok :
      (d : ObjectDisk) (hash : Text) (bytes : Bytes) (w : Json)
      → get_bytes sha256_bytes d hash ≡ ok bytes
      → parse bytes ≡ some w
      → get_json host d hash ≡ ok w
  unfolding get_json parsed
  get_json-ok d hash bytes w read is_json = ground arith

  -- A hit: the entry is there and its object can be read.
  cache_get-hit :
      (input : ContentCacheInput) (c : CacheDisk) (e : CacheEntry) (w : Json)
      → check_entry c (content_cache_key host input) ≡ ok tt
      → get c.entries (content_cache_key host input) ≡ some (entry e)
      → get_json host c.objects e.object_hash ≡ ok w
      → cache_get host input c ≡ ok (some w)
  unfolding cache_get read_entry
  cache_get-hit input c e w checked there read = ground arith

  check_entry-put :
      (c : CacheDisk) (d : ObjectDisk) (key other : Text) (e : CacheEntry)
      → check_entry c other ≡ ok tt
      → check_entry (record c { entries = put c.entries key (entry e); objects = d }) other ≡ ok tt
  unfolding check_entry refuse_no_file
  check_entry-put c d key other e h =
      ground (arith, get-put c.entries key (entry e) other, text_eq_iff key other)

  parsed-ok : (o : Option Json) (w : Json) → parsed host o ≡ ok w → o ≡ some w
  unfolding parsed
  parsed-ok none w h = cc
  parsed-ok (some v) w h = ground arith

  record Hit (input : ContentCacheInput) (c : CacheDisk) (w : Json) : Type 0 where
    found : CacheEntry
    bytes : Bytes
    checked : check_entry c (content_cache_key host input) ≡ ok tt
    there : get c.entries (content_cache_key host input) ≡ some (entry found)
    read : get_bytes sha256_bytes c.objects found.object_hash ≡ ok bytes
    is_json : parse bytes ≡ some w

  read_entry-Hit :
      (input : ContentCacheInput) (c : CacheDisk) (w : Json) (f : Option EntryFile)
      → check_entry c (content_cache_key host input) ≡ ok tt
      → get c.entries (content_cache_key host input) ≡ f
      → read_entry host f c.objects ≡ ok (some w)
      → Hit input c w
  unfolding read_entry get_json
  read_entry-Hit input c w none checked at h = absurd (ground arith)
  read_entry-Hit input c w (some malformed) checked at h = absurd (ground arith)
  read_entry-Hit input c w (some no_file) checked at h = absurd (ground arith)
  read_entry-Hit input c w (some (entry e)) checked at h =
      let (v, json, same) = >>=-eq-ok (get_json host c.objects e.object_hash) _ h in
      let (bytes, read, rest) = >>=-eq-ok (get_bytes sha256_bytes c.objects e.object_hash) _ json in
      let v_w : v ≡ w = ground arith in
      record {
        found = e;
        bytes = bytes;
        checked = checked;
        there = at;
        read = read;
        is_json = parsed-ok (parse bytes) v rest ∙ ap some v_w;
      }

  cache_get-Hit :
      (input : ContentCacheInput) (c : CacheDisk) (w : Json)
      → cache_get host input c ≡ ok (some w)
      → Hit input c w
  unfolding cache_get
  cache_get-Hit input c w h =
      let (u, checked, rest) = >>=-eq-ok (check_entry c (content_cache_key host input)) _ h in
      read_entry-Hit input c w _ checked refl rest

  abbrev written : (input : ContentCacheInput) → Text → CacheEntry
  written input hash = record {
    object_hash = hash;
    dependencies = sort_names (names_of input.dependencies);
  }

  -- A value that was set is what the cache returns for the same input, whatever the cache held before,
  -- if the parser reads the canonical text back as that value; the key of the set is the one of the
  -- input.
  pub set_then_get :
      (input : ContentCacheInput) (v w : Json) (c c' : CacheDisk) (key : Text)
      → parse (encode (canonical_json v)) ≡ some w
      → cache_set host input v c ≡ (ok key, c')
      → (key ≡ content_cache_key host input) × (cache_get host input c' ≡ ok (some w))
  unfolding new_entry
  set_then_get input v w c c' key is_json h =
      let s = cache_set-SetAt input v c c' key h in
      let e = written input s.hash in
      let next : CacheDisk = record c {
        entries = put c.entries key (entry e);
        objects = s.objects;
      } in
      (
        s.is_key,
        subst (λ d. cache_get host input d ≡ ok (some w)) (sym s.left)
            (cache_get-hit input next e w
              (subst (λ k. check_entry next k ≡ ok tt) s.is_key
                (check_entry-put c s.objects key key e s.checked))
              (subst (λ k. get next.entries k ≡ some (entry e)) s.is_key
                (ground (arith, get-put c.entries key (entry e) key, text_eq_iff key key)))
              (get_json-ok s.objects s.hash _ w
                (put_bytes-readable sha256_bytes c.objects s.objects _ s.hash s.put_done) is_json)),
      )

  -- After a set, an input with another key that hit before hits the same value still.
  set_keeps :
      (input other : ContentCacheInput) (v x : Json) (c c' : CacheDisk) (key : Text)
      → cache_set host input v c ≡ (ok key, c')
      → content_cache_key host other ≢ key
      → cache_get host other c ≡ ok (some x)
      → cache_get host other c' ≡ ok (some x)
  unfolding new_entry
  set_keeps input other v x c c' key h apart hit =
      let s = cache_set-SetAt input v c c' key h in
      let o = cache_get-Hit other c x hit in
      let e = written input s.hash in
      let next : CacheDisk = record c {
        entries = put c.entries key (entry e);
        objects = s.objects;
      } in
      subst (λ d. cache_get host other d ≡ ok (some x)) (sym s.left)
        (cache_get-hit other next o.found x
          (check_entry-put c s.objects key (content_cache_key host other) e o.checked)
          (ground (
            arith,
            o.there,
            get-put c.entries key (entry e) (content_cache_key host other),
            text_eq_iff key (content_cache_key host other),
          ))
          (get_json-ok s.objects o.found.object_hash o.bytes x
            (readable_stays sha256_bytes c.objects s.objects _ o.bytes s.hash o.found.object_hash
              s.put_done o.read)
            o.is_json))
