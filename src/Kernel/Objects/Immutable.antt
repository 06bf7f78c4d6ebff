-- ===== src/Kernel/Objects/Immutable.antt =====
-- Objects of packages/kernel/src/object-store.ts are what their digest says, and stay.
use apex_vnext.Common.{
  ◌≡◌, refl, sym, ◌∙◌, ap, Option, none, some, ok, ◌==◌, nat_Eq, ◌≢◌, ◌>>=◌, >>=-eq-ok, arith,
  Option-cases, Result-cases, Bool-cases, inl, inr, ◌⊎◌, subst, ne_of_beq,
}
use apex_vnext.Common.Assoc.{get, put, get-put}
use apex_vnext.Kernel.Canonical.{Text, text_Eq, text_eq_iff}
use apex_vnext.Kernel.Objects.{
  Bytes, ObjectNode, file, ObjectDisk, check_path, get_bytes, put_bytes, read_node, write_once,
  stored_bytes, refuse_other,
}

module _ (sha256_bytes : Bytes → Text) where
  -- Bytes that are read under an identifier have it as their digest, whatever lies on disk.
  pub get_bytes-verified :
      (d : ObjectDisk) (hash : Text) (bytes : Bytes)
      → get_bytes sha256_bytes d hash ≡ ok bytes
      → sha256_bytes bytes ≡ hash
  unfolding get_bytes
  get_bytes-verified d hash bytes h =
      let (u, checked, rest) = >>=-eq-ok (check_path d hash) _ h in
      let (found, read, rest') = >>=-eq-ok (read_node (get d.nodes hash)) _ rest in
      ground (arith, text_eq_iff (sha256_bytes found) hash)

  put_new :
      (d : ObjectDisk) (bytes : Bytes)
      → check_path d (sha256_bytes bytes) ≡ ok tt
      → get d.nodes (sha256_bytes bytes) ≡ none
      → put_bytes sha256_bytes bytes d ≡ (
        ok (sha256_bytes bytes),
        record d { nodes = put d.nodes (sha256_bytes bytes) (file bytes) },
      )
  unfolding put_bytes write_once stored_bytes get_bytes check_path refuse_other read_node
  put_new d bytes checked fresh = ground (
    arith,
    get-put d.nodes (sha256_bytes bytes) (file bytes) (sha256_bytes bytes),
    text_eq_iff (sha256_bytes bytes) (sha256_bytes bytes),
    text_eq_iff bytes bytes,
  )

  put_old :
      (d : ObjectDisk) (bytes : Bytes) (node : ObjectNode)
      → check_path d (sha256_bytes bytes) ≡ ok tt
      → get d.nodes (sha256_bytes bytes) ≡ some node
      → put_bytes sha256_bytes bytes d ≡ (
        get_bytes sha256_bytes d (sha256_bytes bytes)
            >>= stored_bytes sha256_bytes (sha256_bytes bytes) bytes,
        d,
      )
  unfolding put_bytes write_once
  put_old d bytes node checked there = ground arith

  stored_bytes-ok :
      (hash bytes found got : Bytes)
      → stored_bytes sha256_bytes hash bytes found ≡ ok got
      → (found ≡ bytes) × (got ≡ hash)
  unfolding stored_bytes
  stored_bytes-ok hash bytes found got h = ground (arith, text_eq_iff found bytes)

  record PutAt (d d' : ObjectDisk) (bytes : Bytes) : Type 0 where
    readable : get_bytes sha256_bytes d' (sha256_bytes bytes) ≡ ok bytes
    kept : (d' ≡ d) ⊎ (d' ≡ record d { nodes = put d.nodes (sha256_bytes bytes) (file bytes) })

  get-new :
      (d : ObjectDisk) (bytes : Bytes)
      → check_path d (sha256_bytes bytes) ≡ ok tt
      → get d.nodes (sha256_bytes bytes) ≡ none
      → get_bytes sha256_bytes
          (record d { nodes = put d.nodes (sha256_bytes bytes) (file bytes) })
          (sha256_bytes bytes)
        ≡ ok bytes
  unfolding get_bytes check_path refuse_other read_node
  get-new d bytes checked fresh = ground (
    arith,
    get-put d.nodes (sha256_bytes bytes) (file bytes) (sha256_bytes bytes),
    text_eq_iff (sha256_bytes bytes) (sha256_bytes bytes),
  )

  put_bytes-checked :
      (d d' : ObjectDisk) (bytes : Bytes) (hash : Text)
      → put_bytes sha256_bytes bytes d ≡ (ok hash, d')
      → check_path d (sha256_bytes bytes) ≡ ok tt
  unfolding put_bytes
  put_bytes-checked d d' bytes hash h = elim (Result-cases (check_path d (sha256_bytes bytes))) [
    | inl (u, e) ↦ e
    | inr (x, e) ↦ absurd (ground arith)
  ]

  put_bytes-PutAt :
      (d d' : ObjectDisk) (bytes : Bytes) (hash : Text)
      → put_bytes sha256_bytes bytes d ≡ (ok hash, d')
      → (hash ≡ sha256_bytes bytes) × PutAt d d' bytes
  put_bytes-PutAt d d' bytes hash h = elim (Option-cases (get d.nodes (sha256_bytes bytes))) [
    | inl fresh ↦
        let done = put_new d bytes checked fresh in
        (
          ground arith,
          record {
            readable =
                subst (λ x. get_bytes sha256_bytes x (sha256_bytes bytes) ≡ ok bytes)
                  (ap (λ x. x.1) (sym done ∙ h)) (get-new d bytes checked fresh);
            kept = inr (ap (λ x. x.1) (sym h ∙ done));
          },
        )
    | inr (node, there) ↦
        let done = put_old d bytes node checked there in
        let (found, read, same) =
          >>=-eq-ok (get_bytes sha256_bytes d (sha256_bytes bytes)) _
            (ap (λ x. x.0) (sym done ∙ h)) in
        let (is_bytes, is_hash) = stored_bytes-ok (sha256_bytes bytes) bytes found hash same in
        let left : d' ≡ d = ap (λ x. x.1) (sym h ∙ done) in
        (
          is_hash,
          record {
            readable =
                ap (λ x. get_bytes sha256_bytes x (sha256_bytes bytes)) left
                ∙ read
                ∙ ap ok is_bytes;
            kept = inl left;
          },
        )
  ]
    where
      checked : check_path d (sha256_bytes bytes) ≡ ok tt
      checked = put_bytes-checked d d' bytes hash h

  get-other :
      (d : ObjectDisk) (hash other_hash : Text) (bytes : Bytes)
      → other_hash ≢ hash
      → get_bytes sha256_bytes (record d { nodes = put d.nodes hash (file bytes) }) other_hash
        ≡ get_bytes sha256_bytes d other_hash
  unfolding get_bytes check_path
  get-other d hash other_hash bytes apart =
      ground (arith, get-put d.nodes hash (file bytes) other_hash, text_eq_iff hash other_hash)

  read_node-ok :
      (o : Option ObjectNode) (bytes : Bytes)
      → read_node o ≡ ok bytes
      → (node : ObjectNode) × (o ≡ some node)
  unfolding read_node
  read_node-ok none bytes h = cc
  read_node-ok (some node) bytes h = (node, refl)

  put_again :
      (d : ObjectDisk) (bytes : Bytes)
      → get_bytes sha256_bytes d (sha256_bytes bytes) ≡ ok bytes
      → put_bytes sha256_bytes bytes d ≡ (ok (sha256_bytes bytes), d)
  unfolding get_bytes stored_bytes
  put_again d bytes h =
      let (u, checked, rest) = >>=-eq-ok (check_path d (sha256_bytes bytes)) _ h in
      let (found, read, rest') = >>=-eq-ok (read_node (get d.nodes (sha256_bytes bytes))) _ rest in
      let (node, there) = read_node-ok (get d.nodes (sha256_bytes bytes)) found read in
      put_old d bytes node checked there
      ∙ ap (λ r. (r >>= stored_bytes sha256_bytes (sha256_bytes bytes) bytes, d)) h
      ∙ ground (arith, text_eq_iff bytes bytes)

  pub put_bytes-readable :
      (d d' : ObjectDisk) (bytes : Bytes) (hash : Text)
      → put_bytes sha256_bytes bytes d ≡ (ok hash, d')
      → get_bytes sha256_bytes d' hash ≡ ok bytes
  put_bytes-readable d d' bytes hash h =
      let (is_hash, at) = put_bytes-PutAt d d' bytes hash h in
      ap (get_bytes sha256_bytes d') is_hash ∙ at.readable

  -- After bytes were put, they are read back under the identifier that was returned, which is their
  -- digest; under any other identifier the same is read as before, errors included; and putting them
  -- again changes nothing.
  put_then_get :
      (d d' : ObjectDisk) (bytes : Bytes) (hash other_hash : Text)
      → put_bytes sha256_bytes bytes d ≡ (ok hash, d')
      → other_hash ≢ hash
      → (hash ≡ sha256_bytes bytes)
        × (get_bytes sha256_bytes d' hash ≡ ok bytes)
        × (get_bytes sha256_bytes d' other_hash ≡ get_bytes sha256_bytes d other_hash)
        × (put_bytes sha256_bytes bytes d' ≡ (ok hash, d'))
  put_then_get d d' bytes hash other_hash h apart = (
    is_hash,
    ap (get_bytes sha256_bytes d') is_hash ∙ at.readable,
    elim at.kept [
      | inl same ↦ ap (λ x. get_bytes sha256_bytes x other_hash) same
      | inr new ↦
          ap (λ x. get_bytes sha256_bytes x other_hash) new
          ∙ get-other d (sha256_bytes bytes) other_hash bytes (λ e. apart (e ∙ sym is_hash))
    ],
    put_again d' bytes at.readable ∙ ap (λ x. (ok x, d')) (sym is_hash),
  )
    where
      is_hash : hash ≡ sha256_bytes bytes
      is_hash = (put_bytes-PutAt d d' bytes hash h).0

      at : PutAt d d' bytes
      at = (put_bytes-PutAt d d' bytes hash h).1

  -- An object that can be read is read the same after any put.
  pub readable_stays :
      (d d' : ObjectDisk) (bytes found : Bytes) (hash readable_hash : Text)
      → put_bytes sha256_bytes bytes d ≡ (ok hash, d')
      → get_bytes sha256_bytes d readable_hash ≡ ok found
      → get_bytes sha256_bytes d' readable_hash ≡ ok found
  unfolding get_bytes
  readable_stays d d' bytes found hash readable_hash h readable =
      elim (Bool-cases (readable_hash == sha256_bytes bytes)) [
        | inl same ↦
            let e = (text_eq_iff readable_hash (sha256_bytes bytes)).0 same in
            let (u, checked, rest) = >>=-eq-ok (check_path d readable_hash) _ readable in
            let (b, read, rest') = >>=-eq-ok (read_node (get d.nodes readable_hash)) _ rest in
            let (node, there) = read_node-ok (get d.nodes readable_hash) b read in
            let left =
              put_old d bytes node (put_bytes-checked d d' bytes hash h)
                (ap (get d.nodes) (sym e) ∙ there) in
            subst (λ x. get_bytes sha256_bytes x readable_hash ≡ ok found)
              (ap (λ x. x.1) (sym left ∙ h)) readable
        | inr apart ↦
            let (is_hash, at) = put_bytes-PutAt d d' bytes hash h in
            elim at.kept [
              | inl same ↦ ap (λ x. get_bytes sha256_bytes x readable_hash) same ∙ readable
              | inr new ↦
                  ap (λ x. get_bytes sha256_bytes x readable_hash) new
                  ∙ get-other d (sha256_bytes bytes) readable_hash bytes
                      (ne_of_beq readable_hash (sha256_bytes bytes) apart)
                  ∙ readable
            ]
      ]
