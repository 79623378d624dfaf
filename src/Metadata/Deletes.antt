-- ===== src/Metadata/Deletes.antt =====
-- What the deletions of internal/metadata/store.go remove, and what they leave.
use cipher_lake.Prelude.{
  Bool, true, false, Option, none, some, List, [], ◌∷◌, ◌++◌, ◌&&◌, Str, bytes, str_eq, str_eq_iff,
  has_prefix, any, is_nil, if◌then◌else◌, ◌≡◌, refl, arith, ap, sym, subst, ◌∙◌, Bool-cases, inl,
  inr,
}
use cipher_lake.Loader.Bolt.{Bolt}
use cipher_lake.Loader.Deletion.{
  delete_all, keys_where, passing, any-passing, get-delete_prefix, get-delete_where,
}
use cipher_lake.Metadata.{
  ObjectRecord, object_key, Store, bucket_prefix, is_under, is_session_of, with_id, ids_at,
  delete_parts, delete_bucket,
}
use cipher_lake.Gateway.Multipart.{UploadPart, MultipartUpload}
use cipher_lake.Metadata.Object.{get_object, delete_object}

module _ (bolt : Bolt) where
  -- What is left of an object that was there.
  abbrev pub IsDeleted : Store bolt → Str → Str → Store bolt → Type 0
  IsDeleted s bucket key after =
      (k : Str)
      → (bolt.get k after.objects
          ≡ (if str_eq (object_key bucket key) k then none else bolt.get k s.objects))
        × (bolt.get k after.object_versions ≡ (
            if has_prefix k (object_key bucket key ++ bytes "/")
            then none
            else bolt.get k s.object_versions))

  -- The deletion of an object that is there removes its record and no other, and all versions whose keys start
  -- with the object's key and a slash: its own, and those of every object whose key goes on with a slash.
  pub delete_object_removes :
      (s : Store bolt) (bucket key : Str) (o : ObjectRecord)
      → get_object bolt s bucket key ≡ some o
      → IsDeleted s bucket key (delete_object bolt s bucket key)
  unfolding delete_object
  delete_object_removes s bucket key o e k = rw e (
    bolt.get-delete (object_key bucket key) k s.objects,
    get-delete_prefix bolt (object_key bucket key ++ bytes "/") k s.object_versions,
  )

  -- A part's key that starts with the id of an upload under the bucket, and a slash.
  abbrev pub IsPartOf : Store bolt → Str → Str → Type 0
  IsPartOf s bucket k =
      (u : Str) × (upload : MultipartUpload) × (bolt.get u s.uploads ≡ some upload)
      × (has_prefix u (bucket ++ bytes "/") ≡ true)
      × (is_nil upload.upload_id ≡ false)
      × (has_prefix k (upload.upload_id ++ bytes "/") ≡ true)

  abbrev starts_with : Str → Str → Bool
  starts_with k id = has_prefix k (id ++ bytes "/")

  get-delete_parts :
      (ids : List Str) (k : Str) (b : bolt.Bucket UploadPart)
      → bolt.get k (delete_parts bolt ids b)
        ≡ (if any (starts_with k) ids then none else bolt.get k b)
  get-delete_parts [] k b = refl
  get-delete_parts (id ∷ ids) k b =
      let prefix = id ++ bytes "/" in
      ground (
        arith,
        get-delete_parts ids k (delete_all bolt (bolt.seek_prefix prefix b) b),
        get-delete_prefix bolt prefix k b,
      )

  -- What is known of an id that was collected from these keys.
  abbrev IsCollected : bolt.Bucket MultipartUpload → List Str → Str → Type 0
  IsCollected b ks k =
      (u : Str) × (upload : MultipartUpload) × (any (str_eq u) ks ≡ true)
      × (bolt.get u b ≡ some upload)
      × (is_nil upload.upload_id ≡ false)
      × (starts_with k upload.upload_id ≡ true)

  further :
      (b : bolt.Bucket MultipartUpload) (j : Str) (ks : List Str) (k : Str)
      → IsCollected b ks k
      → IsCollected b (j ∷ ks) k
  further b j ks k (u, upload, here, there, named, starts) =
      (u, upload, ground (arith, here), there, named, starts)

  with_id-IsCollected :
      (b : bolt.Bucket MultipartUpload) (j : Str) (ks : List Str) (k : Str)
      (found : Option MultipartUpload)
      → bolt.get j b ≡ found
      → (any (starts_with k) (ids_at bolt b ks) ≡ true → IsCollected b ks k)
      → any (starts_with k) (with_id bolt found (ids_at bolt b ks)) ≡ true
      → IsCollected b (j ∷ ks) k
  with_id-IsCollected b j ks k none e rest f = further b j ks k (rest f)
  with_id-IsCollected b j ks k (some upload) e rest f =
      elim (Bool-cases (is_nil upload.upload_id)) [
        | inl nil ↦ further b j ks k (rest (ground (arith, f, nil)))
        | inr named ↦ elim (Bool-cases (starts_with k upload.upload_id)) [
          | inl starts ↦
              let same = (str_eq_iff j j).1 refl in
              (j, upload, ground (arith, same), e, named, starts)
          | inr other ↦ further b j ks k (rest (ground (arith, f, named, other)))
        ]
      ]

  ids_at-IsCollected :
      (b : bolt.Bucket MultipartUpload) (ks : List Str) (k : Str)
      → any (starts_with k) (ids_at bolt b ks) ≡ true
      → IsCollected b ks k
  ids_at-IsCollected b [] k h = absurd (ground (arith, h))
  ids_at-IsCollected b (j ∷ ks) k h =
      with_id-IsCollected b j ks k (bolt.get j b) refl (ids_at-IsCollected b ks k) h

  any-with_id :
      (k : Str) (found : Option MultipartUpload) (ids : List Str)
      → any (starts_with k) ids ≡ true
      → any (starts_with k) (with_id bolt found ids) ≡ true
  any-with_id k none ids h = h
  any-with_id k (some up) ids h = ground (arith, h)

  collected :
      (b : bolt.Bucket MultipartUpload) (ks : List Str) (k u : Str) (upload : MultipartUpload)
      → any (str_eq u) ks ≡ true
      → bolt.get u b ≡ some upload
      → is_nil upload.upload_id ≡ false
      → starts_with k upload.upload_id ≡ true
      → any (starts_with k) (ids_at bolt b ks) ≡ true
  collected b [] k u upload here there named starts = absurd (ground (arith, here))
  collected b (j ∷ ks) k u upload here there named starts = elim (Bool-cases (str_eq u j)) [
    | inl same ↦
        let at : bolt.get j b ≡ some upload =
          ap (λ i. bolt.get i b) (sym ((str_eq_iff u j).0 same)) ∙ there in
        subst (λ o. any (starts_with k) (with_id bolt o (ids_at bolt b ks)) ≡ true) (sym at)
          (ground (arith, named, starts))
    | inr other ↦
        any-with_id k (bolt.get j b) (ids_at bolt b ks)
          (collected b ks k u upload (ground (arith, here, other)) there named starts)
  ]

  parts_removed :
      (s : Store bolt) (bucket k : Str)
      → (IsPartOf s bucket k → bolt.get k (delete_bucket bolt s bucket).upload_parts ≡ none)
        × (¬ IsPartOf s bucket k
            → bolt.get k (delete_bucket bolt s bucket).upload_parts ≡ bolt.get k s.upload_parts)
  unfolding delete_bucket keys_where has_prefix
  parts_removed s bucket k =
      let keys = passing bolt (is_under bolt bucket) s.uploads (bolt.seek_prefix [] s.uploads) in
      let all = get-delete_parts (ids_at bolt s.uploads keys) k s.upload_parts in
      let among : (u : Str)
          → any (str_eq u) keys ≡ (
              has_prefix u (bucket ++ bytes "/")
              && any (str_eq u) (bolt.seek_prefix [] s.uploads)) =
        λ u. any-passing bolt (is_under bolt bucket) s.uploads u (bolt.seek_prefix [] s.uploads) in
      (
        λ (u, upload, there, under, named, starts).
            let found = bolt.seek_finds [] u s.uploads upload there refl in
            let here : any (str_eq u) keys ≡ true = ground (arith, among u, under, found) in
            all ∙ rw (collected s.uploads keys k u upload here there named starts) refl,
        λ none_. elim (Bool-cases (any (starts_with k) (ids_at bolt s.uploads keys))) [
          | inr other ↦ all ∙ rw other refl
          | inl some_id ↦
              let (u, upload, here, there, named, starts) =
                ids_at-IsCollected s.uploads keys k some_id in
              absurd (none_ (u, upload, there, ground (arith, among u, here), named, starts))
        ],
      )

  -- The deletion of a bucket, whether or not it has a record, for every key: the bucket's record, the objects, versions
  -- and uploads under the bucket, the parts under the id of an upload under the bucket, and the sessions of the bucket
  -- are gone, and all other records of these kinds are as before. The entries of the object index all stay, also
  -- those under the bucket.
  pub delete_bucket_removes :
      (s : Store bolt) (bucket k : Str)
      → let after = delete_bucket bolt s bucket in
        (bolt.get k after.buckets ≡ (if str_eq bucket k then none else bolt.get k s.buckets))
        × (bolt.get k after.objects
            ≡ (if has_prefix k (bucket_prefix bolt bucket) then none else bolt.get k s.objects))
        × (bolt.get k after.object_versions ≡ (
            if has_prefix k (bucket_prefix bolt bucket)
            then none
            else bolt.get k s.object_versions))
        × (bolt.get k after.uploads
            ≡ (if has_prefix k (bucket_prefix bolt bucket) then none else bolt.get k s.uploads))
        × (bolt.get k after.resumable_uploads ≡ (
            if is_session_of bolt bucket k (bolt.get k s.resumable_uploads)
            then none
            else bolt.get k s.resumable_uploads))
        × (IsPartOf s bucket k → bolt.get k after.upload_parts ≡ none)
        × (¬ IsPartOf s bucket k → bolt.get k after.upload_parts ≡ bolt.get k s.upload_parts)
        × (bolt.get k after.object_index ≡ bolt.get k s.object_index)
  unfolding delete_bucket
  delete_bucket_removes s bucket k = (
    bolt.get-delete bucket k s.buckets,
    get-delete_where bolt (is_under bolt bucket) k s.objects,
    get-delete_where bolt (is_under bolt bucket) k s.object_versions,
    get-delete_where bolt (is_under bolt bucket) k s.uploads,
    get-delete_where bolt (is_session_of bolt bucket) k s.resumable_uploads,
    (parts_removed s bucket k).0,
    (parts_removed s bucket k).1,
    refl,
  )
