-- ===== src/Gateway/Resumable/Coverage.antt =====
-- Sessions and temporary files of internal/gateway/resumable.go side by side: every session stands under its
-- own id and covers no more than its file has.
use cipher_lake.Prelude.{
  ℕ, ◌≤◌, Option, none, some, List, Str, str_eq_iff, length, insert, remove, lookup, str_key,
  lookup-insert, lookup-remove, ◌≡◌, arith,
}
use cipher_lake.Gateway.Sessions.{ResumableSession, Sessions}
use cipher_lake.Gateway.Requests.{Outside}

-- A file of at least that many bytes, if there is one.
abbrev pub IsCovering : ℕ → Option Str → Type 0
IsCovering n none = Unit
IsCovering n (some content) = n ≤ length content

module _ (env : Outside) where
  abbrev pub IsCovered : Sessions env.bolt → List (Str × Str) → Type 0
  IsCovered b files =
      (id : Str) (session : ResumableSession)
      → env.bolt.get id b ≡ some session
      → (session.upload_id ≡ id) × IsCovering session.offset (lookup id files)

  pub put-IsCovered :
      (b : Sessions env.bolt) (files : List (Str × Str)) (session : ResumableSession)
      → IsCovered b files
      → IsCovering session.offset (lookup session.upload_id files)
      → IsCovered (env.bolt.put session.upload_id session b) files
  put-IsCovered b files session v h id other e =
      let same = str_eq_iff session.upload_id id in
      ground (arith, env.bolt.get-put session.upload_id id session b, same, v id other, h, e)

  pub insert-IsCovered :
      (b : Sessions env.bolt) (files : List (Str × Str)) (id content : Str)
      → IsCovered b files
      → ((session : ResumableSession)
          → env.bolt.get id b ≡ some session
          → session.offset ≤ length content)
      → IsCovered b (insert id content files)
  insert-IsCovered b files id content v h j session e =
      ground (arith, lookup-insert id j content files, str_eq_iff id j, v j session, h session, e)

  pub remove-IsCovered :
      (b : Sessions env.bolt) (files : List (Str × Str)) (id : Str)
      → IsCovered b files
      → IsCovered b (remove id files)
  remove-IsCovered b files id v j session e =
      ground (arith, lookup-remove id j files, v j session, e)

  pub delete-IsCovered :
      (b : Sessions env.bolt) (files : List (Str × Str)) (id : Str)
      → IsCovered b files
      → IsCovered (env.bolt.delete id b) files
  delete-IsCovered b files id v j session e =
      ground (arith, env.bolt.get-delete id j b, v j session, e)
