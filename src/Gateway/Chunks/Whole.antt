-- ===== src/Gateway/Chunks/Whole.antt =====
-- A whole resumable upload through internal/gateway/resumable.go, from the making of its session to the object.
use cipher_lake.Prelude.{
  ℕ, true, false, Option, none, some, List, [], ◌∷◌, ◌++◌, subst, sym, ◌∙◌, Str, str_eq_iff, is_nil,
  length, insert, lookup, str_key, pair_key, lookup-inserted, lookup-removed, ◌≡◌, refl,
}
use cipher_lake.Gateway.Objects.{
  data_at, metadata_at, put_stored_object_with_metadata, put_object_metadata_after_store,
}
use cipher_lake.Gateway.Sessions.{ResumableSession, Sessions, put_resumable_session}
use cipher_lake.Gateway.Requests.{Outside, Request, finished}
use cipher_lake.Gateway.Resumable.{Uploads, Outcome, handle_create_session, new_session}
use cipher_lake.Gateway.Resumable.Finalize.{handle_finalize, sealed, is_encrypted, final_metadata}
use cipher_lake.Gateway.Resumable.Append.{handle_patch}
use cipher_lake.Gateway.Chunks.{quiet, IsReady, IsNext, find_ready, session_after, uploads_after}

-- The bodies of requests, one after the other.
abbrev pub joined : List Request → Str
joined [] = []
joined (req ∷ reqs) = req.body ++ joined reqs

module _ (env : Outside) (now : ℕ) (etag version_id : Str) where
  pub uploads_after-IsReady :
      (s : Uploads env) (req : Request) (session : ResumableSession) (content : Str)
      → IsReady env now s req session content
      → IsReady env now
          (uploads_after env now s session req content)
          req
          (session_after env now session req content)
          (content ++ req.body)
  uploads_after-IsReady s req session content r = record {
    authorized = r.authorized;
    named = r.named;
    allowed = r.allowed;
    there =
        env.bolt.get-put req.upload_id req.upload_id (session_after env now session req content)
          s.sessions
        ∙ rw ((str_eq_iff req.upload_id req.upload_id).1 refl) refl;
    keyed = r.keyed;
    in_bucket = r.in_bucket;
    under_key = r.under_key;
    in_time = r.in_time;
    pending = r.pending;
    file = lookup-inserted req.upload_id (content ++ req.body) s.files;
  }

  -- A request on the same upload.
  pub record IsLike (to req : Request) : Type 0 where
    pub authorized : req.authorized ≡ true
    pub same_id : req.upload_id ≡ to.upload_id
    pub same_bucket : req.bucket ≡ to.bucket
    pub same_key : req.key ≡ to.key

  pub IsLike-IsReady :
      (s : Uploads env) (to req : Request) (session : ResumableSession) (content : Str)
      → to.authorized ≡ true
      → IsLike req to
      → IsReady env now s req session content
      → IsReady env now s to session content
  IsLike-IsReady s to req session content a l r = record {
    authorized = a;
    named = subst (λ i. is_nil i ≡ false) (sym l.same_id) r.named;
    allowed = subst (λ i. env.bolt.key_allowed i ≡ true) (sym l.same_id) r.allowed;
    there = subst (λ i. env.bolt.get i s.sessions ≡ some session) (sym l.same_id) r.there;
    keyed = r.keyed ∙ sym l.same_id;
    in_bucket = r.in_bucket ∙ sym l.same_bucket;
    under_key = r.under_key ∙ sym l.same_key;
    in_time = r.in_time;
    pending = r.pending;
    file = subst (λ i. lookup i s.files ≡ some content) (sym l.same_id) r.file;
  }

  -- Requests that go on one from the other, behind these bytes.
  abbrev pub IsSeries : Request → Str → List Request → Type 0
  IsSeries to content [] = Unit
  IsSeries to content (req ∷ reqs) =
      (IsLike to req × IsNext env now (length content) req content)
      × IsSeries to (content ++ req.body) reqs

  unfoldable pub send : Uploads env → List Request → Uploads env
  send s [] = s
  send s (req ∷ reqs) = send (handle_patch env (quiet now etag version_id) s req).0 reqs

  pub IsLike-sym : {to req : Request} → to.authorized ≡ true → IsLike to req → IsLike req to
  IsLike-sym a l = record {
    authorized = a;
    same_id = sym l.same_id;
    same_bucket = sym l.same_bucket;
    same_key = sym l.same_key;
  }

  -- What a finalization leaves: the answer, the stored bytes and metadata, and neither session nor file.
  abbrev pub IsFinished : Request → ResumableSession → Str → Str → Option Str → Outcome env → Type 0
  IsFinished to session content out dek (after, reply) =
      (reply ≡ finished etag version_id (is_encrypted env))
      × (data_at after.objects to.bucket to.key ≡ some out)
      × (metadata_at after.objects to.bucket to.key
          ≡ some (final_metadata env (quiet now etag version_id) to session content dek))
      × (env.bolt.get to.upload_id after.sessions ≡ none)
      × (lookup to.upload_id after.files ≡ none)

  deleted : (id : Str) (b : Sessions env.bolt) → env.bolt.get id (env.bolt.delete id b) ≡ none
  deleted id b = env.bolt.get-delete id id b ∙ rw ((str_eq_iff id id).1 refl) refl

  pub finalize_ready :
      (s : Uploads env) (to : Request) (session : ResumableSession) (content out : Str)
      (dek : Option Str)
      → IsReady env now s to session content
      → sealed env content ≡ some (out, dek)
      → IsFinished to session content out dek (handle_finalize env (quiet now etag version_id) s to)
  unfolding handle_finalize put_stored_object_with_metadata put_object_metadata_after_store
      put_resumable_session
  finalize_ready s to session content out dek r e = rw (find_ready env now s to session content r) (
      rw r.file (
        rw e (
          rw r.keyed (
            refl,
            lookup-inserted (to.bucket, to.key) out s.objects.data_,
            lookup-inserted (to.bucket, to.key)
                (final_metadata env (quiet now etag version_id) to session content dek)
                s.objects.metadata,
            deleted to.upload_id _,
            lookup-removed to.upload_id s.files,
          ))))

  -- The state that a call to create a session leaves.
  abbrev pub begun : Uploads env → Request → ℕ → Str → Uploads env
  begun s req expiry id = (handle_create_session env (quiet now etag version_id) s req expiry id).0

  abbrev created_state : Uploads env → Request → ℕ → Str → Uploads env
  created_state s req expiry id = record s {
    sessions = env.bolt.put id (new_session env req now expiry id) s.sessions;
    files = insert id [] s.files;
  }
