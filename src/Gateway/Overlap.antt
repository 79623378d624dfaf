-- ===== src/Gateway/Overlap.antt =====
-- Appends to one session (internal/gateway/resumable.go): a call by itself, and two that overlap.
pub mod Lost
use cipher_lake.Prelude.{
  ℕ, zero, suc, ◌+◌, ◌&&◌, not, Bool, true, false, Option, none, some, List, [], ◌∷◌, ◌++◌, Str,
  bytes, str_eq, is_nil, take, length, lookup, insert, str_key, lookup-inserted, if◌then◌else◌, ◌≡◌,
  refl, arith, ap, sym, subst, ◌∙◌, Bool-cases, inl, inr,
}
use cipher_lake.Gateway.Sessions.{ResumableSession, Sessions, put_resumable_session}
use cipher_lake.Gateway.Requests.{
  Outside, Refusal, bad_digest, Reply, appended, refused, failed, not_synced, file_not_opened,
  Faults, Request, Found, found, missing, truncate, provided_checksum, offset_error,
}
use cipher_lake.Gateway.Resumable.{Uploads, Outcome, find_session, unfinished}
use cipher_lake.Gateway.Resumable.Finalize.{handle_finalize}
use cipher_lake.Gateway.Resumable.Append.{
  moved_on, computed_checksum, answer_append, verify_append, with_file, copy_body, append_file,
  patch_offset, patch_found, handle_patch,
}
use cipher_lake.Gateway.Resumable.Steps.{
  PatchStage, reading, appending, checking, cutting, storing, finalizing, answered, Staged,
  offset_stage, read_stage, copy_stage, append_stage, computed_now, check_stage, cut_stage,
  store_stage, ended, patch_step, patch_steps,
}

module _ (env : Outside) (faults : Faults) (req : Request) where
  abbrev steps : ℕ → Staged env → Staged env
  steps n staged = patch_steps env n faults req staged

  steps-answered :
      (n : ℕ) (s : Uploads env) (reply : Reply) → steps n (s, answered reply) ≡ (s, answered reply)
  unfolding patch_steps patch_step
  steps-answered zero s reply = refl
  steps-answered (suc n) s reply = steps-answered n s reply

  steps-storing :
      (s : Uploads env) (moved : ResumableSession) (computed : Str)
      (put : Option (Sessions env.bolt))
      → steps 1 (store_stage env faults s req moved computed put)
        ≡ ended env (answer_append env faults s req moved.offset computed put)
  unfolding patch_steps patch_step
  steps-storing s moved computed none = refl
  steps-storing s moved computed (some b) = elim (Bool-cases (str_eq req.finalize (bytes "1"))) [
    | inr plain ↦ rw plain refl
    | inl final ↦ elim (Bool-cases faults.close_fails) [
      | inl fails ↦ rw (final, fails) refl
      | inr closes ↦ rw (final, closes) refl
    ]
  ]

  steps-checking :
      (s : Uploads env) (session : ResumableSession) (content : Str)
      → lookup req.upload_id s.files ≡ some content
      → steps 3 (s, checking session) ≡ ended env (verify_append env faults s req session content)
  unfolding patch_steps patch_step verify_append
  steps-checking s session content e =
      let provided = provided_checksum req.upload_checksum in
      let new_offset = session.offset + length req.body in
      let computed = computed_checksum env faults provided new_offset content in
      elim (Bool-cases (not (is_nil provided) && not (str_eq computed provided))) [
        | inl wrong ↦ rw (e, wrong, e) refl
        | inr right ↦
            rw (e, right)
              (steps-storing s (moved_on env session new_offset computed) computed (
                put_resumable_session env.bolt faults.put_fails
                  (moved_on env session new_offset computed) s.sessions))
      ]

  -- An early return on a fault.
  either :
      (fails : Bool) (x y : Staged env) (v w : Outcome env)
      → steps 3 x ≡ ended env v
      → steps 3 y ≡ ended env w
      → steps 3 (if fails then x else y) ≡ ended env (if fails then v else w)
  either true x y v w e f = e
  either false x y v w e f = f

  steps-copying :
      (s : Uploads env) (session : ResumableSession) (old : Str) (stop : Option ℕ)
      → steps 3 (copy_stage env faults s req session old stop)
        ≡ ended env (copy_body env faults s req session old stop)
  unfolding patch_steps patch_step
  steps-copying s session old (some n) = refl
  steps-copying s session old none =
      let after = with_file env s req.upload_id (old ++ req.body) in
      either faults.sync_fails (after, answered (failed not_synced)) (after, checking session)
        (after, failed not_synced) (verify_append env faults after req session (old ++ req.body))
        refl
        (steps-checking (with_file env s req.upload_id (old ++ req.body)) session (old ++ req.body)
          (lookup-inserted req.upload_id (old ++ req.body) s.files))

  pub steps-appending :
      (s : Uploads env) (session : ResumableSession) (file : Option Str)
      → steps 3 (append_stage env faults s req session file)
        ≡ ended env (append_file env faults s req session file)
  unfolding patch_steps patch_step
  steps-appending s session none = refl
  steps-appending s session (some old) =
      either faults.open_fails (s, answered (failed file_not_opened))
        (copy_stage env faults s req session old faults.copy_stops) (s, failed file_not_opened)
        (copy_body env faults s req session old faults.copy_stops) refl
        (steps-copying s session old faults.copy_stops)

  steps-offset :
      (s : Uploads env) (session : ResumableSession) (error : Option Refusal)
      → steps 4 (offset_stage env s session error)
        ≡ ended env (patch_offset env faults s req session error)
  unfolding patch_steps patch_step
  steps-offset s session (some r) = refl
  steps-offset s session none = steps-appending s session (lookup req.upload_id s.files)

  steps-found :
      (s : Uploads env) (f : Found)
      → steps 4 (read_stage env s req f) ≡ ended env (patch_found env faults s req f)
  unfolding patch_steps patch_step
  steps-found s (missing r) = refl
  steps-found s (found session) =
      steps-offset s session (offset_error session.offset req.upload_offset)

  -- A call of `HandlePatch` that no other call comes between.
  pub patch_steps-handle_patch :
      (s : Uploads env)
      → patch_steps env 5 faults req (s, reading) ≡ ended env (handle_patch env faults s req)
  unfolding handle_patch patch_steps patch_step
  patch_steps-handle_patch s = steps-found s (unfinished env (find_session env faults.now s req))
