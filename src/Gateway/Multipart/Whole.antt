-- ===== src/Gateway/Multipart/Whole.antt =====
-- A whole upload in parts through internal/gateway/multipart.go: parts in any order, some again, and the completion.
use cipher_lake.Prelude.{ℕ, true, false, none, some, List, [], ◌∷◌, Str, is_nil, pair_key, ltb, ◌≡◌}
use cipher_lake.Gateway.Objects.{data_at}
use cipher_lake.Gateway.Multipart.{
  MultipartUpload, Tools, part_key, of_upload, UploadRequest, MultipartState, get_upload,
}
use cipher_lake.Gateway.Multipart.Upload.{PartFaults, PartReply, handle_upload_part}
use cipher_lake.Gateway.Multipart.Parts.{get_parts}
use cipher_lake.Gateway.Multipart.Complete.{CompleteFaults, CompleteReply, completed}
use cipher_lake.Gateway.Multipart.Accepted.{recorded, body_or}

-- A call to upload a part: its faults, the clock and the request.
abbrev pub PartCall : Type 0
PartCall = PartFaults × (ℕ × UploadRequest)

-- Nothing fails.
abbrev pub untroubled : Str → Str → CompleteFaults
untroubled etag version_id = record {
  store = record {
    data_fails = false;
    torn = (λ old. old);
    metadata_fails = false;
    delete_fails = false;
  };
  cleanup_fails = λ id n. false;
  delete_fails = false;
  etag = etag;
  version_id = version_id;
}

module _ (tools : Tools) where
  -- What a completion answers and leaves.
  abbrev pub IsCompleted : Str → UploadRequest → Str → MultipartState tools × CompleteReply → Type 0
  IsCompleted etag req content (after, reply) =
      (reply ≡ completed etag)
      × (data_at after.objects req.bucket req.key ≡ some content)
      × (get_upload tools req.bucket req.key req.upload_id after ≡ none)
      × (of_upload req.upload_id after.parts ≡ [])

  -- A request to complete an upload that is there, has parts and is in time.
  pub record IsCompletable (now : ℕ) (s : MultipartState tools) (req : UploadRequest)
      (upload : MultipartUpload) : Type 0 where
    pub right_method : req.right_method ≡ true
    pub authorized : req.authorized ≡ true
    pub named : is_nil req.upload_id ≡ false
    pub there : get_upload tools req.bucket req.key req.upload_id s ≡ some upload
    pub in_time : ltb upload.expires_at now ≡ false
    pub some_parts : is_nil (get_parts tools req.upload_id s) ≡ false

  abbrev pub upload_call : MultipartState tools → PartCall → MultipartState tools × PartReply
  upload_call s (faults, (now, req)) = handle_upload_part tools (recorded tools faults) now s req

  unfoldable pub send_parts : MultipartState tools → List PartCall → MultipartState tools
  send_parts s [] = s
  send_parts s (call ∷ calls) = send_parts (upload_call s call).0 calls

  -- The body of the last call that was accepted for a number of an upload, and this text where there is none.
  unfoldable pub latest : MultipartState tools → List PartCall → Str → ℕ → Str → Str
  latest s [] id n text = text
  latest s (call ∷ calls) id n text =
      latest (upload_call s call).0 calls id n
        (body_or tools call.1.1 (upload_call s call).1 id n text)
