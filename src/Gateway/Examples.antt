-- ===== src/Gateway/Examples.antt =====
-- Uploads of internal/gateway on concrete requests.
use cipher_lake.Prelude.{
  true, false, none, some, [], ◌∷◌, Str, bytes, str_eq, lookup, parse_int, split_first, str_key,
  inl, ◌≡◌, refl,
}
use cipher_lake.Loader.Lists.{lists}
use cipher_lake.Gateway.Objects.{Objects}
use cipher_lake.Gateway.Requests.{
  Outside, Request, failed, not_written, refused, bad_digest, appended,
}
use cipher_lake.Gateway.Resumable.{Uploads, new_session}
use cipher_lake.Gateway.Resumable.Finalize.{handle_finalize}
use cipher_lake.Gateway.Resumable.Append.{handle_patch}
use cipher_lake.Gateway.Invariant.{IsValid}
use cipher_lake.Gateway.Invariant.Run.{
  creates, appends, cleans, new_uploads, run_uploads, run_uploads-new_uploads-IsValid,
}
use cipher_lake.Gateway.Chunks.{quiet, IsReady, session_after}
use cipher_lake.Gateway.Chunks.Whole.{IsFinished, send}
use cipher_lake.Gateway.Chunks.Retry.{cut, retry_stores_part}
use cipher_lake.Gateway.Chunks.Checksum.{IsKept, wrong_checksum_keeps}
use cipher_lake.Gateway.Resumable.Steps.{answered, overlapped}
use cipher_lake.Gateway.Overlap.Lost.{overlap_loses}

-- No encryption; a digest that a reader can follow.
abbrev outside : Outside
outside = record { bolt = lists; digest = λ s. s; encrypt = none }

abbrev no_objects : Objects
no_objects = record { data_ = []; metadata = [] }

abbrev idle : Uploads outside
idle = record { sessions = []; files = []; objects = no_objects }

-- A request on the upload "u" of the object "b/k".
abbrev request : Str → Str → Str → Request
request offset checksum body = record {
  authorized = true;
  bucket = bytes "b";
  key = bytes "k";
  upload_id = bytes "u";
  upload_length = [];
  upload_offset = offset;
  upload_checksum = checksum;
  content_type = bytes "text/plain";
  metadata = [];
  finalize = [];
  body = body;
}

abbrev first : Request
first = request (bytes "0") [] (bytes "ab")

abbrev second : Request
second = request (bytes "2") (bytes "sha256 abc") (bytes "c")

abbrev closing : Request
closing = request [] [] []

run_uploads-new_uploads-IsValid_example : IsValid outside (
    run_uploads outside (new_uploads outside no_objects) (
      creates (quiet 5 [] []) first 10 (bytes "u")
      ∷ appends (cut 1 5 [] []) first
      ∷ appends (quiet 6 [] []) first
      ∷ cleans (λ id. false) (λ id. true) 40
      ∷ []))
run_uploads-new_uploads-IsValid_example = run_uploads-new_uploads-IsValid outside no_objects (
    creates (quiet 5 [] []) first 10 (bytes "u")
    ∷ appends (cut 1 5 [] []) first
    ∷ appends (quiet 6 [] []) first
    ∷ cleans (λ id. false) (λ id. true) 40
    ∷ [])

-- The upload "u" before its first byte.
abbrev pending : Uploads outside
pending = record {
  sessions = (bytes "u", new_session outside first 5 10 (bytes "u")) ∷ [];
  files = (bytes "u", []) ∷ [];
  objects = no_objects;
}

pending-IsReady : IsReady outside 5 pending first (new_session outside first 5 10 (bytes "u")) []
unfolding lookup str_eq
pending-IsReady = record {
  authorized = refl;
  named = refl;
  allowed = refl;
  there = refl;
  keyed = refl;
  in_bucket = refl;
  under_key = refl;
  in_time = refl;
  pending = refl;
  file = refl;
}

-- "a" of "ab" gets through, "ab" is sent again, and "aab" is stored.
retry_stores_part_example :
    ((handle_patch outside (cut 1 5 (bytes "e") (bytes "v")) pending first).1 ≡ failed not_written)
    × (lookup
          (bytes "u")
          (handle_patch outside (cut 1 5 (bytes "e") (bytes "v")) pending first).0.sessions
        ≡ some (new_session outside first 5 10 (bytes "u")))
    × IsFinished outside 5
        (bytes "e")
        (bytes "v")
        closing
        (session_after outside 5 (new_session outside first 5 10 (bytes "u")) first (bytes "a"))
        (bytes "aab")
        (bytes "aab")
        none
        (handle_finalize outside
          (quiet 5 (bytes "e") (bytes "v"))
          (send outside 5
            (bytes "e")
            (bytes "v")
            (handle_patch outside (cut 1 5 (bytes "e") (bytes "v")) pending first).0
            (first ∷ []))
          closing)
unfolding parse_int str_eq split_first
retry_stores_part_example =
    retry_stores_part outside 5 (bytes "e") (bytes "v") 1 pending first first closing
      (new_session outside first 5 10 (bytes "u")) [] (bytes "aab") none refl pending-IsReady
      (record { at_end = refl; right = inl refl; goes_on = refl })
      (record { authorized = refl; same_id = refl; same_bucket = refl; same_key = refl })
      (record { authorized = refl; same_id = refl; same_bucket = refl; same_key = refl })
      (record { at_end = refl; right = inl refl; goes_on = refl }) refl

abbrev wrong : Request
wrong = request (bytes "0") (bytes "sha256 ac") (bytes "ab")

wrong-IsReady : IsReady outside 5 pending wrong (new_session outside first 5 10 (bytes "u")) []
unfolding lookup str_eq
wrong-IsReady = record {
  authorized = refl;
  named = refl;
  allowed = refl;
  there = refl;
  keyed = refl;
  in_bucket = refl;
  under_key = refl;
  in_time = refl;
  pending = refl;
  file = refl;
}

wrong_checksum_keeps_example :
    ((handle_patch outside (quiet 5 [] []) pending wrong).1 ≡ refused bad_digest)
    × IsKept outside 5 [] [] pending (handle_patch outside (quiet 5 [] []) pending wrong).0
unfolding parse_int str_eq split_first
wrong_checksum_keeps_example =
    wrong_checksum_keeps outside 5 [] [] pending wrong (new_session outside first 5 10 (bytes "u"))
      [] wrong-IsReady refl refl refl refl

overlap_loses_example :
    ((overlapped outside (quiet 5 [] []) first wrong pending).1
      ≡ (answered (appended 2 (bytes "ab")), answered (refused bad_digest)))
    × (lookup (bytes "u") (overlapped outside (quiet 5 [] []) first wrong pending).0.sessions
        ≡ some (session_after outside 5 (new_session outside first 5 10 (bytes "u")) first []))
    × (lookup (bytes "u") (overlapped outside (quiet 5 [] []) first wrong pending).0.files
        ≡ some [])
    × (¬ IsValid outside (overlapped outside (quiet 5 [] []) first wrong pending).0)
unfolding parse_int str_eq split_first
overlap_loses_example =
    overlap_loses outside 5 [] [] pending first wrong (new_session outside first 5 10 (bytes "u"))
      [] refl pending-IsReady (record { at_end = refl; right = inl refl; goes_on = refl }) refl
      wrong-IsReady refl refl refl refl
