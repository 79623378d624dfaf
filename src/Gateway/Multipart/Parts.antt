-- ===== src/Gateway/Multipart/Parts.antt =====
-- `GetParts` of internal/metadata/store.go: the parts of an upload in the order of their keys, which is the byte order
-- of the decimal part numbers.
use cipher_lake.Prelude.{
  bytes_before, ℕ, zero, suc, ◌+◌, ◌/◌, ◌%◌, Bool, List, [], ◌∷◌, ◌++◌, Str, ltb, if◌then◌else◌,
}
use cipher_lake.Gateway.Multipart.{UploadPart, Tools, MultipartState, of_upload}

-- Sorting by insertion.
unfoldable pub insert_before :
    (UploadPart → UploadPart → Bool) → UploadPart → List UploadPart → List UploadPart
insert_before before p [] = p ∷ []
insert_before before p (q ∷ parts) =
    let rest = insert_before before p parts in if before p q then p ∷ q ∷ parts else q ∷ rest

unfoldable pub sort_by : (UploadPart → UploadPart → Bool) → List UploadPart → List UploadPart
sort_by before [] = []
sort_by before (p ∷ parts) = insert_before before p (sort_by before parts)

-- `%d`, with a digit of fuel for each unit.
abbrev pub decimal_digits : ℕ → ℕ → Str
decimal_digits zero n = []
decimal_digits (suc fuel) n =
    let before = decimal_digits fuel (n / 10) in
    if ltb n 10 then (48 + n) ∷ [] else before ++ (48 + n % 10) ∷ []

unfoldable pub decimal : ℕ → Str
decimal n = decimal_digits (suc n) n

abbrev pub by_key : UploadPart → UploadPart → Bool
by_key p q = bytes_before (decimal p.part_number) (decimal q.part_number)

unfoldable pub get_parts : (tools : Tools) → Str → MultipartState tools → List UploadPart
get_parts tools id s = sort_by by_key (of_upload id s.parts)
