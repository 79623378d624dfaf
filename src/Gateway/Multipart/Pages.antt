-- ===== src/Gateway/Multipart/Pages.antt =====
-- The pages of `HandleListParts` in internal/gateway/multipart.go.
use cipher_lake.Prelude.{ℕ, Bool, List, [], ◌∷◌, length, take, ltb, ℤ, pos, lt_int, if◌then◌else◌}
use cipher_lake.Gateway.Multipart.{UploadPart}

-- The parts behind a marker.
abbrev pub behind : ℤ → List UploadPart → List UploadPart
behind marker [] = []
behind marker (p ∷ parts) =
    let rest = behind marker parts in if lt_int marker (pos p.part_number) then p ∷ rest else rest

-- A page of at most so many, and whether there are more.
abbrev pub first_page : ℕ → List UploadPart → List UploadPart × Bool
first_page m parts = (take m parts, ltb m (length parts))
