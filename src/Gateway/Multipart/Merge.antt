-- ===== src/Gateway/Multipart/Merge.antt =====
-- What `HandleCompleteMultipartUpload` of internal/gateway/multipart.go merges: the parts in the order of their numbers.
use cipher_lake.Prelude.{
  ℕ, zero, suc, ◌+◌, ◌≤◌, ◌<◌, Option, none, some, List, [], ◌∷◌, ◌++◌, Str, length, lookup,
  nat_beq_iff, length-append, ◌≡◌, arith, refl, subst, ap, ◌∙◌, ◌⊎◌, inl, inr,
}
use cipher_lake.Gateway.Multipart.{UploadPart, part_key}
use cipher_lake.Gateway.Multipart.Complete.{total_size, read_parts, merged}
use cipher_lake.Gateway.Multipart.Order.{find_part, IsFrom}

-- A file that a part has, and none else.
abbrev pub piece : Option UploadPart → Option Str → Str
piece none file = []
piece (some p) none = []
piece (some p) (some content) = content

-- So many pieces from a number on.
abbrev pub assembled : (ℕ → Str) → ℕ → ℕ → Str
assembled f k zero = []
assembled f k (suc count) = f k ++ assembled f (suc k) count

-- The part's file is there and has the size of its record.
abbrev pub IsStored : Str → List ((Str × ℕ) × Str) → ℕ → UploadPart → Type 0
IsStored id files n p =
    (content : Str) × (lookup (id, n) files ≡ some content) × (length content ≡ p.size)

find_part-below :
    (k n : ℕ) (parts : List UploadPart) → IsFrom k parts → n < k → find_part n parts ≡ none
find_part-below k n [] a h = refl
find_part-below k n (p ∷ parts) a h =
    ground (arith, find_part-below (suc p.part_number) n parts, nat_beq_iff p.part_number n, a, h)

le_cases : (k n : ℕ) → k ≤ n → (n ≡ k) ⊎ (suc k ≤ n)
le_cases k n h = ground arith

module _ (id : Str) (files : List ((Str × ℕ) × Str)) where
  -- What the parts have to be for their bytes from a number on, so many of them, to be these.
  pub record IsPieces (f : ℕ → Str) (k count : ℕ) (parts : List UploadPart) : Type 0 where
    pub ordered : IsFrom k parts
    pub bounded : (n : ℕ) (p : UploadPart) → find_part n parts ≡ some p → n < k + count
    pub kept : (n : ℕ) (p : UploadPart) → find_part n parts ≡ some p → IsStored id files n p
    pub pieces : (n : ℕ) → k ≤ n → f n ≡ piece (find_part n parts) (lookup (id, n) files)

  IsPieces-head :
      (f : ℕ → Str) (k count : ℕ) (p : UploadPart) (parts : List UploadPart)
      → IsPieces f k count (p ∷ parts)
      → (p.part_number < k + count) × IsStored id files p.part_number p
  IsPieces-head f k count p parts h =
      let here : find_part p.part_number (p ∷ parts) ≡ some p =
        rw ((nat_beq_iff p.part_number p.part_number).1 refl) refl in
      (h.bounded p.part_number p here, h.kept p.part_number p here)

  -- The number at the front is passed, with its part or without one.
  IsPieces-tail :
      (f : ℕ → Str) (k count : ℕ) (p : UploadPart) (parts : List UploadPart)
      → p.part_number ≡ k
      → IsPieces f k (suc count) (p ∷ parts)
      → IsPieces f (suc k) count parts
  IsPieces-tail f k count p parts e h =
      let later : (n : ℕ) → suc k ≤ n → find_part n (p ∷ parts) ≡ find_part n parts =
        λ n le. ground (arith, nat_beq_iff p.part_number n, e, le) in
      let low : (n : ℕ) (q : UploadPart) → find_part n parts ≡ some q → suc k ≤ n = λ n q found.
        let none_below = find_part-below (suc p.part_number) n parts h.ordered.1 in
        ground (arith, none_below, found, e) in
      record {
        ordered = subst (λ m. IsFrom (suc m) parts) e h.ordered.1;
        bounded = λ n q found. omega (arith, h.bounded n q (later n (low n q found) ∙ found));
        kept = λ n q found. h.kept n q (later n (low n q found) ∙ found);
        pieces = λ n le.
            h.pieces n (omega (arith, le)) ∙ ap (λ o. piece o (lookup (id, n) files)) (later n le);
      }

  IsPieces-skip :
      (f : ℕ → Str) (k count : ℕ) (parts : List UploadPart)
      → IsFrom (suc k) parts
      → IsPieces f k (suc count) parts
      → IsPieces f (suc k) count parts
  IsPieces-skip f k count parts a h = record {
    ordered = a;
    bounded = λ n q found. omega (arith, h.bounded n q found);
    kept = λ n q found. h.kept n q found;
    pieces = λ n le. h.pieces n (omega (arith, le));
  }

  -- A number without a part has no piece.
  IsPieces-gap :
      (f : ℕ → Str) (k count : ℕ) (parts : List UploadPart)
      → IsFrom (suc k) parts
      → IsPieces f k (suc count) parts
      → f k ≡ []
  IsPieces-gap f k count parts a h =
      h.pieces k (omega arith)
      ∙ ap (λ o. piece o (lookup (id, k) files)) (find_part-below (suc k) k parts a (omega arith))

  IsPieces-here :
      (f : ℕ → Str) (k count : ℕ) (p : UploadPart) (parts : List UploadPart) (content : Str)
      → p.part_number ≡ k
      → lookup (id, p.part_number) files ≡ some content
      → IsPieces f k (suc count) (p ∷ parts)
      → f k ≡ content
  IsPieces-here f k count p parts content e there h =
      let file : lookup (id, k) files ≡ some content =
        subst (λ n. lookup (id, n) files ≡ some content) e there in
      let first : find_part k (p ∷ parts) ≡ some p =
        ground (arith, nat_beq_iff p.part_number k, e) in
      h.pieces k (omega arith) ∙ rw first (rw file refl)

  pub read_parts-assembled :
      (f : ℕ → Str) (k count : ℕ) (parts : List UploadPart)
      → IsPieces f k count parts
      → (read_parts id files parts ≡ some (assembled f k count))
        × (length (assembled f k count) ≡ total_size parts)
  read_parts-assembled f k zero [] h = (refl, refl)
  read_parts-assembled f k zero (p ∷ parts) h =
      absurd (omega (arith, (IsPieces-head f k zero p parts h).0, h.ordered.0))
  read_parts-assembled f k (suc count) [] h =
      let (rest, size) =
        read_parts-assembled f (suc k) count [] (IsPieces-skip f k count [] tt h) in
      let gap = IsPieces-gap f k count [] tt h in
      (rest ∙ rw gap refl, ap (λ c. length (c ++ assembled f (suc k) count)) gap ∙ size)
  read_parts-assembled f k (suc count) (p ∷ parts) h = elim (le_cases k p.part_number h.ordered.0) [
    | inl e ↦
        let (content, there, size) = (IsPieces-head f k (suc count) p parts h).1 in
        let (rest, sizes) =
          read_parts-assembled f (suc k) count parts (IsPieces-tail f k count p parts e h) in
        let here = IsPieces-here f k count p parts content e there h in
        (
          rw there (rw rest (rw here refl)),
          ap (λ c. length (c ++ assembled f (suc k) count)) here
              ∙ omega (arith, length-append content (assembled f (suc k) count), size, sizes),
        )
    | inr lt ↦
        let above : IsFrom (suc k) (p ∷ parts) = (lt, h.ordered.1) in
        let (rest, sizes) =
          read_parts-assembled f (suc k) count (p ∷ parts)
            (IsPieces-skip f k count (p ∷ parts) above h) in
        let gap = IsPieces-gap f k count (p ∷ parts) above h in
        (rest ∙ rw gap refl, ap (λ c. length (c ++ assembled f (suc k) count)) gap ∙ sizes)
  ]

  pub merged-assembled :
      (f : ℕ → Str) (k count : ℕ) (parts : List UploadPart)
      → IsPieces f k count parts
      → merged id files parts ≡ some (assembled f k count)
  merged-assembled f k count parts h =
      let (whole, size) = read_parts-assembled f k count parts h in
      rw whole (rw size (rw ((nat_beq_iff (total_size parts) (total_size parts)).1 refl) refl))
