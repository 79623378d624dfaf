-- ===== src/Gateway/Multipart/Order.antt =====
-- Sorting the parts of an upload (internal/gateway/multipart.go, internal/metadata/store.go) loses none, and orders
-- them by number.
use cipher_lake.Prelude.{
  ℕ, suc, ◌≤◌, Bool, Option, none, some, List, [], ◌∷◌, nat_beq, nat_beq_iff, if◌then◌else◌, ◌≡◌,
  arith, refl, ◌∙◌,
}
use cipher_lake.Gateway.Multipart.{UploadPart}
use cipher_lake.Gateway.Multipart.Parts.{insert_before, sort_by}
use cipher_lake.Gateway.Multipart.Complete.{by_number}

abbrev pub find_part : ℕ → List UploadPart → Option UploadPart
find_part n [] = none
find_part n (p ∷ parts) = if nat_beq p.part_number n then some p else find_part n parts

-- No number stands twice.
abbrev pub IsFresh : List UploadPart → Type 0
IsFresh [] = Unit
IsFresh (p ∷ parts) = (find_part p.part_number parts ≡ none) × IsFresh parts

-- In ascending order, from a number on.
abbrev pub IsFrom : ℕ → List UploadPart → Type 0
IsFrom k [] = Unit
IsFrom k (p ∷ parts) = (k ≤ p.part_number) × IsFrom (suc p.part_number) parts

find_part-insert_before :
    (before : UploadPart → UploadPart → Bool) (p : UploadPart) (parts : List UploadPart) (n : ℕ)
    → find_part p.part_number parts ≡ none
    → find_part n (insert_before before p parts)
      ≡ (if nat_beq p.part_number n then some p else find_part n parts)
unfolding insert_before
find_part-insert_before before p [] n h = refl
find_part-insert_before before p (q ∷ parts) n h =
    let ih = find_part-insert_before before p parts n in
    let a = nat_beq_iff p.part_number n in
    let b = nat_beq_iff q.part_number n in
    let c = nat_beq_iff q.part_number p.part_number in ground (arith, ih, a, b, c, h)

insert_before-IsFresh :
    (before : UploadPart → UploadPart → Bool) (p : UploadPart) (parts : List UploadPart)
    → find_part p.part_number parts ≡ none
    → IsFresh parts
    → IsFresh (insert_before before p parts)
unfolding insert_before
insert_before-IsFresh before p [] h f = (refl, tt)
insert_before-IsFresh before p (q ∷ parts) h f =
    let ih = insert_before-IsFresh before p parts in
    let moved = find_part-insert_before before p parts q.part_number in
    let c = nat_beq_iff q.part_number p.part_number in
    let d = nat_beq_iff p.part_number q.part_number in ground (arith, ih, moved, c, d, h, f)

pub find_part-sort_by :
    (before : UploadPart → UploadPart → Bool) (parts : List UploadPart) (n : ℕ)
    → IsFresh parts
    → find_part n (sort_by before parts) ≡ find_part n parts
unfolding sort_by
find_part-sort_by before [] n f = refl
find_part-sort_by before (p ∷ parts) n f =
    let kept = find_part-sort_by before parts p.part_number f.1 in
    let rest = find_part-sort_by before parts n f.1 in
    let here = find_part-insert_before before p (sort_by before parts) n in
    ground (arith, kept, rest, here, f)

pub sort_by-IsFresh :
    (before : UploadPart → UploadPart → Bool) (parts : List UploadPart)
    → IsFresh parts
    → IsFresh (sort_by before parts)
unfolding sort_by
sort_by-IsFresh before [] f = tt
sort_by-IsFresh before (p ∷ parts) f =
    let kept = find_part-sort_by before parts p.part_number f.1 in
    insert_before-IsFresh before p (sort_by before parts) (kept ∙ f.0)
      (sort_by-IsFresh before parts f.1)

insert_before-IsFrom :
    (k : ℕ) (p : UploadPart) (parts : List UploadPart)
    → find_part p.part_number parts ≡ none
    → k ≤ p.part_number
    → IsFrom k parts
    → IsFrom k (insert_before by_number p parts)
unfolding insert_before
insert_before-IsFrom k p [] h low a = (low, tt)
insert_before-IsFrom k p (q ∷ parts) h low a =
    let ih = insert_before-IsFrom (suc q.part_number) p parts in
    let c = nat_beq_iff q.part_number p.part_number in ground (arith, ih, c, h, low, a)

-- Sorted by number, whatever the numbers' lower bound.
pub sort_by-IsFrom :
    (k : ℕ) (parts : List UploadPart)
    → IsFresh parts
    → ((n : ℕ) (p : UploadPart) → find_part n parts ≡ some p → k ≤ n)
    → IsFrom k (sort_by by_number parts)
unfolding sort_by
sort_by-IsFrom k [] f low = tt
sort_by-IsFrom k (p ∷ parts) f low =
    let kept = find_part-sort_by by_number parts p.part_number f.1 in
    insert_before-IsFrom k p (sort_by by_number parts) (kept ∙ f.0)
      (low p.part_number p (rw ((nat_beq_iff p.part_number p.part_number).1 refl) refl))
      (sort_by-IsFrom k parts f.1
        λ n q e. let same = nat_beq_iff p.part_number n in ground (arith, same, low n q, e, f.0))
