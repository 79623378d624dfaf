-- ===== src/Gateway/Multipart/Intact.antt =====
-- Records and files of the parts of uploads (internal/gateway/multipart.go), and what a new part makes of them.
use cipher_lake.Prelude.{
  ℕ, ◌≤◌, Bool, true, false, ◌&&◌, Option, none, some, List, [], ◌∷◌, Str, str_eq, str_eq_iff,
  length, nat_beq, nat_beq_iff, lookup, insert, lookup-insert, if◌then◌else◌, ◌≡◌, inl, inr, arith,
  refl, ◌∙◌, sym, ap, Bool-cases,
}
use cipher_lake.Gateway.Multipart.{
  UploadPart, Tools, part_key, part_same, of_upload, without_part, MultipartState,
}
use cipher_lake.Gateway.Multipart.Order.{find_part, IsFresh}
use cipher_lake.Gateway.Multipart.Merge.{piece, IsStored}

find_part-without_part :
    (i id : Str) (m n : ℕ) (parts : List (Str × UploadPart))
    → find_part n (of_upload i (without_part id m parts))
      ≡ (if str_eq id i && nat_beq m n then none else find_part n (of_upload i parts))
unfolding of_upload without_part
find_part-without_part i id m n [] = ground arith
find_part-without_part i id m n ((j, p) ∷ parts) =
    let ih = find_part-without_part i id m n parts in
    ground (
      arith,
      ih,
      str_eq_iff j id,
      str_eq_iff j i,
      str_eq_iff id i,
      nat_beq_iff p.part_number m,
      nat_beq_iff p.part_number n,
      nat_beq_iff m n,
    )

without_part-IsFresh :
    (i id : Str) (m : ℕ) (parts : List (Str × UploadPart))
    → IsFresh (of_upload i parts)
    → IsFresh (of_upload i (without_part id m parts))
unfolding of_upload without_part
without_part-IsFresh i id m [] f = tt
without_part-IsFresh i id m ((j, p) ∷ parts) f =
    let ih = without_part-IsFresh i id m parts in
    let gone = find_part-without_part i id m p.part_number parts in
    ground (arith, ih, gone, str_eq_iff j i, f)

some-injective : {p q : UploadPart} → some p ≡ some q → p ≡ q
some-injective e = cc e

module _ (tools : Tools) where
  -- No number stands twice in an upload; each is within its range, and its file is there in full.
  pub record IsIntact (s : MultipartState tools) : Type 0 where
    pub fresh : (id : Str) → IsFresh (of_upload id s.parts)
    pub ranged :
        (id : Str) (n : ℕ) (p : UploadPart)
        → find_part n (of_upload id s.parts) ≡ some p
        → (1 ≤ n) × (n ≤ 10000)
    pub kept :
        (id : Str) (n : ℕ) (p : UploadPart)
        → find_part n (of_upload id s.parts) ≡ some p
        → IsStored id s.files n p

  -- The bytes that a number of an upload has.
  abbrev pub content_at : MultipartState tools → Str → ℕ → Str
  content_at s id n = piece (find_part n (of_upload id s.parts)) (lookup (id, n) s.files)

  -- A part with its file, in place of an older one.
  abbrev pub with_part : MultipartState tools → Str → UploadPart → Str → MultipartState tools
  with_part s id p content = record s {
    parts = (id, p) ∷ without_part id p.part_number s.parts;
    files = insert (id, p.part_number) content s.files;
  }

  find_part-with_part :
      (s : MultipartState tools) (id : Str) (p : UploadPart) (content : Str) (i : Str) (n : ℕ)
      → find_part n (of_upload i (with_part s id p content).parts) ≡ (
          if str_eq id i && nat_beq p.part_number n
          then some p
          else find_part n (of_upload i s.parts))
  unfolding of_upload
  find_part-with_part s id p content i n = ground (
    arith,
    find_part-without_part i id p.part_number n s.parts,
    str_eq_iff id i,
    nat_beq_iff p.part_number n,
  )

  lookup-with_part :
      (s : MultipartState tools) (id : Str) (p : UploadPart) (content : Str) (i : Str) (n : ℕ)
      → lookup (i, n) (with_part s id p content).files
        ≡ (if str_eq id i && nat_beq p.part_number n then some content else lookup (i, n) s.files)
  unfolding part_same
  lookup-with_part s id p content i n = lookup-insert (id, p.part_number) (i, n) content s.files

  pub content_at-with_part :
      (s : MultipartState tools) (id : Str) (p : UploadPart) (content : Str) (i : Str) (n : ℕ)
      → content_at (with_part s id p content) i n
        ≡ (if str_eq id i && nat_beq p.part_number n then content else content_at s i n)
  content_at-with_part s id p content i n =
      rw (find_part-with_part s id p content i n)
        (rw (lookup-with_part s id p content i n) (go (str_eq id i && nat_beq p.part_number n) _ _))
    where
      go :
          (b : Bool) (o : Option UploadPart) (file : Option Str)
          → piece (if b then some p else o) (if b then some content else file)
            ≡ (if b then content else piece o file)
      go true o file = refl
      go false o file = refl

  with_part-IsFresh :
      (s : MultipartState tools) (id : Str) (p : UploadPart) (content : Str) (i : Str)
      → IsFresh (of_upload i s.parts)
      → IsFresh (of_upload i (with_part s id p content).parts)
  unfolding of_upload
  with_part-IsFresh s id p content i f =
      let kept = without_part-IsFresh i id p.part_number s.parts f in
      let gone = find_part-without_part i id p.part_number p.part_number s.parts in
      ground (arith, kept, gone, nat_beq_iff p.part_number p.part_number)

  with_part-IsStored :
      (s : MultipartState tools) (id : Str) (p : UploadPart) (content : Str) (i : Str) (n : ℕ)
      (q : UploadPart)
      → length content ≡ p.size
      → (find_part n (of_upload i s.parts) ≡ some q → IsStored i s.files n q)
      → find_part n (of_upload i (with_part s id p content).parts) ≡ some q
      → IsStored i (with_part s id p content).files n q
  with_part-IsStored s id p content i n q size old e =
      let part = find_part-with_part s id p content i n in
      let file = lookup-with_part s id p content i n in
      elim (Bool-cases (str_eq id i && nat_beq p.part_number n)) [
        | inl here ↦
            let same : p ≡ q = some-injective (sym (part ∙ rw here refl) ∙ e) in
            (content, file ∙ rw here refl, size ∙ ap (λ r. r.size) same)
        | inr there ↦
            let (was, stored, length_) = old (sym (part ∙ rw there refl) ∙ e) in
            (was, file ∙ rw there stored, length_)
      ]

  pub with_part-IsIntact :
      (s : MultipartState tools) (id : Str) (p : UploadPart) (content : Str)
      → (1 ≤ p.part_number) × (p.part_number ≤ 10000)
      → length content ≡ p.size
      → IsIntact s
      → IsIntact (with_part s id p content)
  with_part-IsIntact s id p content range size v = record {
    fresh = λ i. with_part-IsFresh s id p content i (v.fresh i);
    ranged = λ i n q e.
        let part = find_part-with_part s id p content i n in
        ground (arith, part, nat_beq_iff p.part_number n, range, v.ranged i n q, e);
    kept = λ i n q e. with_part-IsStored s id p content i n q size (v.kept i n q) e;
  }
