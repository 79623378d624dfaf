-- ===== src/Loader/Topology/Search.antt =====
-- The loop over the queue in internal/pluginloader/topology.go: what holds of degrees, queue and placed names in
-- every round.
use cipher_lake.Prelude.{
  ℕ, suc, ◌+◌, ◌≤◌, Bool, true, false, List, [], ◌∷◌, ◌++◌, Str, str_eq, str_eq_iff, ◌&&◌, nat_beq,
  insert, str_key, pos, if◌then◌else◌, ◌≡◌, ◌⊎◌, inl, inr, refl, arith, ap, sym, subst, ◌∙◌,
  Bool-cases,
}
use cipher_lake.Loader.Topology.{Degrees, degree, minus_one, is_zero, release}
use cipher_lake.Loader.Topology.Counts.{
  any-occ, occ, occ-append, targets, open_edges, open_edges-place, degree-insert,
}

-- A name is queued or placed once, and then has no open edge; or it is neither, and has some.
abbrev pub IsSettled : ℕ → ℕ → ℕ → Type 0
IsSettled queued done left = ((queued + done ≡ 1) × (left ≡ 0)) ⊎ ((queued + done ≡ 0) × (1 ≤ left))

module _ (edges : List (Str × Str)) (names : List Str) where
  -- What holds while these children are still to be released: degrees count the open edges.
  pub record IsRound (pending : List Str) (degrees : Degrees) (queue done : List Str) : Type 0 where
    pub counted :
        (x : Str)
        → occ x names ≡ 1
        → degree degrees x ≡ pos (open_edges x done edges + occ x pending)
    pub settled :
        (x : Str)
        → occ x names ≡ 1
        → IsSettled (occ x queue) (occ x done) (open_edges x done edges + occ x pending)
    pub foreign : (x : Str) → occ x names ≡ 0 → occ x queue + occ x done ≡ 0
    pub known : (x : Str) → occ x names ≡ 0 → occ x pending ≡ 0

  abbrev queue_after : Str → Degrees → List Str → List Str
  queue_after child degrees queue =
      if is_zero (minus_one (degree degrees child)) then queue ++ child ∷ [] else queue

  abbrev degrees_after : Str → Degrees → Degrees
  degrees_after child degrees = insert child (minus_one (degree degrees child)) degrees

  occ-queue_after :
      (x child : Str) (degrees : Degrees) (queue : List Str)
      → occ x (queue_after child degrees queue) ≡ (
          if str_eq child x && is_zero (minus_one (degree degrees child))
          then suc (occ x queue)
          else occ x queue)
  occ-queue_after x child degrees queue = go (is_zero (minus_one (degree degrees child)))
    where
      go :
          (b : Bool)
          → occ x (if b then queue ++ child ∷ [] else queue)
            ≡ (if str_eq child x && b then suc (occ x queue) else occ x queue)
      go true = ground (arith, occ-append x queue (child ∷ []))
      go false = ground arith

  less_one : (m n : ℕ) → m ≡ suc n → minus_one (pos m) ≡ pos n
  less_one m n e = ap (λ k. minus_one (pos k)) e

  degree-released :
      (child : Str) (pending : List Str) (degrees : Degrees) (queue done : List Str)
      → IsRound (child ∷ pending) degrees queue done
      → occ child names ≡ 1
      → minus_one (degree degrees child) ≡ pos (open_edges child done edges + occ child pending)
  degree-released child pending degrees queue done r h =
      let same = (str_eq_iff child child).1 refl in
      let now : occ child (child ∷ pending) ≡ suc (occ child pending) = rw same refl in
      ap minus_one (r.counted child h ∙ ap (λ n. pos (open_edges child done edges + n)) now)
      ∙ less_one _ (open_edges child done edges + occ child pending) (omega arith)

  settle_child :
      (q d o p : ℕ) (b : Bool)
      → b ≡ nat_beq (o + p) 0
      → IsSettled q d (o + suc p)
      → IsSettled (if b then suc q else q) d (o + p)
  settle_child q d o p b e (inl (h, k)) = absurd (omega (arith, k))
  settle_child q d o p true e (inr (h, k)) = inl (omega (arith, h), ground (arith, e))
  settle_child q d o p false e (inr (h, k)) = inr (h, ground (arith, e))

  child-IsSettled :
      (child : Str) (pending : List Str) (degrees : Degrees) (queue done : List Str)
      → IsRound (child ∷ pending) degrees queue done
      → occ child names ≡ 1
      → IsSettled
          (occ child (queue_after child degrees queue))
          (occ child done)
          (open_edges child done edges + occ child pending)
  child-IsSettled child pending degrees queue done r h =
      let same = (str_eq_iff child child).1 refl in
      let o = open_edges child done edges in
      let now : occ child (child ∷ pending) ≡ suc (occ child pending) = rw same refl in
      let was : IsSettled (occ child queue) (occ child done) (o + suc (occ child pending)) =
        subst (λ n. IsSettled (occ child queue) (occ child done) (o + n)) now (r.settled child h) in
      let zero_ : is_zero (minus_one (degree degrees child)) ≡ nat_beq (o + occ child pending) 0 =
        ap is_zero (degree-released child pending degrees queue done r h) in
      let queued : occ child (queue_after child degrees queue) ≡ (
          if is_zero (minus_one (degree degrees child))
          then suc (occ child queue)
          else occ child queue) =
        occ-queue_after child child degrees queue ∙ rw same refl in
      subst (λ q. IsSettled q (occ child done) (o + occ child pending)) (sym queued)
        (settle_child (occ child queue) (occ child done) o (occ child pending) _ zero_ was)

  counted_after :
      (child : Str) (pending : List Str) (degrees : Degrees) (queue done : List Str)
      → IsRound (child ∷ pending) degrees queue done
      → (x : Str) → occ x names ≡ 1
      → degree (degrees_after child degrees) x ≡ pos (open_edges x done edges + occ x pending)
  counted_after child pending degrees queue done r x h =
      let one = degree-insert child x (minus_one (degree degrees child)) degrees in
      elim (Bool-cases (str_eq child x)) [
        | inl same ↦
            let e : child ≡ x = (str_eq_iff child x).0 same in
            let released =
              degree-released child pending degrees queue done r
                (subst (λ i. occ i names ≡ 1) (sym e) h) in
            one ∙ rw same (released ∙ ap (λ i. pos (open_edges i done edges + occ i pending)) e)
        | inr other ↦
            let fewer : occ x (child ∷ pending) ≡ occ x pending = rw other refl in
            let was = r.counted x h ∙ ap (λ n. pos (open_edges x done edges + n)) fewer in
            one ∙ rw other was
      ]

  after-IsSettled :
      (child : Str) (pending : List Str) (degrees : Degrees) (queue done : List Str)
      → IsRound (child ∷ pending) degrees queue done
      → (x : Str) → occ x names ≡ 1
      → IsSettled
          (occ x (queue_after child degrees queue))
          (occ x done)
          (open_edges x done edges + occ x pending)
  after-IsSettled child pending degrees queue done r x h = elim (Bool-cases (str_eq child x)) [
    | inl same ↦
        let e : child ≡ x = (str_eq_iff child x).0 same in
        subst
          (λ i.
            IsSettled (occ i (queue_after child degrees queue)) (occ i done)
              (open_edges i done edges + occ i pending))
          e
          (child-IsSettled child pending degrees queue done r
            (subst (λ i. occ i names ≡ 1) (sym e) h))
    | inr other ↦
        let fewer : occ x (child ∷ pending) ≡ occ x pending = rw other refl in
        let queued : occ x (queue_after child degrees queue) ≡ occ x queue =
          occ-queue_after x child degrees queue ∙ rw other refl in
        subst (λ q. IsSettled q (occ x done) (open_edges x done edges + occ x pending)) (sym queued)
          (subst (λ n. IsSettled (occ x queue) (occ x done) (open_edges x done edges + n)) fewer
            (r.settled x h))
  ]

  -- One child is released.
  release_one-IsRound :
      (child : Str) (pending : List Str) (degrees : Degrees) (queue done : List Str)
      → IsRound (child ∷ pending) degrees queue done
      → IsRound pending (degrees_after child degrees) (queue_after child degrees queue) done
  release_one-IsRound child pending degrees queue done r = record {
    counted = λ x h. counted_after child pending degrees queue done r x h;
    settled = λ x h. after-IsSettled child pending degrees queue done r x h;
    foreign =
        λ x h. ground (arith, occ-queue_after x child degrees queue, r.known x h, r.foreign x h);
    known = λ x h. ground (arith, r.known x h);
  }

  pub release-IsRound :
      (pending : List Str) (degrees : Degrees) (queue done : List Str)
      → IsRound pending degrees queue done
      → IsRound [] (release pending degrees queue).0 (release pending degrees queue).1 done
  unfolding release
  release-IsRound [] degrees queue done r = r
  release-IsRound (child ∷ pending) degrees queue done r =
      release-IsRound pending (degrees_after child degrees) (queue_after child degrees queue) done
        (release_one-IsRound child pending degrees queue done r)

  abbrev pub IsOnce : Type 0
  IsOnce = (x : Str) → (occ x names ≡ 0) ⊎ (occ x names ≡ 1)

  -- A name at the head of the queue is a known one, and not placed yet.
  pub head_lem :
      (name : Str) (degrees : Degrees) (queue done : List Str)
      → IsOnce
      → IsRound [] degrees (name ∷ queue) done
      → (occ name names ≡ 1) × (occ name done ≡ 0) × (open_edges name done edges ≡ 0)
  head_lem name degrees queue done once r =
      let same = (str_eq_iff name name).1 refl in
      let now : occ name (name ∷ queue) ≡ suc (occ name queue) = rw same refl in
      elim (once name) [
        | inl absent ↦ absurd (omega (arith, r.foreign name absent, now))
        | inr once_there ↦ elim (r.settled name once_there) [
          | inl (q, o) ↦ (once_there, omega (arith, q, now), omega (arith, o))
          | inr (q, o) ↦ absurd (omega (arith, q, now))
        ]
      ]

  moved :
      (x name : Str) (queue done : List Str)
      → occ x (name ∷ queue) + occ x done ≡ occ x queue + occ x (name ∷ done)
  moved x name queue done = ground arith

  moved-IsSettled :
      (q d o q2 d2 o2 : ℕ) → q + d ≡ q2 + d2 → o ≡ o2 → IsSettled q d o → IsSettled q2 d2 o2
  moved-IsSettled q d o q2 d2 o2 e f (inl (g, h)) = inl (omega (arith, e, g), omega (arith, f, h))
  moved-IsSettled q d o q2 d2 o2 e f (inr (g, h)) = inr (omega (arith, e, g), omega (arith, f, h))

  -- The next name of the queue is placed: its children are to be released.
  pub next-IsRound :
      (name : Str) (pending : List Str) (degrees : Degrees) (queue done : List Str)
      → IsOnce
      → ((x : Str) → occ x pending ≡ occ x (targets name edges))
      → ((x : Str) → occ x names ≡ 0 → occ x (targets name edges) ≡ 0)
      → IsRound [] degrees (name ∷ queue) done
      → IsRound pending degrees queue (name ∷ done)
  next-IsRound name pending degrees queue done once same_children inside r =
      let fresh = any-occ name done (head_lem name degrees queue done once r).1 in
      let closes : (x : Str)
          → open_edges x done edges + 0 ≡ open_edges x (name ∷ done) edges + occ x pending =
        λ x. omega (arith, open_edges-place x name done edges fresh, same_children x) in
      record {
        counted = λ x h. r.counted x h ∙ ap pos (closes x);
        settled =
            λ x h. moved-IsSettled _ _ _ _ _ _ (moved x name queue done) (closes x) (r.settled x h);
        foreign = λ x h. omega (arith, moved x name queue done, r.foreign x h);
        known = λ x h. omega (arith, same_children x, inside x h);
      }
