-- ===== src/TaskQueue/Order/Sorted.antt =====
-- `sortTasks` of internal/taskqueue/store.go sorts, and loses nothing.
use mathlib.Core.List.{Perm}
use mathlib.Core.List.Perm
use cipher_lake.Prelude.{
  ℕ, zero, suc, ◌≤◌, true, false, List, [], ◌∷◌, length, ◌≡◌, refl, arith, if◌then◌else◌,
  Bool-cases, inl, inr, ap, subst, sym,
}
use cipher_lake.TaskQueue.Task.{Task}
use cipher_lake.TaskQueue.Order.{goes_before, select, sort_rounds, sort_tasks}

abbrev pub All {ℓ} : (Task → Type ℓ) → List Task → Type ℓ
All P [] = Unit
All P (t ∷ ts) = P t × All P ts

-- No task stands behind one that it goes before.
abbrev pub IsOrdered : List Task → Type 0
IsOrdered [] = Unit {0}
IsOrdered (t ∷ ts) = All (λ u. goes_before u t ≡ false) ts × IsOrdered ts

select-Perm : (x : Task) (ys : List Task) → Perm (x ∷ ys) ((select x ys).0 ∷ (select x ys).1)
unfolding select
select-Perm x [] = Perm.rfl
select-Perm x (y ∷ ys) = elim (Bool-cases (goes_before y x)) [
  | inl e ↦ rw e (Perm.trans (Perm.cons x (select-Perm y ys)) (Perm.swap (select y ys).0 x _))
  | inr e ↦ rw e (
      Perm.trans (Perm.swap y x ys)
        (Perm.trans (Perm.cons y (select-Perm x ys)) (Perm.swap (select x ys).0 y _)))
]

length-select : (x : Task) (ys : List Task) → length (select x ys).1 ≡ length ys
unfolding select
length-select x [] = refl
length-select x (y ∷ ys) = ap suc (length-select (if goes_before y x then y else x) ys)

sort_rounds-Perm : (n : ℕ) (ts : List Task) → Perm ts (sort_rounds n ts)
unfolding sort_rounds
sort_rounds-Perm zero ts = Perm.rfl
sort_rounds-Perm (suc n) [] = Perm.rfl
sort_rounds-Perm (suc n) (x ∷ xs) =
    Perm.trans (select-Perm x xs) (Perm.cons (select x xs).0 (sort_rounds-Perm n (select x xs).1))

goes_before_trans :
    (a b c : Task) → goes_before b a ≡ false → goes_before c b ≡ false → goes_before c a ≡ false
goes_before_trans a b c h k = ground arith

goes_before_asym : (a b : Task) → goes_before b a ≡ true → goes_before a b ≡ false
goes_before_asym a b h = ground arith

goes_before_refl : (a : Task) → goes_before a a ≡ false
goes_before_refl a = ground arith

-- A predicate that holds of all that goes in holds of all that comes out.
pub select-All {ℓ} :
    (P : Task → Type ℓ) (x : Task) (ys : List Task)
    → P x
    → All P ys
    → P (select x ys).0 × All P (select x ys).1
unfolding select
select-All P x [] px pys = (px, tt)
select-All P x (y ∷ ys) px pys = elim (Bool-cases (goes_before y x)) [
  | inl e ↦ let (pm, prest) = select-All P y ys pys.0 pys.1 in rw e (pm, (px, prest))
  | inr e ↦ let (pm, prest) = select-All P x ys px pys.1 in rw e (pm, (pys.0, prest))
]

sort_rounds-All {ℓ} :
    (P : Task → Type ℓ) (n : ℕ) (ts : List Task) → All P ts → All P (sort_rounds n ts)
unfolding sort_rounds
sort_rounds-All P zero ts h = h
sort_rounds-All P (suc n) [] h = tt
sort_rounds-All P (suc n) (x ∷ xs) h =
    let (pm, prest) = select-All P x xs h.0 h.1 in (pm, sort_rounds-All P n (select x xs).1 prest)

pub sort_tasks-All {ℓ} : (P : Task → Type ℓ) (ts : List Task) → All P ts → All P (sort_tasks ts)
unfolding sort_tasks
sort_tasks-All P ts h = sort_rounds-All P (length ts) ts h

select-swap :
    (x y : Task) (ys : List Task)
    → goes_before y x ≡ true
    → select x (y ∷ ys) ≡ ((select y ys).0, x ∷ (select y ys).1)
unfolding select
select-swap x y ys e = rw e refl

select-keep :
    (x y : Task) (ys : List Task)
    → goes_before y x ≡ false
    → select x (y ∷ ys) ≡ ((select x ys).0, y ∷ (select x ys).1)
unfolding select
select-keep x y ys e = rw e refl

-- Neither `x` nor a task of `rest` goes before `m`.
abbrev IsFirst : Task → Task × List Task → Type 0
IsFirst x p = (goes_before x p.0 ≡ false) × All (λ u. goes_before u p.0 ≡ false) p.1

select-IsFirst_nil : (x : Task) → IsFirst x (select x [])
unfolding select
select-IsFirst_nil x = (goes_before_refl x, tt)

-- What the inner loop picks goes behind nothing that it leaves, nor behind its start.
select-IsFirst : (x : Task) (ys : List Task) → IsFirst x (select x ys)
select-IsFirst x [] = select-IsFirst_nil x
select-IsFirst x (y ∷ ys) = elim (Bool-cases (goes_before y x)) [
  | inl e ↦
      let (h, rest) = select-IsFirst y ys in
      let x_behind = goes_before_trans (select y ys).0 y x h (goes_before_asym x y e) in
      subst (IsFirst x) (sym (select-swap x y ys e)) (x_behind, (x_behind, rest))
  | inr e ↦
      let (h, rest) = select-IsFirst x ys in
      subst (IsFirst x) (sym (select-keep x y ys e))
        (h, (goes_before_trans (select x ys).0 x y h e, rest))
]

sort_rounds-IsOrdered : (n : ℕ) (ts : List Task) → length ts ≤ n → IsOrdered (sort_rounds n ts)
unfolding sort_rounds
sort_rounds-IsOrdered zero [] h = tt
sort_rounds-IsOrdered zero (x ∷ xs) h = absurd (omega arith)
sort_rounds-IsOrdered (suc n) [] h = tt
sort_rounds-IsOrdered (suc n) (x ∷ xs) h = (
  sort_rounds-All (λ u. goes_before u (select x xs).0 ≡ false) n (select x xs).1
      (select-IsFirst x xs).1,
  sort_rounds-IsOrdered n (select x xs).1 (omega (arith, length-select x xs)),
)

-- The sorted list holds the same tasks, and in it no task stands behind one that it goes before.
pub sort_tasks_sorts : (ts : List Task) → IsOrdered (sort_tasks ts) × Perm ts (sort_tasks ts)
unfolding sort_tasks
sort_tasks_sorts ts =
    (sort_rounds-IsOrdered (length ts) ts (omega arith), sort_rounds-Perm (length ts) ts)

AllOf {ℓ} : (Task → Type ℓ) → Task × List Task → Type ℓ
AllOf P p = P p.0 × All P p.1

select-All_back_nil {ℓ} : (P : Task → Type ℓ) (x : Task) → AllOf P (select x []) → P x × Unit {ℓ}
unfolding AllOf select
select-All_back_nil P x h = (h.0, tt)

-- And a predicate that holds of all that comes out holds of all that went in.
select-All_back {ℓ} :
    (P : Task → Type ℓ) (x : Task) (ys : List Task) → AllOf P (select x ys) → P x × All P ys
unfolding AllOf
select-All_back P x [] h = select-All_back_nil P x h
select-All_back P x (y ∷ ys) h = elim (Bool-cases (goes_before y x)) [
  | inl e ↦
      let (pm, (px, prest)) = subst (AllOf P) (select-swap x y ys e) h in
      let (py, pys) = select-All_back P y ys (pm, prest) in (px, (py, pys))
  | inr e ↦
      let (pm, (py, prest)) = subst (AllOf P) (select-keep x y ys e) h in
      let (px, pys) = select-All_back P x ys (pm, prest) in (px, (py, pys))
]

sort_rounds-All_back {ℓ} :
    (P : Task → Type ℓ) (n : ℕ) (ts : List Task) → All P (sort_rounds n ts) → All P ts
unfolding sort_rounds AllOf
sort_rounds-All_back P zero ts h = h
sort_rounds-All_back P (suc n) [] h = tt
sort_rounds-All_back P (suc n) (x ∷ xs) h =
    select-All_back P x xs (h.0, sort_rounds-All_back P n (select x xs).1 h.1)

pub sort_tasks-All_back {ℓ} :
    (P : Task → Type ℓ) (ts : List Task) → All P (sort_tasks ts) → All P ts
unfolding sort_tasks
sort_tasks-All_back P ts h = sort_rounds-All_back P (length ts) ts h

-- No task goes before the first of the sorted list.
pub sort_tasks_first :
    (ts : List Task) (m : Task) (rest : List Task)
    → sort_tasks ts ≡ m ∷ rest
    → All (λ u. goes_before u m ≡ false) ts
sort_tasks_first ts m rest e =
    let ordered = subst IsOrdered e (sort_tasks_sorts ts).0 in
    sort_tasks-All_back (λ u. goes_before u m ≡ false) ts
      (subst (All (λ u. goes_before u m ≡ false)) (sym e) (goes_before_refl m, ordered.0))
