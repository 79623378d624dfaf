-- ===== src/Loader/Pool.antt =====
-- The instances of one plugin (internal/pluginloader/instance_pool.go). Each change of the pool's state is made under
-- its lock; between the two changes of a Borrow that creates an instance, others may come. Instances are numbers.
pub mod Borrowers
pub mod Sound
use cipher_lake.Prelude.{
  ℕ, suc, ◌+◌, ◌-◌, Bool, true, false, not, ◌||◌, Option, none, some, List, [], ◌∷◌, ltb, leb,
  is_nil, nat_beq, if◌then◌else◌,
}

-- `free` has the instance that came last at its head, where the slice has it at its end. `in_use` is never negative.
pub record InstancePool : Type 0 where
  pub max_size : ℕ
  pub free : List ℕ
  pub in_use : ℕ
  pub closed : Bool

-- `NewInstancePool`: a maximum that is not positive, here 0, is replaced by the default.
unfoldable pub new_instance_pool : ℕ → InstancePool
new_instance_pool max_size = record {
  max_size = if nat_beq max_size 0 then 16 else max_size;
  free = [];
  in_use = 0;
  closed = false;
}

abbrev pub try_acquire_slot : InstancePool → Bool
try_acquire_slot p = not (is_nil p.free) || ltb p.in_use p.max_size

pub data Waited : Type 0 where
  may_try : Waited
  wait_closed : Waited
  wait_exhausted : Waited
  wait_cancelled : Waited
  still_waiting : Waited

-- What the select of the wait sees: a context that is done, or a tick, with the pool then and whether the deadline is
-- over.
pub data Poll : Type 0 where
  ctx_done : Poll
  tick : InstancePool → Bool → Poll

abbrev pub poll_until : List Poll → Waited
poll_until [] = still_waiting
poll_until (ctx_done ∷ polls) = wait_cancelled
poll_until (tick p over ∷ polls) =
    let later = poll_until polls in
    if p.closed
    then wait_closed
    else if try_acquire_slot p
    then may_try
    else if over
    then wait_exhausted
    else later

-- The timeout is the lesser of the pool's and what remains until the deadline of the context.
abbrev pub wait_timeout : ℕ → Option ℕ → ℕ
wait_timeout borrow_timeout none = borrow_timeout
wait_timeout borrow_timeout (some remaining) =
    if ltb remaining borrow_timeout then remaining else borrow_timeout

unfoldable pub wait_free : InstancePool → ℕ → Option ℕ → List Poll → Waited
wait_free p borrow_timeout remaining polls =
    if try_acquire_slot p
    then may_try
    else if p.closed
    then wait_closed
    else if nat_beq (wait_timeout borrow_timeout remaining) 0
    then wait_exhausted
    else poll_until polls

pub data Taken : Type 0 where
  reused : ℕ → Taken
  to_create : Taken
  pool_closed : Taken
  pool_exhausted : Taken

abbrev pub take_from : List ℕ → InstancePool → InstancePool × Taken
take_from (inst ∷ free) p = (record p { free = free; in_use = suc p.in_use }, reused inst)
take_from [] p =
    if leb p.max_size p.in_use
    then (p, pool_exhausted)
    else (record p { in_use = suc p.in_use }, to_create)

-- What Borrow does under the lock.
unfoldable pub take_instance : InstancePool → InstancePool × Taken
take_instance p = if p.closed then (p, pool_closed) else take_from p.free p

-- A slot that is given up: where the count would be negative it is 0.
abbrev pub one_less : InstancePool → InstancePool
one_less p = record p { in_use = p.in_use - 1 }

-- `Return`, of an instance whose module is there and open, or is not.
unfoldable pub return_instance : ℕ → Bool → InstancePool → InstancePool
return_instance inst healthy p =
    if p.closed || not healthy then one_less p else record (one_less p) { free = inst ∷ p.free }

-- `DestroyAll`, with the instances to be destroyed.
unfoldable pub destroy_all : InstancePool → InstancePool × List ℕ
destroy_all p = (record p { closed = true; free = [] }, p.free)
