-- ===== src/TaskQueue/Task.antt =====
-- `Task` of internal/taskqueue/task.go. The zero time is `none`; a number of attempts that is not
-- positive is 0; the error text is what it says, not how it is printed. A stored task is a clone, and
-- so a value.
use text.Mathlib.Text.{◌==◌}
use cipher_lake.Prelude.{
  ◌⊎◌, inl, inr, ℕ, Bool, false, Option, none, some, List, [], ◌∷◌, String, ℤ, pos, ltb, nat_beq,
  if◌then◌else◌, ◌+◌,
}

pub data Status : Type 0 where
  pending processing completed failed dead_letter : Status

pub Status-discrete : Discrete Status
Status-discrete = hlevel

pub data TaskError : Type 0 where
  no_error deadline_exceeded : TaskError
  no_handler : String → TaskError
  handler_failed : String → TaskError
  handler_panicked : String → TaskError
  cleanup_failed : TaskError

pub record Task : Type 0 where
  pub id : String
  pub kind : String
  pub payload : List ℕ
  pub priority : ℤ
  pub status : Status
  pub attempts : ℕ
  pub max_attempts : ℕ
  pub created_at : ℕ
  pub updated_at : ℕ
  pub deadline : Option ℕ
  pub error : TaskError

pub data InvalidTask : Type 0 where
  id_required kind_required : InvalidTask

-- `Validate`: the task with its attempts put right, or what is missing.
unfoldable pub validate : Task → Task × Option InvalidTask
validate t =
    if t.id == ""
    then (t, some id_required)
    else if t.kind == ""
    then (t, some kind_required)
    else ((if nat_beq t.max_attempts 0 then record t { max_attempts = 1 } else t), none)

abbrev pub is_expired : Task → ℕ → Bool
is_expired t now = elim t.deadline [ none ↦ false | some deadline ↦ ltb deadline now ]

pub data TaskOption : Type 0 where
  with_retry : ℕ → TaskOption
  with_deadline : Option ℕ → TaskOption
  with_deadline_after : ℕ → ℕ → TaskOption
  with_priority : ℤ → TaskOption

-- `with_deadline_after now d` is built from the clock's reading at the call.
pub apply_option : Task → TaskOption → Task
apply_option t (with_retry n) = if nat_beq n 0 then t else record t { max_attempts = n }
apply_option t (with_deadline deadline) = record t { deadline = deadline }
apply_option t (with_deadline_after now d) = record t { deadline = some (now + d) }
apply_option t (with_priority p) = record t { priority = p }

pub apply_options : Task → List TaskOption → Task
apply_options t [] = t
apply_options t (o ∷ os) = apply_options (apply_option t o) os

-- `NewTask`: the payload is in its JSON form, and the fresh id is given.
pub new_task : String → String → List ℕ → ℕ → List TaskOption → InvalidTask ⊎ Task
new_task id kind payload now opts =
    let fresh : Task = record {
      id = id;
      kind = kind;
      payload = payload;
      priority = pos 0;
      status = pending;
      attempts = 0;
      max_attempts = 3;
      created_at = now;
      updated_at = now;
      deadline = none;
      error = no_error;
    } in
    let (t, missing) = validate (apply_options fresh opts) in
    elim missing [ none ↦ inr t | some e ↦ inl e ]
