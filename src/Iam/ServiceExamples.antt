-- ===== src/Iam/ServiceExamples.antt =====
-- Policies of a user (internal/iam/service.go): one is attached, and its deletion is refused.
use cipher_lake.Prelude.{
  Bool, true, false, List, [], ◌∷◌, bytes, str_eq, lookup, insert, remove, ◌≡◌, refl,
}
use cipher_lake.Iam.Types.{PolicyDocument}
use cipher_lake.Iam.Service.{
  new_iam_state, ServiceCall, create_user_call, create_policy_call, attach_user_call,
  delete_policy_call, has_entry, create_user, create_policy, attach_user_policy, delete_policy,
  ensure_policy_not_attached, run_service, apply_call,
}
use cipher_lake.Iam.Service.Attached.{IsKnown}
use cipher_lake.Iam.Service.Run.{run_service-new_iam_state-IsKnown}

abbrev document : PolicyDocument
document = record { version = bytes "2012-10-17"; id = []; statement = [] }

abbrev attached : List (Bool × ServiceCall)
attached =
    (true, create_user_call (bytes "ann"))
    ∷ (true, create_policy_call (bytes "read") document)
    ∷ (false, attach_user_call (bytes "ann") (bytes "read"))
    ∷ (true, attach_user_call (bytes "ann") (bytes "read"))
    ∷ (true, delete_policy_call (bytes "read"))
    ∷ []

-- The policy is still there, since its deletion was refused.
refused_while_attached :
    has_entry (bytes "read") (run_service attached new_iam_state).policies ≡ true
unfolding run_service apply_call create_user create_policy attach_user_policy delete_policy
    ensure_policy_not_attached lookup insert remove str_eq
refused_while_attached = refl

run_service-new_iam_state-IsKnown_example : IsKnown (run_service attached new_iam_state)
run_service-new_iam_state-IsKnown_example = run_service-new_iam_state-IsKnown attached
