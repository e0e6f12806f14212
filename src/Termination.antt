-- ===== src/Termination.antt =====
-- src/termination/manager.rs. The callback is a function on the state `S` that it changes; the watch
-- channel is the value last sent. What `wait_for_termination` returns is the value of the channel
-- once it is there.
pub mod FirstWins
use lambda_durable_execution.Base.{String, Option, none, some, Bool, true, false, if◌then◌else◌}
use lambda_durable_execution.Errors.{DurableError, display}

pub data TerminationReason : Type 0 where
  retry_scheduled wait_scheduled callback_pending invoke_pending : TerminationReason
  checkpoint_failed serdes_failed context_validation_error : TerminationReason
  all_operations_idle handler_completed handler_failed : TerminationReason

pub record TerminationResult : Type 0 where
  pub reason : TerminationReason
  pub message : Option String
  pub error : Option DurableError

unfoldable pub plain : TerminationReason → TerminationResult
plain r = record { reason = r; message = none; error = none }

unfoldable pub with_message : TerminationReason → String → TerminationResult
with_message r m = record { reason = r; message = some m; error = none }

unfoldable pub with_error : TerminationReason → DurableError → TerminationResult
with_error r e = record { reason = r; message = some (display e); error = some e }

pub record TerminationManager {ℓ} (S : Type ℓ) : Type ℓ where
  pub terminated : Bool
  pub signal : Option TerminationResult
  pub callback : Option (S → S)

module _ {ℓ} {S : Type ℓ} where
  unfoldable pub set_checkpoint_terminating_callback :
      (S → S) → TerminationManager S → TerminationManager S
  set_checkpoint_terminating_callback f m = record m { callback = some f }

  -- The callback runs before the signal is sent.
  unfoldable pub terminate : TerminationResult → TerminationManager S × S → TerminationManager S × S
  terminate r (m, s) =
      if m.terminated
      then (m, s)
      else let s' : S = elim m.callback [ none ↦ s | some f ↦ f s ] in
        (record m { terminated = true; signal = some r }, s')

  unfoldable pub terminate_for_retry : TerminationManager S × S → TerminationManager S × S
  unfolding terminate plain
  terminate_for_retry = terminate (plain retry_scheduled)

  unfoldable pub terminate_for_wait : TerminationManager S × S → TerminationManager S × S
  unfolding terminate plain
  terminate_for_wait = terminate (plain wait_scheduled)

  unfoldable pub terminate_for_callback : TerminationManager S × S → TerminationManager S × S
  unfolding terminate plain
  terminate_for_callback = terminate (plain callback_pending)

  unfoldable pub terminate_for_invoke : TerminationManager S × S → TerminationManager S × S
  unfolding terminate plain
  terminate_for_invoke = terminate (plain invoke_pending)

  unfoldable pub terminate_for_checkpoint_failure :
      DurableError → TerminationManager S × S → TerminationManager S × S
  unfolding terminate with_error
  terminate_for_checkpoint_failure e = terminate (with_error checkpoint_failed e)

  unfoldable pub terminate_for_serdes_failure :
      String → TerminationManager S × S → TerminationManager S × S
  unfolding terminate with_message
  terminate_for_serdes_failure m = terminate (with_message serdes_failed m)

  unfoldable pub terminate_for_context_validation :
      DurableError → TerminationManager S × S → TerminationManager S × S
  unfolding terminate with_error
  terminate_for_context_validation e = terminate (with_error context_validation_error e)

unfoldable pub new_termination_manager {ℓ} : (S : Type ℓ) → TerminationManager S
new_termination_manager S = record { terminated = false; signal = none; callback = none }
