-- ===== src/Tests/TerminationTests.antt =====
-- Terminations: src/termination/manager.rs.
use lambda_durable_execution.Base.{◌≡◌, Bool, true, false, some, [], ◌∷◌}
use lambda_durable_execution.Termination.{
  TerminationReason, plain, with_message, set_checkpoint_terminating_callback,
  new_termination_manager,
}
use lambda_durable_execution.Termination.FirstWins.{terminate_all, first_wins}

first_wins_example :
    let m = set_checkpoint_terminating_callback (λ _. true) (new_termination_manager Bool) in
    let rs =
      plain TerminationReason.wait_scheduled
      ∷ with_message TerminationReason.serdes_failed "late"
      ∷ [] in
    ((terminate_all rs (m, false)).0.signal ≡ some (plain TerminationReason.wait_scheduled))
    × ((terminate_all rs (m, false)).1 ≡ true)
first_wins_example =
    first_wins (λ _. true) (plain TerminationReason.wait_scheduled)
      (with_message TerminationReason.serdes_failed "late" ∷ []) false
