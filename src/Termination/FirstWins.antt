-- ===== src/Termination/FirstWins.antt =====
-- The first termination is the one that is seen, whatever is asked for later.
use lambda_durable_execution.Base.{◌≡◌, refl, ap, some, true, false, is_some, List, [], ◌∷◌, arith}
use lambda_durable_execution.Termination.{
  TerminationResult, TerminationManager, terminate, set_checkpoint_terminating_callback,
  new_termination_manager,
}

-- A series of requests.
pub terminate_all {ℓ} :
    {S : Type ℓ} → List TerminationResult → TerminationManager S × S → TerminationManager S × S
terminate_all [] p = p
terminate_all (r ∷ rs) p = terminate_all rs (terminate r p)

-- A terminated manager has sent its signal, and the other way round.
pub record IsSignalled {ℓ} {S : Type ℓ} (m : TerminationManager S) : Type 0 where
  pub sent : m.terminated ≡ is_some m.signal

pub terminate-IsSignalled {ℓ} :
    {S : Type ℓ} (r : TerminationResult) (m : TerminationManager S) (s : S)
    → IsSignalled m
    → IsSignalled (terminate r (m, s)).0
unfolding terminate
terminate-IsSignalled r m s h = ground arith

-- A manager that is not terminated takes the request.
pub terminate-signals {ℓ} :
    {S : Type ℓ} (r : TerminationResult) (m : TerminationManager S) (s : S)
    → m.terminated ≡ false
    → (terminate r (m, s)).0.signal ≡ some r
unfolding terminate
terminate-signals r m s h = simp h

pub terminate_again {ℓ} :
    {S : Type ℓ} (r : TerminationResult) (m : TerminationManager S) (s : S)
    → m.terminated ≡ true
    → terminate r (m, s) ≡ (m, s)
unfolding terminate
terminate_again r m s h = simp h

terminated_stays {ℓ} :
    {S : Type ℓ} (rs : List TerminationResult) (m : TerminationManager S) (s : S)
    → m.terminated ≡ true
    → terminate_all rs (m, s) ≡ (m, s)
unfolding terminate_all
terminated_stays [] m s h = refl
terminated_stays (r ∷ rs) m s h = rw (terminate_again r m s h) (terminated_stays rs m s h)

-- Of a series of requests to a fresh manager with its callback set, the first decides the signal,
-- and the callback has run exactly once.
pub first_wins {ℓ} :
    {S : Type ℓ} (f : S → S) (r : TerminationResult) (rs : List TerminationResult) (s : S)
    → let m = set_checkpoint_terminating_callback f (new_termination_manager S) in
      ((terminate_all (r ∷ rs) (m, s)).0.signal ≡ some r)
      × ((terminate_all (r ∷ rs) (m, s)).1 ≡ f s)
unfolding terminate_all terminate set_checkpoint_terminating_callback new_termination_manager
first_wins f r rs s =
    let e =
      terminated_stays rs (record { terminated = true; signal = some r; callback = some f }) (f s)
        refl in
    (ap (λ p. p.0.signal) e, ap (λ p. p.1) e)
