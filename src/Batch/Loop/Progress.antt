-- ===== src/Batch/Loop/Progress.antt =====
-- The loop of src/context/durable_context/map/execute.rs ends, and with what.
use lambda_durable_execution.Base.{
  ℕ, zero, suc, ◌+◌, ◌≤◌, ◌<◌, ◌≡◌, refl, ap, ◌∙◌, ◌≢◌, ◌⊎◌, inl, inr, true, false, some, List, [],
  ◌∷◌, ◌++◌, arith, Bool-cases, length, is_empty, length-append,
}
use lambda_durable_execution.Base.Result.{Result, ok, err}
use lambda_durable_execution.Errors.{DurableError}
use lambda_durable_execution.Batch.{Percent, CompletionConfig, reached, should_continue_batch}
use lambda_durable_execution.Batch.Loop.{
  LoopState, LoopEnd, returned, unreachable, completed, indices, take_at, may_start, start_items,
  record_result, join_next, is_finished_loop, finish_loop, run_loop, initial_loop,
}

length-indices : (i n : ℕ) → length (indices i n) ≡ n
length-indices i zero = refl
length-indices i (suc n) = ap suc (length-indices (i + 1) n)

length-take_at : (n i : ℕ) (js : List ℕ) → length (take_at n i js).1 ≡ length js
unfolding take_at
length-take_at n i [] = ground arith
length-take_at zero i (j ∷ js) = refl
length-take_at (suc n) i (j ∷ js) = ap suc (length-take_at n j js)

not_empty-snoc : (xs : List ℕ) (x : ℕ) → is_empty (xs ++ x ∷ []) ≡ false
not_empty-snoc [] x = refl
not_empty-snoc (y ∷ xs) x = refl

-- How many indices there are, wherever they stand.
abbrev pub size : {T : Type 0} → LoopState T → ℕ
size st = length st.waiting + length st.started + completed st

module _ {P T : Type 0} (percent : Percent P) (config : CompletionConfig P)
    (total max_concurrency : ℕ) (result : ℕ → Result DurableError T) where
  -- What starting children changes.
  record Starts (w : List ℕ) (st st' : LoopState T) : Type 0 where
    all : size st' ≡ length w + length st.started + completed st
    successes : st'.successes ≡ st.successes
    failures : st'.failures ≡ st.failures
    grows : is_empty st.started ≡ false → is_empty st'.started ≡ false

  start_items-Starts :
      (w : List ℕ) (st : LoopState T)
      → Starts w st (start_items percent config total max_concurrency result w st)
  unfolding start_items
  start_items-Starts [] st = record {
    all = refl;
    successes = refl;
    failures = refl;
    grows = λ h. h;
  }
  start_items-Starts (i ∷ w) st =
      elim (Bool-cases (may_start percent config total max_concurrency result st)) [
        | inl go ↦
            let more = start_items-Starts w (record st { started = st.started ++ i ∷ [] }) in
            rw (go) (record {
              all = omega (arith, more.all, length-append st.started (i ∷ []));
              successes = more.successes;
              failures = more.failures;
              grows = λ h. more.grows (not_empty-snoc st.started i);
            })
        | inr stop ↦
            rw (stop) (record { all = refl; successes = refl; failures = refl; grows = λ h. h })
      ]

  empty_length : (xs : List ℕ) → is_empty xs ≡ true → length xs ≡ 0
  empty_length [] h = refl
  empty_length (x ∷ xs) h = absurd (cc h)

  not_empty_length : (xs : List ℕ) → 1 ≤ length xs → is_empty xs ≡ false
  not_empty_length [] h = absurd (omega arith)
  not_empty_length (x ∷ xs) h = refl

  -- The loop is not at its end.
  record Open (st : LoopState T) : Type 0 where
    some_left : completed st ≢ total
    unreached : reached config.min_successful (length st.successes) ≡ false
    tolerated : should_continue_batch percent (length st.failures) total config ≡ true

  is_finished_loop-Open :
      (st : LoopState T)
      → is_finished_loop percent config total max_concurrency result st ≡ false
      → Open st
  unfolding is_finished_loop
  is_finished_loop-Open st h = record {
    some_left = ground arith;
    unreached = ground arith;
    tolerated = ground arith;
  }

  may_start-Open :
      (st : LoopState T)
      → Open st
      → length st.started < max_concurrency
      → may_start percent config total max_concurrency result st ≡ true
  unfolding may_start
  may_start-Open st o h = rw (o.unreached, o.tolerated) (ground arith)

  starts_something :
      (w : List ℕ) (st : LoopState T)
      → Open st
      → 1 ≤ max_concurrency
      → length w + length st.started + completed st ≡ total
      → is_empty (start_items percent config total max_concurrency result w st).started ≡ false
  unfolding start_items
  starts_something [] st o m e =
      let left = o.some_left in not_empty_length st.started (omega (arith, left))
  starts_something (i ∷ w) st o m e = elim (Bool-cases (is_empty st.started)) [
    | inl none_running ↦
        rw (may_start-Open st o (omega (arith, empty_length st.started none_running))) (
          (start_items-Starts w (record st { started = st.started ++ i ∷ [] })).grows
            (not_empty-snoc st.started i))
    | inr running ↦ (start_items-Starts (i ∷ w) st).grows running
  ]

  -- One child fewer is running, and one more has completed.
  record Joins (js : List ℕ) (st st' : LoopState T) : Type 0 where
    waiting : st'.waiting ≡ st.waiting
    running : length st'.started ≡ length js
    one_more : completed st' ≡ suc (completed st)

  record_result-Joins :
      (i : ℕ) (r : Result DurableError T) (js ks : List ℕ) (st : LoopState T)
      → length ks ≡ length js
      → Joins js st (
          record_result percent config total max_concurrency result i r
            (record st { started = ks }))
  record_result-Joins i (ok v) js ks st h = record {
    waiting = refl;
    running = h;
    one_more = omega (arith, length-append st.successes ((i, v) ∷ []));
  }
  record_result-Joins i (err e) js ks st h = record {
    waiting = refl;
    running = h;
    one_more = omega (arith, length-append st.failures ((i, e) ∷ []));
  }

  join_next-Joins :
      (pick i : ℕ) (js : List ℕ) (st : LoopState T)
      → Joins js st (join_next percent config total max_concurrency result pick i js st)
  unfolding join_next
  join_next-Joins pick i js st =
      record_result-Joins (take_at pick i js).0 (result (take_at pick i js).0) js
        (take_at pick i js).1 st (length-take_at pick i js)

  list_cases : (xs : List ℕ) → (xs ≡ []) ⊎ ((i : ℕ) × (js : List ℕ) × (xs ≡ i ∷ js))
  list_cases [] = inl refl
  list_cases (x ∷ xs) = inr (x, xs, refl)

  -- The loop returns, from a state at its end that accounts for every item.
  pub record Returns (o : LoopEnd T) : Type 0 where
    pub state : LoopState T
    pub result_of : o ≡ returned (finish_loop percent config total max_concurrency result state)
    pub finished : is_finished_loop percent config total max_concurrency result state ≡ true
    pub accounted : size state ≡ total

  run_loop-again :
      (picks : ℕ → ℕ) (fuel : ℕ) (st : LoopState T) (i : ℕ) (js : List ℕ)
      → let st1 = start_items percent config total max_concurrency result st.waiting st in
        let st2 = join_next percent config total max_concurrency result (picks fuel) i js st1 in
        st1.started ≡ i ∷ js
        → is_finished_loop percent config total max_concurrency result st2 ≡ false
        → run_loop percent config total max_concurrency result picks (suc fuel) st
          ≡ run_loop percent config total max_concurrency result picks fuel st2
  unfolding run_loop
  run_loop-again picks fuel st i js running again = rw (running, run_loop) (rw (again) refl)

  Open-Returns :
      (picks : ℕ → ℕ) (fuel : ℕ) (st : LoopState T)
      → Open st
      → 1 ≤ max_concurrency
      → size st ≡ total
      → total ≤ fuel + completed st
      → Returns (run_loop percent config total max_concurrency result picks fuel st)
  unfolding run_loop
  Open-Returns picks zero st o m e f = absurd (o.some_left (omega arith))
  Open-Returns picks (suc fuel) st o m e f =
      let st1 = start_items percent config total max_concurrency result st.waiting st in
      let s = start_items-Starts st.waiting st in
      let something = starts_something st.waiting st o m e in
      elim (list_cases st1.started) [
        | inl none_running ↦ absurd (cc (ap is_empty none_running, something))
        | inr (i, js, running) ↦
            let st2 = join_next percent config total max_concurrency result (picks fuel) i js st1 in
            let j = join_next-Joins (picks fuel) i js st1 in
            let same : completed st1 ≡ completed st =
              omega (arith, ap length s.successes, ap length s.failures) in
            let whole : size st2 ≡ total =
              omega (arith, ap length j.waiting, j.running, j.one_more, s.all, ap length running) in
            elim (Bool-cases (is_finished_loop percent config total max_concurrency result st2)) [
              | inl over ↦ record {
                state = st2;
                result_of = rw (running, run_loop) (rw (over) refl);
                finished = over;
                accounted = whole;
              }
              | inr again ↦
                  let rest =
                    Open-Returns picks fuel st2 (is_finished_loop-Open st2 again) m whole
                      (omega (arith, j.one_more, same)) in
                  record {
                    state = rest.state;
                    result_of = run_loop-again picks fuel st i js running again ∙ rest.result_of;
                    finished = rest.finished;
                    accounted = rest.accounted;
                  }
            ]
      ]

  -- With at least one item, at least one child at a time, a minimum of successes (if any) that is not
  -- zero, and no failures tolerated to be too many, the loop returns within as many rounds as there
  -- are items, whatever the children give and in whatever order they finish. It returns from a state
  -- at its end in which each item is completed, running, or has not been started.
  pub run_loop-Returns :
      (picks : ℕ → ℕ)
      → 1 ≤ total
      → 1 ≤ max_concurrency
      → reached config.min_successful 0 ≡ false
      → should_continue_batch percent 0 total config ≡ true
      → Returns (
          run_loop percent config total max_concurrency result picks total
            (initial_loop percent config total max_concurrency result))
  unfolding initial_loop
  run_loop-Returns picks t m r c =
      Open-Returns picks total (initial_loop percent config total max_concurrency result)
        (record { some_left = λ e. absurd (omega (arith, e)); unreached = r; tolerated = c }) m
        (omega (arith, length-indices 0 total)) (omega arith)

  starts_nothing :
      (w : List ℕ) (st : LoopState T)
      → reached config.min_successful (length st.successes) ≡ true
      → st.started ≡ []
      → (start_items percent config total max_concurrency result w st).started ≡ []
  unfolding start_items may_start
  starts_nothing [] st h e = e
  starts_nothing (i ∷ w) st h e = ground (arith, h, e)

  -- Where the minimum of successes is zero, the loop starts no child and reaches `unreachable!` in its
  -- first round, however many items there are.
  pub run_loop-unreachable :
      (picks : ℕ → ℕ) (fuel : ℕ)
      → config.min_successful ≡ some 0
      → run_loop percent config total max_concurrency result picks
          (suc fuel)
          (initial_loop percent config total max_concurrency result)
        ≡ unreachable
  unfolding run_loop initial_loop
  run_loop-unreachable picks fuel h =
      rw
        (
          starts_nothing (indices 0 total)
              (initial_loop percent config total max_concurrency result) (ap (λ m. reached m 0) h)
              refl,
          run_loop,
        )
        refl
