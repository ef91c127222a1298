-- ===== src/Runtime/Executor/Lifecycle.antt =====
-- The executor for any dispatcher: what ExecutePipeline returns, and the states of its life.
use mmo_server.Common.{
  ◌≡◌, ◌≢◌, refl, ap, ◌∙◌, ◌⊎◌, inl, inr, Bool, true, false, Bool-cases, List, [], ◌∷◌, ◌++◌,
  if◌then◌else◌, returned, thrown, logic_error,
}
use mmo_server.Runtime.Phase.{RuntimePhase}
use mmo_server.Runtime.Executor.{
  IJobDispatch, State, ExecutionResult, Executor, initialize, initialize_in, shutdown, shutdown_in,
  execute_phase, execute_phases, execute_in, execute_pipeline,
}

-- The dispatcher runs the phases one after the other and each returns true.
pub data Runs {D : Type 0} (i : IJobDispatch D) : List RuntimePhase → D → D → Type 0 where
  done : (d : D) → Runs i [] d d
  next :
      (phase : RuntimePhase) (phases : List RuntimePhase) (d d' d'' : D)
      → i.execute_phase d phase.id ≡ (true, d')
      → Runs i phases d' d''
      → Runs i (phase ∷ phases) d d''

-- Some phase returns false, after those before it have returned true.
pub record Fails {D : Type 0} (i : IJobDispatch D) (phases : List RuntimePhase) (d d' : D)
    : Type 0 where
  pub before : List RuntimePhase
  pub phase : RuntimePhase
  pub after : List RuntimePhase
  pub parts : phases ≡ before ++ phase ∷ after
  pub middle : D
  pub ran : Runs i before d middle
  pub failed : i.execute_phase middle phase.id ≡ (false, d')

module _ {D : Type 0} (i : IJobDispatch D) where
  phase_outcome :
      (phase : RuntimePhase) (d : D)
      → ((d' : D) × (i.execute_phase d phase.id ≡ (true, d')))
        ⊎ ((d' : D) × (i.execute_phase d phase.id ≡ (false, d')))
  phase_outcome phase d = elim (Bool-cases (i.execute_phase d phase.id).0) [
    | inl e ↦ inl ((i.execute_phase d phase.id).1, ap (λ b. (b, (i.execute_phase d phase.id).1)) e)
    | inr e ↦ inr ((i.execute_phase d phase.id).1, ap (λ b. (b, (i.execute_phase d phase.id).1)) e)
  ]

  -- One round of the loop on the dispatcher's answer.
  abbrev round : List RuntimePhase → Executor D → Bool × D → ExecutionResult × Executor D
  round phases x (ran, d) =
      elim (if ran then ExecutionResult.success else ExecutionResult.dispatch_failure) [
        | ExecutionResult.success ↦ execute_phases i phases (record x { job_dispatch = d })
        | failure ↦ (failure, record x { job_dispatch = d; state = State.initialized })
      ]

  round_lem :
      (phase : RuntimePhase) (phases : List RuntimePhase) (x : Executor D)
      → execute_phases i (phase ∷ phases) x
        ≡ round phases x (i.execute_phase x.job_dispatch phase.id)
  unfolding execute_phases execute_phase
  round_lem phase phases x = refl

  loop_outcome :
      (phases : List RuntimePhase) (x : Executor D)
      → ((d' : D) × Runs i phases x.job_dispatch d'
          × (execute_phases i phases x ≡ (
            ExecutionResult.success,
            record x { job_dispatch = d'; state = State.initialized },
          )))
        ⊎ ((d' : D) × Fails i phases x.job_dispatch d'
            × (execute_phases i phases x ≡ (
              ExecutionResult.dispatch_failure,
              record x { job_dispatch = d'; state = State.initialized },
            )))
  unfolding execute_phases
  loop_outcome [] x = inl (x.job_dispatch, done x.job_dispatch, refl)
  loop_outcome (phase ∷ phases) x = elim (phase_outcome phase x.job_dispatch) [
    | inr (d, e) ↦ inr (
      d,
      record {
        before = [];
        phase = phase;
        after = phases;
        parts = refl;
        middle = x.job_dispatch;
        ran = done x.job_dispatch;
        failed = e;
      },
      round_lem phase phases x ∙ ap (round phases x) e,
    )
    | inl (d, e) ↦ elim (loop_outcome phases (record x { job_dispatch = d })) [
      | inl (d', runs, e') ↦ inl (
        d',
        next phase phases x.job_dispatch d d' e runs,
        round_lem phase phases x ∙ ap (round phases x) e ∙ e',
      )
      | inr (d', f, e') ↦ inr (
        d',
        record {
          before = phase ∷ f.before;
          phase = f.phase;
          after = f.after;
          parts = ap (λ l. phase ∷ l) f.parts;
          middle = f.middle;
          ran = next phase f.before x.job_dispatch d f.middle e f.ran;
          failed = f.failed;
        },
        round_lem phase phases x ∙ ap (round phases x) e ∙ e',
      )
    ]
  ]

  -- ExecutePipeline on an executor that is neither created nor stopped returns, and leaves it
  -- initialized: either with success, when the dispatcher ran every phase of the pipeline in order
  -- and each returned true; or with a dispatch failure, when some phase returned false after all
  -- before it returned true, and then no phase after it is handed to the dispatcher.
  pub execute_pipeline_outcome :
      (x : Executor D)
      → x.state ≢ State.created
      → x.state ≢ State.stopped
      → ((d' : D) × Runs i x.pipeline.phases x.job_dispatch d'
          × (execute_pipeline i x
              ≡ returned (
                ExecutionResult.success,
                record x { job_dispatch = d'; state = State.initialized },
              )))
        ⊎ ((d' : D) × Fails i x.pipeline.phases x.job_dispatch d'
            × (execute_pipeline i x
                ≡ returned (
                  ExecutionResult.dispatch_failure,
                  record x { job_dispatch = d'; state = State.initialized },
                )))
  unfolding execute_pipeline
  execute_pipeline_outcome x started going =
      let runs = passes x.state refl started going in
      elim (loop_outcome x.pipeline.phases (record x { state = State.running })) [
        | inl (d', r, e) ↦ inl (d', r, runs ∙ ap returned e)
        | inr (d', f, e) ↦ inr (d', f, runs ∙ ap returned e)
      ]
    where
      passes :
          (st : State)
          → x.state ≡ st
          → x.state ≢ State.created
          → x.state ≢ State.stopped
          → execute_in i x.state x
            ≡ returned (execute_phases i x.pipeline.phases (record x { state = State.running }))
      passes State.created e a b = absurd (a e)
      passes State.stopped e a b = absurd (b e)
      passes State.initialized e a b = ap (λ st. execute_in i st x) e
      passes State.running e a b = ap (λ st. execute_in i st x) e
      passes State.stopping e a b = ap (λ st. execute_in i st x) e

  -- A created executor throws std::logic_error when it is asked to execute, and Shutdown stops an
  -- executor of any state for good: then another Shutdown changes nothing, the dispatcher is not shut
  -- down again, and Initialize and ExecutePipeline throw std::logic_error.
  executor_guards :
      (x : Executor D)
      → (x.state ≡ State.created → execute_pipeline i x ≡ thrown logic_error)
        × (shutdown i (shutdown i x) ≡ shutdown i x)
        × (initialize i (shutdown i x) ≡ thrown logic_error)
        × (execute_pipeline i (shutdown i x) ≡ thrown logic_error)
  unfolding execute_pipeline shutdown initialize
  executor_guards x =
      let at : (shutdown i x).state ≡ State.stopped = stops x.state refl in
      (
        (λ e. ap (λ st. execute_in i st x) e),
        ap (λ st. shutdown_in i st (shutdown i x)) at,
        ap (λ st. initialize_in i st (shutdown i x)) at,
        ap (λ st. execute_in i st (shutdown i x)) at,
      )
    where
      stops : (st : State) → x.state ≡ st → (shutdown_in i st x).state ≡ State.stopped
      stops State.stopped e = e
      stops State.created e = refl
      stops State.initialized e = refl
      stops State.running e = refl
      stops State.stopping e = refl
