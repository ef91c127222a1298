-- ===== src/Runtime/Phase.antt =====
-- runtime/RuntimePhase, runtime/RuntimePipeline and runtime/RuntimeContext: what one tick runs
-- through, and the context that its tasks share.
use mmo_server.Common.{ℕ, List, [], ◌∷◌}

pub data RuntimePhaseId : Type 0 where
  input simulation post_simulation output : RuntimePhaseId

-- `static_cast<std::size_t>(phase)`
abbrev pub phase_index : RuntimePhaseId → ℕ
phase_index RuntimePhaseId.input = 0
phase_index RuntimePhaseId.simulation = 1
phase_index RuntimePhaseId.post_simulation = 2
phase_index RuntimePhaseId.output = 3

pub record RuntimePhase : Type 0 where
  pub id : RuntimePhaseId

pub record RuntimePipeline : Type 0 where
  pub phases : List RuntimePhase

-- The default member initialiser of `phases`.
abbrev pub default_pipeline : RuntimePipeline
default_pipeline = record {
  phases =
      record { id = RuntimePhaseId.input }
      ∷ record { id = RuntimePhaseId.simulation }
      ∷ record { id = RuntimePhaseId.post_simulation }
      ∷ record { id = RuntimePhaseId.output }
      ∷ [];
}

pub data RuntimeMode : Type 0 where
  initializing running stopping stopped : RuntimeMode

pub record RuntimeContext : Type 0 where
  pub tick_id : ℕ
  pub delta_time_ms : ℕ
  pub mode : RuntimeMode
  pub worker_count : ℕ

abbrev pub default_context : RuntimeContext
default_context = record {
  tick_id = 0;
  delta_time_ms = 0;
  mode = RuntimeMode.initializing;
  worker_count = 0;
}
