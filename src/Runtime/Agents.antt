-- ===== src/Runtime/Agents.antt =====
-- The interface `Agent` of agent/agent.go, which an application implements. A world `W` stands for
-- the agents' own state, the clock and the context.
use aixgo.Common.{Bool, Option, String}
use aixgo.Runtime.LocalRuntime.{RuntimeError}

pub data CallError (E : Type 0) : Type 0 where
  runtime_error : RuntimeError → CallError E
  agent_error : E → CallError E
  failed_to_start : String → E → CallError E
  started_but_not_ready : String → CallError E

pub data Reply (M E : Type 0) : Type 0 where
  replies : M → Reply M E
  refuses : CallError E → Reply M E

pub record AgentPackage : Type 1 where
  pub W : Type 0
  pub A : Type 0
  pub M : Type 0
  pub E : Type 0
  pub name : A → String
  pub ready : A → W → Bool
  pub execute : A → M → W → W × Reply M E
  pub start : A → W → W × Option E
  pub stop : A → W → W × Option E
