-- ===== src/Catalog/V2Operations.antt =====
-- The operations of the version-2 catalog, crates/boundary/src/v2_catalog.rs, that the request handler
-- uses. Its state is a part of the world.
use agent_capability_gate.Prelude.{String, Bool, Option}
use agent_capability_gate.Json.{Value}

pub record V2Operations (W : Type 0) : Type 0 where
  pub refresh_all : W → Bool × W
  pub refresh_target : String → W → Bool × W
  pub public_tool : String → W → Option Value
  pub changed_reason : String → W → Option String
  pub list_json : W → Value
