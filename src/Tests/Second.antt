-- ===== src/Tests/Second.antt =====
-- A version-2 configuration with two upstream targets.
use agent_capability_gate.Prelude.{
  ◌≡◌, refl, arith, true, false, none, [], ◌∷◌, All, get, contains_key,
}
use agent_capability_gate.Config.{UpstreamMcpTarget, McpExposure, proxy, ValidatedConfig}
use agent_capability_gate.Raw.Targets.Fits.{McpFits}
use agent_capability_gate.Raw.Validate.WellFormed.{WellFormed}
use agent_capability_gate.Catalog.V2.{CacheFiles, CatalogState}
use agent_capability_gate.Catalog.V2.Refresh.{refresh_target}
use agent_capability_gate.Catalog.V2.Others.{Unchanged, refresh_target-Unchanged}
use agent_capability_gate.Tests.Samples.{plain_engine}
use agent_capability_gate.Tests.Loaded.{loaded}
use agent_capability_gate.Tests.Served.{upstream, well_formed}
use agent_capability_gate.Tests.Remote.{server}

abbrev mirror : UpstreamMcpTarget
mirror = record server { id = "mirror" }

abbrev commits : McpExposure
commits = record {
  public_name = "commits";
  target_id = "forge";
  upstream_tool = "list_commits";
  mode = proxy;
}

abbrev mirrored : McpExposure
mirrored = record {
  public_name = "mirrored";
  target_id = "mirror";
  upstream_tool = "list_commits";
  mode = proxy;
}

abbrev config : ValidatedConfig
config = record loaded {
  version = 2;
  upstream_targets = ("forge", server) ∷ ("mirror", mirror) ∷ [];
  tools = [];
  v2_exposures = ("commits", commits) ∷ ("mirrored", mirrored) ∷ [];
  v3_exposures = [];
}

mirror_fits : All McpFits config.upstream_targets
mirror_fits =
    let (_, a, b, d, e) = well_formed.mcp_fit.0 in (well_formed.mcp_fit.0, ((refl, a, b, d, e), tt))

config-WellFormed : WellFormed config
unfolding contains_key
config-WellFormed = record {
  version_range = (omega arith, omega arith);
  request_range = well_formed.request_range;
  depth_range = well_formed.depth_range;
  cli_fit = well_formed.cli_fit;
  mcp_fit = mirror_fits;
  tools_sound = tt;
  v2_fit = ((refl, (refl, tt)), ((refl, refl, refl, tt), ((refl, refl, refl, tt), tt)));
  v3_fit = (tt, tt);
  of_version = (λ h. absurd (cc h), λ h. refl);
}

abbrev no_files : CacheFiles (Unit {0})
no_files = record { load = λ t. none; store = λ t snapshot w. (false, w) }

abbrev before : CatalogState
before = record { active = []; cached = []; changed = []; unavailable = [] }

-- The target mirror is asked and lists a tool; commits, of the target forge, stays as it was.
refresh_target-Unchanged_example :
    Unchanged "commits" before
      (refresh_target plain_engine upstream no_files config "mirror" before tt).0
unfolding get
refresh_target-Unchanged_example =
    refresh_target-Unchanged plain_engine upstream no_files config "mirror" "commits" commits before
      tt config-WellFormed refl refl

-- What mirror lists is active under its public name.
lists_mirrored :
    contains_key "mirrored"
      (refresh_target plain_engine upstream no_files config "mirror" before tt).0.active
    ≡ true
unfolding contains_key refresh_target
lists_mirrored = refl
