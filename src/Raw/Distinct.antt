-- ===== src/Raw/Distinct.antt =====
-- What serde's maps are by their type: no key stands twice.
use agent_capability_gate.Prelude.{Option, none, some, [], All, Map, DistinctKeys, or_default}
use agent_capability_gate.Raw.{RawRestriction, RawExposure, RawConfig}

abbrev pub DistinctRestriction : Option RawRestriction → Type 0
DistinctRestriction none = Unit
DistinctRestriction (some r) =
    DistinctKeys (or_default r.fixed []) × DistinctKeys (or_default r.properties [])

abbrev pub DistinctExposures : Map RawExposure → Type 0
DistinctExposures exposures = All (λ e. DistinctRestriction e.1.restrict) exposures

-- The maps of the exposures in a configuration are maps.
abbrev pub FromMaps : RawConfig → Type 0
FromMaps raw = All (λ e. DistinctExposures (or_default e.1.expose [])) raw.targets
