-- ===== src/Catalog/Files/Definitions.antt =====
-- `UpstreamDefinitionCache` of crates/boundary/src/upstream_definition_cache.rs: a file of upstream
-- definitions for each target. A path is joined with one slash.
use agent_capability_gate.Prelude.{
  ℕ, ◌≡◌, refl, ap, ◌∙◌, String, ◌==◌, Bool, true, false, not, ◌||◌, ◌&&◌, Option, none, some, [],
  ◌∷◌, map, length, is_empty, Map, get, ltb, eqb, pos, and_true, eq_iff, if◌then◌else◌, Bool-cases,
  inl, inr,
}
use agent_capability_gate.Json.{
  Value, null, bool, number, string, array, object, of_fields-fields, as_object, as_str, as_number,
  of_map, of_list, is_some_and, fields-of_fields, ◌>>?◌,
}
use agent_capability_gate.Json.Numbers.{int, as_u64}
use agent_capability_gate.Diagnostics.{max_tools, ◌/+◌}
use agent_capability_gate.Config.{UpstreamMcpTarget}
use agent_capability_gate.Catalog.Files.{
  cache_home, Storage, Reliable, Codec, ReadsBack, cache_path, read_value, write_value,
  read_value-write_value,
}
use agent_capability_gate.Catalog.Files.Digest.{sha256_hex}

pub record UpstreamDefinitionCache : Type 0 where
  pub directory : String
  pub target_id : String
  pub identity : String
  pub persistent : Bool

abbrev decimal_json : ℕ → Value
decimal_json n = number (int (pos n))

abbrev pub identity_json : UpstreamMcpTarget → Value
identity_json target = of_map (
    ("args", of_list (map string target.args))
    ∷ ("command", string target.command)
    ∷ ("cwd", string target.cwd)
    ∷ ("id", string target.id)
    ∷ (
      "limits",
      of_map (
          ("output_bytes", decimal_json target.limits.output_bytes)
          ∷ ("stderr_bytes", decimal_json target.limits.stderr_bytes)
          ∷ ("stdout_bytes", decimal_json target.limits.stdout_bytes)
          ∷ ("timeout_ms", decimal_json target.limits.timeout_ms)
          ∷ []),
    )
    ∷ [])

-- Only a target whose launch holds nothing that may be secret is cached.
abbrev pub is_persistent : UpstreamMcpTarget → Bool
is_persistent target =
    is_empty target.args
    && (is_empty target.environment.inherit
        && (is_empty target.environment.inherited_values && is_empty target.environment.set))

-- `UpstreamDefinitionCache::new`; none is its error.
unfoldable pub new :
    Codec → Option String → Option String → UpstreamMcpTarget → Option UpstreamDefinitionCache
unfolding sha256_hex
new codec xdg home target =
    if is_persistent target
    then (cache_home xdg home >>? λ parent. codec.encode (identity_json target) >>? λ encoded.
        let identity = sha256_hex encoded in
        some (record {
          directory = parent /+ "mcp-boundary" /+ "catalog-v3" /+ identity;
          target_id = target.id;
          identity = identity;
          persistent = true;
        }))
    else some (record { directory = ""; target_id = target.id; identity = ""; persistent = false })

-- A definition under its own name.
abbrev pub is_named : String → Option (Map Value) → Bool
is_named name o = is_some_and (o >>? get "name" >>? as_str) (λ s. s == name)

abbrev pub read_tool : String → Value → Option Value
read_tool name v =
    if is_named name (as_object v) then as_object v >>? (λ tool. some (of_map tool)) else none

abbrev pub with_tool : String → Option Value → Option (Map Value) → Option (Map Value)
with_tool name (some tool) (some rest) = some ((name, tool) ∷ rest)
with_tool name _ _ = none

unfoldable pub read_tools : Map Value → Option (Map Value)
unfolding get
read_tools [] = some []
read_tools ((name, v) ∷ m) = with_tool name (read_tool name v) (read_tools m)

abbrev pub all_named : Map Value → Bool
all_named [] = true
all_named ((name, v) ∷ m) = is_named name (as_object v) && all_named m

module _ (c : UpstreamDefinitionCache) where
  abbrev pub document : Map Value → Value
  document tools = of_map (
      ("format_version", number (int (pos 3)))
      ∷ ("identity", string c.identity)
      ∷ ("target", string c.target_id)
      ∷ ("upstream_tools", of_map tools)
      ∷ [])

  abbrev pub is_current : Map Value → Bool
  is_current m =
      is_some_and (get "format_version" m >>? as_number >>? as_u64) (λ n. eqb n 3)
      && is_some_and (get "target" m >>? as_str) (λ s. s == c.target_id)
      && is_some_and (get "identity" m >>? as_str) (λ s. s == c.identity)

  abbrev pub bounded_tools : Map Value → Option (Map Value)
  bounded_tools tools = if ltb max_tools (length tools) then none else read_tools tools

  unfoldable pub read_document : Value → Option (Map Value)
  unfolding get read_tools
  read_document v = as_object v >>? λ m.
      if is_current m then get "upstream_tools" m >>? as_object >>? bounded_tools else none

  module _ {W : Type 0} (storage : Storage W) (codec : Codec) where
    unfoldable pub load : W → Option (Map Value)
    unfolding cache_path read_value read_document
    load w =
        if c.persistent
        then (cache_path c.directory c.target_id >>? λ path.
            read_value storage codec path w >>? read_document)
        else none

    abbrev pub store_at : Option String → Map Value → W → Bool × W
    store_at none tools w = (false, (storage.create_dir_all c.directory w).1)
    store_at (some path) tools w = write_value storage codec c.directory path (document tools) w

    -- A cache that is not persistent stores nothing, and reports success.
    unfoldable pub store : Map Value → W → Bool × W
    unfolding cache_path get
    store tools w =
        if c.persistent
        then if ltb max_tools (length tools) || not (all_named tools)
          then (false, w)
          else store_at (cache_path c.directory c.target_id) tools w
        else (true, w)

read_tool-named :
    (name : String) (v : Value) → is_named name (as_object v) ≡ true → read_tool name v ≡ some v
unfolding get
read_tool-named name (object fs) h = rw h (ap (λ f. some (object f)) (of_fields-fields fs))
read_tool-named name null h = cc
read_tool-named name (bool b) h = cc
read_tool-named name (number n) h = cc
read_tool-named name (string s) h = cc
read_tool-named name (array vs) h = cc

read_tools-named : (tools : Map Value) → all_named tools ≡ true → read_tools tools ≡ some tools
unfolding read_tools get
read_tools-named [] h = refl
read_tools-named ((name, v) ∷ tools) h =
    let (here, rest) = and_true (is_named name (as_object v)) (all_named tools) h in
    rw (read_tool-named name v here, read_tools-named tools rest) refl

module _ (c : UpstreamDefinitionCache) where
  read_document-document :
      (tools : Map Value)
      → ltb max_tools (length tools) ≡ false
      → all_named tools ≡ true
      → read_document c (document c tools) ≡ some tools
  unfolding read_document get
  read_document-document tools few named =
      let same : (c.identity == c.identity) ≡ true = (eq_iff c.identity c.identity).1 refl in
      let here : (c.target_id == c.target_id) ≡ true = (eq_iff c.target_id c.target_id).1 refl in
      rw (here, same, fields-of_fields tools, few) (read_tools-named tools named)

  module _ {W : Type 0} (storage : Storage W) (codec : Codec) (reliable : Reliable storage) where
    -- On a reliable file system, where the JSON that is written is read back as it was: after `store`, `load`
    -- gives exactly the stored definitions if the cache is persistent and `store` reports success, and
    -- what it gave before otherwise, whatever the definitions are.
    pub load-store_tools :
        (tools : Map Value) (w : W)
        → ReadsBack codec (document c tools)
        → load c storage codec (store c storage codec tools w).1 ≡ (
            if c.persistent && (store c storage codec tools w).0
            then some tools
            else load c storage codec w)
    unfolding load store
    load-store_tools tools w back = elim (Bool-cases c.persistent) [
      | inl kept ↦ (elim (Bool-cases (ltb max_tools (length tools) || not (all_named tools))) [
        | inl refused ↦ rw (kept, refused) refl
        | inr sound ↦
            (let (few, named) =
                sound_tools (ltb max_tools (length tools)) (all_named tools) sound in
              rw (kept, sound) (at_path few named (cache_path c.directory c.target_id)))
      ])
      | inr passing ↦ rw passing refl
    ]
      where
        sound_tools : (a b : Bool) → (a || not b) ≡ false → (a ≡ false) × (b ≡ true)
        sound_tools false true h = (refl, refl)
        sound_tools false false h = cc
        sound_tools true b h = cc

        chosen :
            ltb max_tools (length tools) ≡ false
            → all_named tools ≡ true
            → (b : Bool) (o : Option Value)
            → ((if b then some (document c tools) else o) >>? read_document c)
              ≡ (if b then some tools else (o >>? read_document c))
        chosen few named true o = read_document-document tools few named
        chosen few named false o = refl

        at_path :
            ltb max_tools (length tools) ≡ false
            → all_named tools ≡ true
            → (o : Option String)
            → (o >>? λ path.
                read_value storage codec path (store_at c storage codec o tools w).1
                >>? read_document c)
              ≡ (if (store_at c storage codec o tools w).0
                  then some tools
                  else (o >>? λ path. read_value storage codec path w >>? read_document c))
        at_path few named none = refl
        at_path few named (some path) =
            ap (λ o. o >>? read_document c)
              (read_value-write_value storage codec reliable c.directory path (document c tools) w
                back)
            ∙ chosen few named _ (read_value storage codec path w)
