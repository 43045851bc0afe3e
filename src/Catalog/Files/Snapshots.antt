-- ===== src/Catalog/Files/Snapshots.antt =====
-- `CatalogCache` of crates/boundary/src/catalog_cache.rs: a file of snapshots for each target.
use agent_capability_gate.Prelude.{
  ℕ, List, ◌+++◌, ◌++◌, pos, eq_iff, ◌≤◌, ◌≡◌, refl, ap, ◌∙◌, String, ◌==◌, Bool, true, false, ◌&&◌,
  Option, none, some, [], ◌∷◌, length, Map, get, All, ltb, eqb, if◌then◌else◌, arith,
}
use agent_capability_gate.Json.{
  Value, number, string, as_object, as_str, as_number, of_map, is_some_and, fields-of_fields, ◌>>?◌,
}
use agent_capability_gate.Json.Numbers.{int, as_u64}
use agent_capability_gate.Diagnostics.{max_tools, ◌/+◌}
use agent_capability_gate.Catalog.Files.Digest.{sha256_hex}
use agent_capability_gate.Catalog.V2.{CachedTool, Snapshot, CacheFiles}
use agent_capability_gate.Catalog.Files.{
  cache_home, Storage, Reliable, Codec, ReadsBack, cache_path, read_value, write_value,
  read_value-write_value,
}

pub record CatalogCache : Type 0 where
  pub directory : String
  pub digest : String

-- `CatalogCache::new`; none is its error. `path` is the configuration file's path in bytes.
unfoldable pub new : Option String → Option String → List ℕ → List ℕ → Option CatalogCache
unfolding sha256_hex
new xdg home path config = cache_home xdg home >>? λ parent.
    let digest = sha256_hex ((path ++ (0 ∷ [])) ++ config) in
    some (record {
      directory = parent /+ "mcp-boundary" /+ "catalog-v1" /+ digest;
      digest = "sha256:" +++ digest;
    })

abbrev pub read_entry : Value → Option CachedTool
read_entry v = as_object v >>? λ entry. (get "upstream" entry >>? as_object) >>? λ upstream.
    (get "public" entry >>? as_object) >>? λ public.
    some (record { upstream = of_map upstream; public = of_map public })

abbrev pub with_entry : String → Option CachedTool → Option Snapshot → Option Snapshot
with_entry name (some tool) (some rest) = some ((name, tool) ∷ rest)
with_entry name _ _ = none

-- An entry that cannot be read makes the whole file unusable.
unfoldable pub read_entries : Map Value → Option Snapshot
unfolding get
read_entries [] = some []
read_entries ((name, entry) ∷ m) = with_entry name (read_entry entry) (read_entries m)

abbrev pub entry_json : CachedTool → Value
entry_json tool = of_map (("public", tool.public) ∷ ("upstream", tool.upstream) ∷ [])

unfoldable pub entries_json : Snapshot → Map Value
entries_json [] = []
entries_json ((name, tool) ∷ tools) = (name, entry_json tool) ∷ entries_json tools

module _ (c : CatalogCache) where
  abbrev pub document : String → Snapshot → Value
  document target tools = of_map (
      ("config_digest", string c.digest)
      ∷ ("format_version", number (int (pos 1)))
      ∷ ("target", string target)
      ∷ ("tools", of_map (entries_json tools))
      ∷ [])

  -- The file is of this version, configuration and target.
  abbrev pub is_current : String → Map Value → Bool
  is_current target m =
      is_some_and (get "format_version" m >>? as_number >>? as_u64) (λ n. eqb n 1)
      && is_some_and (get "config_digest" m >>? as_str) (λ s. s == c.digest)
      && is_some_and (get "target" m >>? as_str) (λ s. s == target)

  abbrev pub read_tools : Map Value → Option Snapshot
  read_tools tools = if ltb max_tools (length tools) then none else read_entries tools

  unfoldable pub read_document : String → Value → Option Snapshot
  unfolding get read_entries
  read_document target v = as_object v >>? λ m.
      if is_current target m then get "tools" m >>? as_object >>? read_tools else none

  module _ {W : Type 0} (storage : Storage W) (codec : Codec) where
    unfoldable pub load : String → W → Option Snapshot
    unfolding cache_path read_value read_document
    load target w = cache_path c.directory target >>? λ path.
        read_value storage codec path w >>? read_document target

    abbrev pub store_at : Option String → String → Snapshot → W → Bool × W
    store_at none target tools w = (false, w)
    store_at (some path) target tools w =
        write_value storage codec c.directory path (document target tools) w

    unfoldable pub store : String → Snapshot → W → Bool × W
    unfolding cache_path entries_json
    store target tools w = store_at (cache_path c.directory target) target tools w

    -- What the version-2 catalog uses of the cache; it loads when the broker starts.
    abbrev pub cache_files : W → CacheFiles W
    cache_files begun = record { load = λ target. load target begun; store = store }

-- The definitions in a snapshot are objects.
abbrev pub AreObjects : Snapshot → Type 0
AreObjects tools =
    All
      (λ e.
        ((m : Map Value) × (e.1.upstream ≡ of_map m)) × ((m : Map Value) × (e.1.public ≡ of_map m)))
      tools

read_entries-json :
    (tools : Snapshot) → AreObjects tools → read_entries (entries_json tools) ≡ some tools
unfolding read_entries entries_json get
read_entries-json [] objects = refl
read_entries-json ((name, tool) ∷ tools) (((m, e), (n, f)), objects) =
    rw (read_entries-json tools objects, e, f, fields-of_fields m, fields-of_fields n) refl

length-entries_json : (tools : Snapshot) → length (entries_json tools) ≡ length tools
unfolding entries_json
length-entries_json [] = refl
length-entries_json (e ∷ tools) = let h = length-entries_json tools in omega arith

read_document-document :
    (c : CatalogCache) (target : String) (tools : Snapshot)
    → AreObjects tools
    → length tools ≤ max_tools
    → read_document c target (document c target tools) ≡ some tools
unfolding read_document get
read_document-document c target tools objects few =
    let same : (c.digest == c.digest) ≡ true = (eq_iff c.digest c.digest).1 refl in
    let here : (target == target) ≡ true = (eq_iff target target).1 refl in
    let fits : ltb max_tools (length (entries_json tools)) ≡ false =
      rw (length-entries_json tools) (ground arith) in
    rw (same, here, fields-of_fields (entries_json tools), fits) (read_entries-json tools objects)

module _ {W : Type 0} (storage : Storage W) (codec : Codec) (reliable : Reliable storage)
    (c : CatalogCache) (target : String) where
  -- On a reliable file system, for at most 256 tools whose definitions are objects, and where the JSON that
  -- is written is read back as it was: after `store`, `load` gives exactly the stored snapshot if `store`
  -- reports success, and what it gave before if `store` reports a failure.
  pub load-store :
      (tools : Snapshot) (w : W)
      → AreObjects tools
      → length tools ≤ max_tools
      → ReadsBack codec (document c target tools)
      → load c storage codec target (store c storage codec target tools w).1 ≡ (
          if (store c storage codec target tools w).0
          then some tools
          else load c storage codec target w)
  unfolding load store
  load-store tools w objects few back = at_path (cache_path c.directory target)
    where
      chosen :
          (b : Bool) (o : Option Value)
          → ((if b then some (document c target tools) else o) >>? read_document c target)
            ≡ (if b then some tools else (o >>? read_document c target))
      chosen true o = read_document-document c target tools objects few
      chosen false o = refl

      at_path :
          (o : Option String)
          → (o >>? λ path.
              read_value storage codec path (store_at c storage codec o target tools w).1
              >>? read_document c target)
            ≡ (if (store_at c storage codec o target tools w).0
                then some tools
                else (o >>? λ path. read_value storage codec path w >>? read_document c target))
      at_path none = refl
      at_path (some path) =
          ap (λ o. o >>? read_document c target)
            (read_value-write_value storage codec reliable c.directory path
              (document c target tools) w back)
          ∙ chosen _ (read_value storage codec path w)
