-- ===== src/Tests/Cached.antt =====
-- The caches on a file system that is a map, and known digests.
use agent_capability_gate.Prelude.{
  ◌==◌, ℕ, ◌+◌, ◌%◌, ◌&&◌, ◌≡◌, refl, true, some, List, [], ◌∷◌, length, Map, get, insert,
  get-insert, eq_iff, if◌then◌else◌, arith,
}
use agent_capability_gate.Json.{Value, string, of_map}
use agent_capability_gate.Catalog.V2.{Snapshot}
use agent_capability_gate.Catalog.Files.{Storage, Reliable, Codec}
use agent_capability_gate.Catalog.Files.Digest.{sha256_hex, zeros, padded, chunks}
use agent_capability_gate.Catalog.Files.Digest.Padding.{joined, padded-joined}
use agent_capability_gate.Catalog.Files.Snapshots.{CatalogCache, AreObjects}
use agent_capability_gate.Catalog.Files.Snapshots
use agent_capability_gate.Catalog.Files.Definitions.{UpstreamDefinitionCache}
use agent_capability_gate.Catalog.Files.Definitions
use agent_capability_gate.Tests.Remote.{upstream_json}

-- The vectors of the source's own tests.
digest_of_nothing :
    sha256_hex [] ≡ "e3b0c44298fc1c149afbf4c8996fb92427ae41e4649b934ca495991b7852b855"
unfolding sha256_hex
digest_of_nothing = refl

digest_of_abc :
    sha256_hex (97 ∷ 98 ∷ 99 ∷ [])
    ≡ "ba7816bf8f01cfea414140de5dae2223b00361a396177a9cb410ff61f20015ad"
unfolding sha256_hex
digest_of_abc = refl

abbrev one_byte : List ℕ
one_byte = 97 ∷ []

padded-joined_example :
    (((length one_byte + 1) + length (zeros 64 (length one_byte + 1))) % 64 ≡ 56)
    × (length (padded one_byte) % 64 ≡ 0)
    × (joined (chunks (length (padded one_byte)) 64 (padded one_byte)) ≡ padded one_byte)
padded-joined_example = padded-joined one_byte

abbrev Disk : Type 0
Disk = Map (List ℕ)

abbrev disk : Storage Disk
disk = record {
  contents = get;
  create_dir_all = λ directory w. (true, w);
  replace = λ path bytes w. (true, insert path bytes w);
}

disk-Reliable : Reliable disk
unfolding get
disk-Reliable = record {
  created = λ directory path w. refl;
  replaced = λ path bytes w.
      let same : (path == path) ≡ true = (eq_iff path path).1 refl in
      rw (get-insert path path bytes w, same) refl;
}

-- It writes any value as one byte, which stands for the one value.
abbrev codec : Value → Codec
codec v = record { encode = λ u. some (1 ∷ []); decode = λ bytes. some v }

abbrev cache : CatalogCache
cache = record { directory = "/home/user/.cache/mcp-boundary/catalog-v1/0"; digest = "sha256:0" }

abbrev upstream_fields : Map Value
upstream_fields = ("name", string "list_commits") ∷ []

abbrev public_fields : Map Value
public_fields = ("name", string "commits") ∷ []

abbrev snapshot : Snapshot
snapshot =
    ("list_commits", record { upstream = of_map upstream_fields; public = of_map public_fields })
    ∷ []

load-store_example :
    Snapshots.load cache disk
      (codec (Snapshots.document cache "forge" snapshot))
      "forge"
      (Snapshots.store cache disk
        (codec (Snapshots.document cache "forge" snapshot))
        "forge"
        snapshot
        []).1
    ≡ (if (Snapshots.store cache disk
          (codec (Snapshots.document cache "forge" snapshot))
          "forge"
          snapshot
          []).0
        then some snapshot
        else Snapshots.load cache disk
            (codec (Snapshots.document cache "forge" snapshot))
            "forge"
            [])
load-store_example =
    Snapshots.load-store disk (codec (Snapshots.document cache "forge" snapshot)) disk-Reliable
      cache "forge" snapshot [] (((upstream_fields, refl), (public_fields, refl)), tt) (omega arith)
      (λ bytes e. refl)

snapshot_stored :
    (Snapshots.store cache disk
      (codec (Snapshots.document cache "forge" snapshot))
      "forge"
      snapshot
      []).0
    ≡ true
unfolding Snapshots.store
snapshot_stored = refl

abbrev definitions : UpstreamDefinitionCache
definitions = record {
  directory = "/home/user/.cache/mcp-boundary/catalog-v3/0";
  target_id = "forge";
  identity = "0";
  persistent = true;
}

abbrev tools : Map Value
tools = ("list_commits", upstream_json) ∷ []

load-store_tools_example :
    Definitions.load definitions disk
      (codec (Definitions.document definitions tools))
      (Definitions.store definitions disk
        (codec (Definitions.document definitions tools))
        tools
        []).1
    ≡ (if definitions.persistent
          && (Definitions.store definitions disk
              (codec (Definitions.document definitions tools))
              tools
              []).0
        then some tools
        else Definitions.load definitions disk (codec (Definitions.document definitions tools)) [])
load-store_tools_example =
    Definitions.load-store_tools definitions disk (codec (Definitions.document definitions tools))
      disk-Reliable tools [] (λ bytes e. refl)

definitions_stored :
    (Definitions.store definitions disk (codec (Definitions.document definitions tools)) tools []).0
    ≡ true
unfolding Definitions.store get
definitions_stored = refl
