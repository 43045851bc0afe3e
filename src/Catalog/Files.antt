-- ===== src/Catalog/Files.antt =====
-- What catalog_cache.rs and upstream_definition_cache.rs of crates/boundary/src share: the file of a target,
-- the limit on its size, and what they use of the file system and of serde_json.
pub mod Digest
pub mod Snapshots
pub mod Definitions
use agent_capability_gate.Prelude.{
  starts_with_char, ℕ, zero, suc, ◌+◌, ◌*◌, ◌≤◌, ◌≡◌, refl, ap, ◌∙◌, String, ◌+++◌, ◌==◌, Bool,
  true, false, not, ◌||◌, ◌&&◌, Option, none, some, List, [], ◌∷◌, length, len, ltb, all_chars,
  is_alphanumeric, eqb, is_empty_text, if◌then◌else◌, Bool-cases, inl, inr, arith,
}
use agent_capability_gate.Json.{Value, ◌>>?◌}
use agent_capability_gate.Diagnostics.{◌/+◌}

abbrev pub max_cache_bytes : ℕ
max_cache_bytes = 1024 * 1024

-- The directory of the user's caches, by the variables XDG_CACHE_HOME and HOME.
abbrev pub home_cache : Option String → Option String
home_cache none = none
home_cache (some home) = some (home /+ ".cache")

abbrev pub cache_home : Option String → Option String → Option String
cache_home none home = home_cache home
cache_home (some xdg) home = if starts_with_char b'/' xdg then some xdg else home_cache home

abbrev is_name_char : ℕ → Bool
is_name_char c = is_alphanumeric c || (eqb c b'_' || (eqb c b'-' || eqb c b'.'))

-- `path` of both caches
unfoldable pub cache_path : String → String → Option String
cache_path directory target =
    if is_empty_text target
      || (ltb 128 (len target)
          || (not (all_chars is_name_char target) || (target == "." || target == "..")))
    then none
    else some (directory /+ (target +++ ".json"))

unfoldable pub take {ℓ} : {A : Type ℓ} → ℕ → List A → List A
take zero xs = []
take (suc n) [] = []
take (suc n) (x ∷ xs) = x ∷ take n xs

pub take-all {ℓ} : {A : Type ℓ} (n : ℕ) (xs : List A) → length xs ≤ n → take n xs ≡ xs
unfolding take
take-all zero [] h = refl
take-all zero (x ∷ xs) h = absurd (omega arith)
take-all (suc n) [] h = refl
take-all (suc n) (x ∷ xs) h = ap (λ l. x ∷ l) (take-all n xs (omega arith))

-- The files: what one holds, the making of a directory, and the writing of a file under a temporary name
-- that is then renamed, each with whether it succeeded.
pub record Storage (W : Type 0) : Type 0 where
  pub contents : String → W → Option (List ℕ)
  pub create_dir_all : String → W → Bool × W
  pub replace : String → List ℕ → W → Bool × W

-- Making a directory changes no file; a file that is replaced holds the bytes, and one whose replacement
-- fails holds what it did.
pub record Reliable {W : Type 0} (storage : Storage W) : Type 0 where
  pub created :
      (directory path : String) (w : W)
      → storage.contents path (storage.create_dir_all directory w).1 ≡ storage.contents path w
  pub replaced :
      (path : String) (bytes : List ℕ) (w : W)
      → storage.contents path (storage.replace path bytes w).1
        ≡ (if (storage.replace path bytes w).0 then some bytes else storage.contents path w)

-- `serde_json::to_vec` and `serde_json::from_slice`
pub record Codec : Type 0 where
  pub encode : Value → Option (List ℕ)
  pub decode : List ℕ → Option Value

-- The value that was written is read again.
abbrev pub ReadsBack : Codec → Value → Type 0
ReadsBack codec v = (bytes : List ℕ) → codec.encode v ≡ some bytes → codec.decode bytes ≡ some v

module _ {W : Type 0} (storage : Storage W) (codec : Codec) where
  abbrev pub within_limit : List ℕ → Option (List ℕ)
  within_limit bytes = if ltb max_cache_bytes (length bytes) then none else some bytes

  -- The value in a file, unless it is too long.
  unfoldable pub read_value : String → W → Option Value
  unfolding take
  read_value path w = storage.contents path w >>? λ bytes.
      within_limit (take (suc max_cache_bytes) bytes) >>? codec.decode

  abbrev pub write_bytes : String → Option (List ℕ) → W → Bool × W
  write_bytes path none w = (false, w)
  write_bytes path (some bytes) w =
      if ltb max_cache_bytes (length bytes) then (false, w) else storage.replace path bytes w

  abbrev pub created_then : Bool × W → (W → Bool × W) → Bool × W
  created_then (true, w) next = next w
  created_then (false, w) next = (false, w)

  -- The directory is made, and the value written to the file.
  abbrev pub write_value : String → String → Value → W → Bool × W
  write_value directory path v w =
      created_then (storage.create_dir_all directory w) (write_bytes path (codec.encode v))

  read_value-same :
      (path : String) (v w : W)
      → storage.contents path v ≡ storage.contents path w
      → read_value path v ≡ read_value path w
  unfolding read_value
  read_value-same path v w e = rw e refl

  module _ (reliable : Reliable storage) where
    -- A value that was written is there, and otherwise what was there before.
    read_value-write_bytes :
        (path : String) (v : Value) (w : W)
        → ReadsBack codec v
        → read_value path (write_bytes path (codec.encode v) w).1
          ≡ (if (write_bytes path (codec.encode v) w).0 then some v else read_value path w)
    unfolding read_value
    read_value-write_bytes path v w back = by_bytes (codec.encode v) refl
      where
        kept :
            (bytes : List ℕ) (written : Bool)
            → ltb max_cache_bytes (length bytes) ≡ false
            → codec.decode bytes ≡ some v
            → ((if written then some bytes else storage.contents path w) >>? λ b.
                within_limit (take (suc max_cache_bytes) b) >>? codec.decode)
              ≡ (if written then some v else read_value path w)
        kept bytes true short read =
            rw (take-all (suc max_cache_bytes) bytes (ground arith), short) read
        kept bytes false short read = refl

        by_bytes :
            (o : Option (List ℕ))
            → codec.encode v ≡ o
            → read_value path (write_bytes path o w).1
              ≡ (if (write_bytes path o w).0 then some v else read_value path w)
        by_bytes none e = refl
        by_bytes (some bytes) e = elim (Bool-cases (ltb max_cache_bytes (length bytes))) [
          | inl long ↦ rw long refl
          | inr short ↦
              rw (short, reliable.replaced path bytes w)
                (kept bytes (storage.replace path bytes w).0 short (back bytes e))
        ]

    pub read_value-write_value :
        (directory path : String) (v : Value) (w : W)
        → ReadsBack codec v
        → read_value path (write_value directory path v w).1
          ≡ (if (write_value directory path v w).0 then some v else read_value path w)
    read_value-write_value directory path v w back =
        by_creation (storage.create_dir_all directory w) (reliable.created directory path w)
      where
        by_creation :
            (r : Bool × W)
            → storage.contents path r.1 ≡ storage.contents path w
            → read_value path (created_then r (write_bytes path (codec.encode v))).1 ≡ (
                if (created_then r (write_bytes path (codec.encode v))).0
                then some v
                else read_value path w)
        by_creation (true, w') e =
            read_value-write_bytes path v w' back
            ∙ ap (λ o. if (write_bytes path (codec.encode v) w').0 then some v else o)
                (read_value-same path w' w e)
        by_creation (false, w') e = read_value-same path w' w e
