-- ===== src/Prelude/Maps.antt =====
-- `BTreeMap<String, V>` and `BTreeSet<String>` as the lists of their entries in key order.
use Prim.Native.Nat.{Ordering}
use Prim.Native.String.{String, compare}
use mathlib.Core.Path.{◌≡◌, refl, subst}
use mathlib.Core.Logic.{◌↔◌, inl, inr}
use mathlib.Core.Bool.{Bool, true, false, ◌||◌}
use mathlib.Core.Option.{Option, none, some}
use mathlib.Core.List.{List, [], ◌∷◌}
use native.Mathlib.Omega.{arith}
use text.Mathlib.Text.{◌==◌}
use text.Mathlib.TextEquality.{eq_iff}
use agent_capability_gate.Prelude.Tests.{if◌then◌else◌, Bool-cases, Option-cases, eq_of_some-eq}
use agent_capability_gate.Prelude.Lists.{All}

abbrev pub Map {ℓ} : Type ℓ → Type ℓ
Map V = List (String × V)

abbrev pub is_some {ℓ} : {A : Type ℓ} → Option A → Bool
is_some none = false
is_some (some a) = true

pub some_of_is_some {ℓ} : {A : Type ℓ} (o : Option A) → is_some o ≡ true → (a : A) × (o ≡ some a)
some_of_is_some none h = cc
some_of_is_some (some a) h = (a, refl)

module _ {ℓ} {V : Type ℓ} where
  unfoldable pub get : String → Map V → Option V
  get k [] = none
  get k ((j, v) ∷ m) = if j == k then some v else get k m

  unfoldable pub contains_key : String → Map V → Bool
  contains_key k [] = false
  contains_key k ((j, v) ∷ m) = j == k || contains_key k m

  -- The new entry stands before the first greater key.
  unfoldable pub insert : String → V → Map V → Map V
  insert k v [] = (k, v) ∷ []
  insert k v ((j, w) ∷ m) =
      let rest = insert k v m in
      elim (compare k j) [
        | Ordering.lt ↦ (k, v) ∷ (j, w) ∷ m
        | Ordering.eq ↦ (k, v) ∷ m
        | Ordering.gt ↦ (j, w) ∷ rest
      ]

  unfoldable pub remove : String → Map V → Map V
  remove k [] = []
  remove k ((j, v) ∷ m) = if j == k then remove k m else (j, v) ∷ remove k m

  unfoldable pub keys : Map V → List String
  keys [] = []
  keys ((k, v) ∷ m) = k ∷ keys m

  unfoldable pub values : Map V → List V
  values [] = []
  values ((k, v) ∷ m) = v ∷ values m

  -- `retain(|key, _| test(key))`
  unfoldable pub retain : (String → Bool) → Map V → Map V
  retain p [] = []
  retain p ((k, v) ∷ m) = if p k then (k, v) ∷ retain p m else retain p m

-- `BTreeSet<String>`
unfoldable pub set_contains : String → List String → Bool
set_contains k [] = false
set_contains k (j ∷ s) = j == k || set_contains k s

unfoldable pub set_insert : String → List String → List String
set_insert k [] = k ∷ []
set_insert k (j ∷ s) =
    let rest = set_insert k s in
    elim (compare k j) [ Ordering.lt ↦ k ∷ j ∷ s | Ordering.eq ↦ k ∷ s | Ordering.gt ↦ j ∷ rest ]

-- `collect::<BTreeSet<_>>()`
unfoldable pub set_of : List String → List String
unfolding set_insert
set_of [] = []
set_of (k ∷ ks) = set_insert k (set_of ks)

compare-eq_iff : (s t : String) → (compare s t ≡ Ordering.eq) ↔ ((s == t) ≡ true)
compare-eq_iff s t = ground arith

module _ {ℓ} {V : Type ℓ} where
  pub get-insert :
      (k j : String) (v : V) (m : Map V)
      → get j (insert k v m) ≡ (if k == j then some v else get j m)
  unfolding get insert
  get-insert k j v [] = refl
  get-insert k j v ((i, w) ∷ m) =
      ground (arith, eq_iff k j, eq_iff i k, eq_iff k i, eq_iff i j, get-insert k j v m)

  pub get-remove :
      (k j : String) (m : Map V) → get j (remove k m) ≡ (if k == j then none else get j m)
  unfolding get remove
  get-remove k j [] = ground arith
  get-remove k j ((i, w) ∷ m) = ground (arith, eq_iff k j, eq_iff i k, eq_iff i j, get-remove k j m)

  pub get-retain :
      (p : String → Bool) (j : String) (m : Map V)
      → get j (retain p m) ≡ (if p j then get j m else none)
  unfolding get retain
  get-retain p j [] = ground arith
  get-retain p j ((i, w) ∷ m) = ground (arith, eq_iff i j, get-retain p j m)

  pub contains_key-eq-is_some : (k : String) (m : Map V) → contains_key k m ≡ is_some (get k m)
  unfolding get contains_key
  contains_key-eq-is_some k [] = refl
  contains_key-eq-is_some k ((j, v) ∷ m) = ground (arith, contains_key-eq-is_some k m)

pub set_contains-insert :
    (k j : String) (s : List String)
    → set_contains j (set_insert k s) ≡ (k == j || set_contains j s)
unfolding set_contains set_insert
set_contains-insert k j [] = refl
set_contains-insert k j (i ∷ s) =
    ground (arith, eq_iff k j, eq_iff k i, eq_iff i j, set_contains-insert k j s)

module _ {ℓ κ} {V : Type ℓ} (P : String → Type κ) where
  -- What holds of every key holds of a key that is found.
  pub All-keys-get : (k : String) (m : Map V) {v : V} → All P (keys m) → get k m ≡ some v → P k
  unfolding keys get
  All-keys-get k [] a h = cc
  All-keys-get k ((j, w) ∷ m) a h = elim (Bool-cases (j == k)) [
    | inl same ↦ subst P ((eq_iff j k).0 same) a.0
    | inr other ↦ All-keys-get k m a.1 (rw other at h)
  ]

module _ {κ} (P : String → Type κ) where
  -- What holds of every member of a set holds of one that it contains.
  pub All-set_contains : (k : String) (s : List String) → All P s → set_contains k s ≡ true → P k
  unfolding set_contains
  All-set_contains k [] a h = cc
  All-set_contains k (j ∷ s) a h = elim (Bool-cases (j == k)) [
    | inl same ↦ subst P ((eq_iff j k).0 same) a.0
    | inr other ↦ All-set_contains k s a.1 (rw other at h)
  ]

module _ {ℓ} {V : Type ℓ} where
  pub get-none_of_keys-nil : (k : String) (m : Map V) → keys m ≡ [] → get k m ≡ none
  unfolding keys get
  get-none_of_keys-nil k [] h = refl
  get-none_of_keys-nil k ((j, w) ∷ m) h = cc

  pub get-some_of_contains_key :
      (k : String) (m : Map V) → contains_key k m ≡ true → (v : V) × (get k m ≡ some v)
  get-some_of_contains_key k m h = elim (Option-cases (get k m)) [
    | inl missing ↦ absurd (ground (arith, contains_key-eq-is_some k m))
    | inr found ↦ found
  ]

module _ {ℓ κ} {V : Type ℓ} (P : V → Type κ) where
  -- What holds of every value holds of a value that is found.
  pub All-get : (k : String) (m : Map V) {v : V} → All (λ e. P e.1) m → get k m ≡ some v → P v
  unfolding get
  All-get k [] a h = cc
  All-get k ((j, w) ∷ m) a h = elim (Bool-cases (j == k)) [
    | inl same ↦ subst P (eq_of_some-eq (rw same at h)) a.0
    | inr other ↦ All-get k m a.1 (rw other at h)
  ]

-- No key stands twice, as in a `BTreeMap`.
abbrev pub DistinctKeys {ℓ} : {V : Type ℓ} → Map V → Type 0
DistinctKeys [] = Unit
DistinctKeys ((k, v) ∷ m) = (contains_key k m ≡ false) × DistinctKeys m

module _ {ℓ} {V : Type ℓ} where
  pub get-none_of_contains_key :
      (j k : String) (m : Map V) → contains_key j m ≡ false → (j == k) ≡ true → get k m ≡ none
  get-none_of_contains_key j k m fresh same =
      let here = subst (λ i. contains_key i m ≡ false) ((eq_iff j k).0 same) fresh in
      elim (Option-cases (get k m)) [
        | inl missing ↦ missing
        | inr (v, found) ↦ absurd (ground (arith, contains_key-eq-is_some k m))
      ]

  pub contains_key-insert :
      (j k : String) (v : V) (m : Map V)
      → contains_key k (insert j v m) ≡ (j == k || contains_key k m)
  contains_key-insert j k v m = ground (
    arith,
    contains_key-eq-is_some k (insert j v m),
    contains_key-eq-is_some k m,
    get-insert j k v m,
  )

-- A new entry under one literal key leaves another alone.
pub get-insert_other {ℓ} :
    {V : Type ℓ} (j k : String) (v : V) (m : Map V)
    → (j == k) ≡ false
    → get k (insert j v m) ≡ get k m
get-insert_other j k v m other = rw (get-insert j k v m, other) refl
