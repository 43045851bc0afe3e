-- ===== src/Prelude/Loops.antt =====
-- Loops that may fail, as folds over the items, and invariants of maps that they build.
use Prim.Native.String.{String, compare}
use Prim.Native.Nat.{Ordering}
use mathlib.Core.Path.{◌≡◌, refl, subst}
use mathlib.Core.Bool.{false}
use mathlib.Core.Option.{Option, none, some}
use mathlib.Core.List.{List, [], ◌∷◌, ◌++◌}
use native.Mathlib.Omega.{arith}
use text.Mathlib.Text.{◌==◌}
use text.Mathlib.TextEquality.{eq_iff}
use agent_capability_gate.Prelude.Tests.{or_false}
use agent_capability_gate.Prelude.Lists.{All}
use agent_capability_gate.Prelude.Results.{Result, ok, ◌>>=◌, >>=-eq-ok, ok-injective}
use agent_capability_gate.Prelude.Maps.{
  Map, contains_key, insert, contains_key-insert, DistinctKeys,
}

-- `unwrap_or`
abbrev pub or_default {ℓ} : {A : Type ℓ} → Option A → A → A
or_default (some a) d = a
or_default none d = d

module _ {ℓ} {E A S : Type ℓ} (step : A → S → Result E S) where
  -- A `for` loop whose body may return an error.
  unfoldable pub for_each : List A → S → Result E S
  for_each [] s = ok s
  for_each (a ∷ xs) s = step a s >>= λ t. for_each xs t

  -- What each step keeps, for the items of which Q holds, the loop keeps.
  pub for_each-preserves :
      (P : S → Type ℓ) (Q : A → Type ℓ) (xs : List A) (s out : S)
      → ((a : A) (t u : S) → Q a → P t → step a t ≡ ok u → P u)
      → All Q xs
      → P s
      → for_each xs s ≡ ok out
      → P out
  unfolding for_each
  for_each-preserves P Q [] s out keeps qs p h = subst P (ok-injective h) p
  for_each-preserves P Q (a ∷ xs) s out keeps (q, qs) p h =
      let (t, e, h0) = >>=-eq-ok (step a s) _ h in
      for_each-preserves P Q xs t out keeps qs (keeps a s t q p e) h0

module _ {ℓ κ} {V : Type ℓ} (P : String × V → Type κ) where
  pub All-insert : (k : String) (v : V) (m : Map V) → P (k, v) → All P m → All P (insert k v m)
  unfolding insert
  All-insert k v [] p h = (p, tt)
  All-insert k v ((j, w) ∷ m) p (here, h) = placed (compare k j) (All-insert k v m p h)
    where
      placed :
          (o : Ordering)
          → All P (insert k v m)
          → All P (elim o as (λ x. Map V) [
            | Ordering.lt ↦ (k, v) ∷ (j, w) ∷ m
            | Ordering.eq ↦ (k, v) ∷ m
            | Ordering.gt ↦ (j, w) ∷ insert k v m
          ])
      placed Ordering.lt later = (p, (here, h))
      placed Ordering.eq later = (p, h)
      placed Ordering.gt later = (here, later)

module _ {ℓ κ} {V : Type ℓ} where
  -- A consequence of what holds of every item.
  pub All-map : (P Q : V → Type κ) (xs : List V) → ((x : V) → P x → Q x) → All P xs → All Q xs
  All-map P Q [] f h = tt
  All-map P Q (x ∷ xs) f (a, h) = (f x a, All-map P Q xs f h)

  pub All-intro : (P : V → Type κ) (xs : List V) → ((x : V) → P x) → All P xs
  All-intro P [] f = tt
  All-intro P (x ∷ xs) f = (f x, All-intro P xs f)

  pub All-join : (P : V → Type κ) (xs ys : List V) → All P xs → All P ys → All P (xs ++ ys)
  All-join P [] ys a b = b
  All-join P (x ∷ xs) ys (p, a) b = (p, All-join P xs ys a b)

-- A map without a key twice stays so when a fresh key is inserted.
pub DistinctKeys-insert :
    {V : Type 0} (k : String) (v : V) (m : Map V)
    → contains_key k m ≡ false
    → DistinctKeys m
    → DistinctKeys (insert k v m)
unfolding insert contains_key
DistinctKeys-insert k v [] fresh d = (refl, tt)
DistinctKeys-insert {V} k v ((j, w) ∷ m) fresh (here, d) =
    let (other, absent) = or_false (j == k) (contains_key k m) fresh in
    placed (compare k j) other absent (DistinctKeys-insert k v m absent d)
  where
    placed :
        (o : Ordering)
        → (j == k) ≡ false
        → contains_key k m ≡ false
        → DistinctKeys (insert k v m)
        → DistinctKeys (elim o as (λ x. Map V) [
          | Ordering.lt ↦ (k, v) ∷ (j, w) ∷ m
          | Ordering.eq ↦ (k, v) ∷ m
          | Ordering.gt ↦ (j, w) ∷ insert k v m
        ])
    placed Ordering.lt other absent later = (fresh, (here, d))
    placed Ordering.eq other absent later = (absent, d)
    placed Ordering.gt other absent later =
        (ground (arith, contains_key-insert k j v m, eq_iff j k, eq_iff k j), later)
