-- ===== src/Boundary/Limits/Exact.antt =====
-- What `request_within_limits` accepts: the values of bounded depth whose texts and arrays are bounded.
use agent_capability_gate.Prelude.{
  refl, leb→le, ℕ, suc, ◌+◌, ◌≤◌, max, len, ◌≡◌, ◌↔◌, Bool, true, false, ◌&&◌, length, leb, ltb,
  if◌then◌else◌, arith, and_true,
}
use agent_capability_gate.Json.{
  Value, null, bool, number, string, array, object, Items, nil, item, items, Fields, end, field,
}
use agent_capability_gate.Diagnostics.{max_string_bytes, max_array_items}
use agent_capability_gate.Boundary.Limits.{
  request_within_limits, items_within, values_within, keys_within,
}

-- How many levels of arrays and objects stand in a value.
mutual
  pub height : Value → ℕ
  height (array vs) = items_height vs
  height (object fs) = values_height fs
  height v = 0

  pub items_height : Items → ℕ
  items_height nil = 0
  items_height (item v vs) = max (suc (height v)) (items_height vs)

  pub values_height : Fields → ℕ
  values_height end = 0
  values_height (field k v fs) = max (suc (height v)) (values_height fs)

-- Every text and key has at most 256 KiB, and every array at most 1024 items.
mutual
  pub Small : Value → Type 0
  Small (string s) = len s ≤ 262144
  Small (array vs) = (length (items vs) ≤ 1024) × SmallItems vs
  Small (object fs) = SmallFields fs
  Small v = Unit

  pub SmallItems : Items → Type 0
  SmallItems nil = Unit
  SmallItems (item v vs) = Small v × SmallItems vs

  pub SmallFields : Fields → Type 0
  SmallFields end = Unit
  SmallFields (field k v fs) = (len k ≤ 262144) × Small v × SmallFields fs

not_above : (depth levels most : ℕ) → depth + levels ≤ most → ltb most depth ≡ false
not_above depth levels most h = ground arith

within_bound : (n bound : ℕ) → n ≤ bound → leb n bound ≡ true
within_bound n bound h = ground arith

guarded : (a b : Bool) → (if a then false else b) ≡ true → (a ≡ false) × (b ≡ true)
guarded true b h = cc
guarded false b h = (refl, h)

mutual
  unfolding request_within_limits height Small

  accepted_value :
      (v : Value) (depth most : ℕ)
      → request_within_limits v depth most ≡ true
      → (depth + height v ≤ most) × Small v
  accepted_value null depth most h = (ground arith, tt)
  accepted_value (bool b) depth most h = (ground arith, tt)
  accepted_value (number n) depth most h = (ground arith, tt)
  accepted_value (string s) depth most h = (ground arith, ground arith)
  accepted_value (array vs) depth most h =
      let (d, inside) =
        guarded (ltb most depth)
          (leb (length (items vs)) max_array_items && items_within vs (suc depth) most) h in
      let (few, rest) =
        and_true (leb (length (items vs)) max_array_items) (items_within vs (suc depth) most)
          inside in
      let (deep, small) = accepted_items vs depth most (ground arith) rest in
      (deep, (leb→le _ _ few, small))
  accepted_value (object fs) depth most h =
      let (d, inside) =
        guarded (ltb most depth) (keys_within fs && values_within fs (suc depth) most) h in
      let (short, rest) = and_true (keys_within fs) (values_within fs (suc depth) most) inside in
      accepted_fields fs depth most (ground arith) short rest

  accepted_items :
      (vs : Items) (depth most : ℕ)
      → depth ≤ most
      → items_within vs (suc depth) most ≡ true
      → (depth + items_height vs ≤ most) × SmallItems vs
  accepted_items nil depth most d h = (ground arith, tt)
  accepted_items (item v vs) depth most d h =
      let (a, b) =
        and_true (request_within_limits v (suc depth) most) (items_within vs (suc depth) most) h in
      let (deep, small) = accepted_value v (suc depth) most a in
      let (deep', small') = accepted_items vs depth most d b in
      (omega (arith, deep, deep'), (small, small'))

  accepted_fields :
      (fs : Fields) (depth most : ℕ)
      → depth ≤ most
      → keys_within fs ≡ true
      → values_within fs (suc depth) most ≡ true
      → (depth + values_height fs ≤ most) × SmallFields fs
  accepted_fields end depth most d short h = (ground arith, tt)
  accepted_fields (field k v fs) depth most d short h =
      let (s, short') = and_true (leb (len k) max_string_bytes) (keys_within fs) short in
      let (a, b) =
        and_true (request_within_limits v (suc depth) most) (values_within fs (suc depth) most) h in
      let (deep, small) = accepted_value v (suc depth) most a in
      let (deep', small') = accepted_fields fs depth most d short' b in
      (omega (arith, deep, deep'), (leb→le _ _ s, small, small'))

mutual
  unfolding request_within_limits height Small

  accepts_value :
      (v : Value) (depth most : ℕ)
      → depth + height v ≤ most
      → Small v
      → request_within_limits v depth most ≡ true
  accepts_value null depth most d s = rw (not_above depth 0 most d) refl
  accepts_value (bool b) depth most d s = rw (not_above depth 0 most d) refl
  accepts_value (number n) depth most d s = rw (not_above depth 0 most d) refl
  accepts_value (string t) depth most d s =
      rw (not_above depth 0 most d, within_bound (len t) max_string_bytes s) refl
  accepts_value (array vs) depth most d (few, s) =
      let inside = accepts_items vs depth most d s in
      rw
        (
          not_above depth (items_height vs) most d,
          within_bound (length (items vs)) max_array_items few,
          inside,
        )
        refl
  accepts_value (object fs) depth most d s =
      let (keys, inside) = accepts_fields fs depth most d s in
      rw (not_above depth (values_height fs) most d, keys, inside) refl

  accepts_items :
      (vs : Items) (depth most : ℕ)
      → depth + items_height vs ≤ most
      → SmallItems vs
      → items_within vs (suc depth) most ≡ true
  accepts_items nil depth most d s = refl
  accepts_items (item v vs) depth most d (s, ss) =
      rw
        (
          accepts_value v (suc depth) most (omega (arith, d)) s,
          accepts_items vs depth most (omega (arith, d)) ss,
        )
        refl

  accepts_fields :
      (fs : Fields) (depth most : ℕ)
      → depth + values_height fs ≤ most
      → SmallFields fs
      → (keys_within fs ≡ true) × (values_within fs (suc depth) most ≡ true)
  accepts_fields end depth most d s = (refl, refl)
  accepts_fields (field k v fs) depth most d (short, s, ss) =
      let (keys, inside) = accepts_fields fs depth most (omega (arith, d)) ss in
      (
        rw (within_bound (len k) max_string_bytes short, keys) refl,
        rw (accepts_value v (suc depth) most (omega (arith, d)) s, inside) refl,
      )

-- `request_within_limits` accepts a value at a depth if and only if the depth and the levels of arrays and
-- objects in the value come to at most the maximum, every text and key has at most 256 KiB, and every array
-- has at most 1024 items.
pub request_within_limits_iff :
    (v : Value) (depth max_depth : ℕ)
    → (request_within_limits v depth max_depth ≡ true) ↔ ((depth + height v ≤ max_depth) × Small v)
request_within_limits_iff v depth max_depth =
    (accepted_value v depth max_depth, λ h. accepts_value v depth max_depth h.0 h.1)
