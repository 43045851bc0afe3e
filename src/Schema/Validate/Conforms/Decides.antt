-- ===== src/Schema/Validate/Conforms/Decides.antt =====
-- Checks that add issues to a list: `Decides f P` says that `f` adds none exactly when `P` holds.
use agent_capability_gate.Prelude.{
  ℕ, suc, String, ◌≡◌, ◌≢◌, refl, ◌↔◌, Bool, true, false, not, Option, none, some, List, [], ◌∷◌,
  ◌++◌, length, any, All, Map, contains_key, or_false, leb, if◌then◌else◌, decimal, ◌+++◌,
}
use agent_capability_gate.Json.{Value}
use agent_capability_gate.Json.Equal.{schema_values_equal}
use agent_capability_gate.Diagnostics.{ValidationIssue, ◌/+◌, max_diagnostics}
use agent_capability_gate.Pointer.{escape_ptr}
use agent_capability_gate.Schema.{CompiledSchema, SchemaNode, kind_name}
use agent_capability_gate.Schema.Validate.{
  Issues, push_if, check_required, check_additional, has_duplicate, validate_each, validate_found,
  enter, has_kind, in_enum,
}
use agent_capability_gate.Schema.Validate.Conforms.{Bounded, AllDistinct}

abbrev pub Decides : (Issues → Issues) → Type 0 → Type 0
Decides f P = (is : Issues) → (f is ≡ []) ↔ ((is ≡ []) × P)

append-ne-nil : (is : Issues) (i : ValidationIssue) → (is ++ i ∷ []) ≢ []
append-ne-nil [] i h = cc
append-ne-nil (j ∷ is) i h = cc

pub Decides-push_if :
    (b : Bool) (path constraint : String) → Decides (push_if b path constraint) (b ≡ false)
Decides-push_if true path constraint is =
    ((λ h. absurd (append-ne-nil is _ h)), λ h. absurd (cc (h.1)))
Decides-push_if false path constraint is = ((λ h. (h, refl)), λ h. h.0)

pub Decides-compose :
    {f g : Issues → Issues} {P Q : Type 0}
    → Decides f P
    → Decides g Q
    → Decides (λ is. g (f is)) (P × Q)
Decides-compose {f} df dg is = (
  (λ h. let (a, q) = (dg (f is)).0 h in let (b, p) = (df is).0 a in (b, (p, q))),
  λ h. (dg (f is)).1 ((df is).1 (h.0, h.1.0), h.1.1),
)

pub Decides-id : Decides (λ is. is) (Unit {0})
Decides-id is = ((λ h. (h, tt)), λ h. h.0)

pub Decides-iff :
    {f : Issues → Issues} {P Q : Type 0} → Decides f P → (P → Q) → (Q → P) → Decides f Q
Decides-iff df to from is =
    ((λ h. let (a, p) = (df is).0 h in (a, to p)), λ h. (df is).1 (h.0, from h.1))

not-false_iff : (b : Bool) → (not b ≡ false) ↔ (b ≡ true)
not-false_iff true = ((λ h. refl), λ h. refl)
not-false_iff false = ((λ h. cc), λ h. cc)

Decides-unless :
    (b : Bool) (path constraint : String) → Decides (push_if (not b) path constraint) (b ≡ true)
Decides-unless b path constraint =
    Decides-iff (Decides-push_if (not b) path constraint) (not-false_iff b).0 (not-false_iff b).1

pub Decides-check_required :
    (ks : List String) (obj : Map Value) (path : String)
    → Decides (check_required ks obj path) (All (λ k. contains_key k obj ≡ true) ks)
unfolding check_required
Decides-check_required [] obj path = Decides-id
Decides-check_required (k ∷ ks) obj path =
    Decides-compose (Decides-unless (contains_key k obj) (path /+ escape_ptr k) "required")
      (Decides-check_required ks obj path)

pub Decides-check_additional :
    (ks : List String) (ps : Map CompiledSchema) (path : String)
    → Decides (check_additional ks ps path) (All (λ k. contains_key k ps ≡ true) ks)
unfolding check_additional
Decides-check_additional [] ps path = Decides-id
Decides-check_additional (k ∷ ks) ps path =
    Decides-compose
      (Decides-unless (contains_key k ps) (path /+ escape_ptr k) "additionalProperties:false")
      (Decides-check_additional ks ps path)

pub Decides-validate_found :
    (check : Value → Issues → Issues) (P : Value → Type 0) (o : Option Value)
    → ((v : Value) → Decides (check v) (P v))
    → Decides (validate_found check o) (Bounded o P)
Decides-validate_found check P none d = Decides-id
Decides-validate_found check P (some v) d = d v

pub Decides-validate_each :
    (check : Value → String → Issues → Issues) (P : Value → Type 0) (index : ℕ) (vs : List Value)
    (path : String)
    → ((v : Value) (p : String) → Decides (check v p) (P v))
    → Decides (validate_each check index vs path) (All P vs)
unfolding validate_each
Decides-validate_each check P index [] path d = Decides-id
Decides-validate_each check P index (v ∷ vs) path d =
    Decides-compose (d v (path /+ decimal index))
      (Decides-validate_each check P (suc index) vs path d)

-- With no issue so far the limit is not reached.
under_limit : (is : Issues) → is ≡ [] → leb max_diagnostics (length is) ≡ false
under_limit [] h = refl
under_limit (i ∷ is) h = cc

enter-ne-nil-at_limit : (is : Issues) → leb max_diagnostics (length is) ≡ true → is ≢ []
enter-ne-nil-at_limit is h e = cc (under_limit is e)

module _ {check : Issues → Issues} {P : Type 0} (d : Decides check P) where
  entered :
      (limit kind listed : Bool) (path c t : String) (is : Issues)
      → (limit ≡ true → is ≢ [])
      → (if limit
          then is
          else if kind
          then check (push_if (not listed) path c is)
          else push_if true path t is)
        ≡ []
      → (is ≡ []) × ((kind ≡ true) × (listed ≡ true) × P)
  entered true kind listed path c t is full h = absurd (full refl h)
  entered false true listed path c t is full h =
      let (a, p) = (d (push_if (not listed) path c is)).0 h in
      let (b, q) = (Decides-unless listed path c is).0 a in (b, (refl, q, p))
  entered false false listed path c t is full h = absurd (append-ne-nil is _ h)

  pub Decides-enter :
      (n : SchemaNode) (v : Value) (path : String)
      → Decides
          (λ is. enter n v path is check)
          ((has_kind n.kind v ≡ true) × (in_enum n.enum_values v ≡ true) × P)
  Decides-enter n v path is = (
    entered (leb max_diagnostics (length is)) (has_kind n.kind v) (in_enum n.enum_values v) path
        "enum" ("type:" +++ kind_name n.kind) is (enter-ne-nil-at_limit is),
    λ (e, (k, l, p)).
        rw (under_limit is e, k)
          ((d _).1 ((Decides-unless (in_enum n.enum_values v) path "enum" is).1 (e, l), p)),
  )

any-false_iff :
    (p : Value → Bool) (vs : List Value) → (any p vs ≡ false) ↔ All (λ v. p v ≡ false) vs
any-false_iff p [] = ((λ h. tt), λ h. refl)
any-false_iff p (v ∷ vs) = (
  (λ h. let (a, b) = or_false (p v) (any p vs) h in (a, (any-false_iff p vs).0 b)),
  λ (a, b). rw (a, (any-false_iff p vs).1 b),
)

module _ (Q : Value → Value → Type 0) where
  -- Each of the first values relates to each of the second.
  abbrev Across : List Value → List Value → Type 0
  Across ps vs = All (λ p. All (Q p) vs) ps

  Across-nil : (ps : List Value) → Across ps []
  Across-nil [] = tt
  Across-nil (p ∷ ps) = (tt, Across-nil ps)

  Across-split :
      (ps : List Value) (v : Value) (vs : List Value)
      → (All (λ p. Q p v) ps × (Across (ps ++ v ∷ []) vs)) ↔ (Across ps (v ∷ vs) × All (Q v) vs)
  Across-split [] v vs = ((λ (a, (b, c)). (tt, b)), λ (a, b). (tt, (b, tt)))
  Across-split (p ∷ ps) v vs = (
    (λ ((a, aa), (b, bs)). let (c, e) = (Across-split ps v vs).0 (aa, bs) in (((a, b), c), e)),
    λ (((a, b), c), e). let (aa, bs) = (Across-split ps v vs).1 (c, e) in ((a, aa), (b, bs)),
  )

abbrev Differ : Value → Value → Type 0
Differ v w = schema_values_equal v w ≡ false

has_duplicate-false_iff :
    (ps vs : List Value) → (has_duplicate ps vs ≡ false) ↔ (Across Differ ps vs × AllDistinct vs)
unfolding has_duplicate
has_duplicate-false_iff ps [] = ((λ h. (Across-nil Differ ps, tt)), λ h. refl)
has_duplicate-false_iff ps (v ∷ vs) = (
  (λ h.
      let (a, b) = or_false _ _ h in
      let (c, e) = (has_duplicate-false_iff (ps ++ v ∷ []) vs).0 b in
      let (f, g) = (Across-split Differ ps v vs).0 ((any-false_iff _ ps).0 a, c) in (f, (g, e))),
  λ (f, (g, e)).
      let (a, c) = (Across-split Differ ps v vs).1 (f, g) in
      rw ((any-false_iff (λ p. schema_values_equal p v) ps).1 a)
        ((has_duplicate-false_iff (ps ++ v ∷ []) vs).1 (c, e)),
)

pub has_duplicate-nil_iff : (vs : List Value) → (has_duplicate [] vs ≡ false) ↔ AllDistinct vs
has_duplicate-nil_iff vs =
    ((λ h. ((has_duplicate-false_iff [] vs).0 h).1), λ h. (has_duplicate-false_iff [] vs).1 (tt, h))
