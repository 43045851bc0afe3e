-- ===== src/Faults.antt =====
-- How a resolution of a call ends: with a result, a diagnostic, or a panic of an `unwrap` or an index in
-- crates/core/src/lib.rs.
use agent_capability_gate.Prelude.{
  ◌≡◌, ◌≢◌, refl, Option, none, some, [], ◌∷◌, Result, ok, err, ◌>>=◌, ok_or, List, for_each,
}
use agent_capability_gate.Diagnostics.{Diagnostic, Checked, invalid}
use agent_capability_gate.Schema.Validate.{Issues, accepted}

-- How a resolution ends without a result: with a diagnostic, or in a panic of an `unwrap`.
pub data Fault : Type 0 where
  rejected : Diagnostic → Fault
  panicked : Fault

abbrev pub unwrap : {A : Type 0} → Option A → Result Fault A
unwrap (some a) = ok a
unwrap none = err panicked

abbrev pub lift : {A : Type 0} → Checked A → Result Fault A
lift (ok a) = ok a
lift (err d) = err (rejected d)

-- The first issue of a rejected input; `issues[0]` panics where there is none.
abbrev pub first_issue : Result Issues (Unit {0}) → Result Fault (Unit {0})
first_issue (ok u) = ok u
first_issue (err []) = err panicked
first_issue (err (i ∷ is)) = err (rejected (invalid i.path i.constraint))

abbrev pub NoPanic : {A : Type 0} → Result Fault A → Type 0
NoPanic (ok a) = Unit
NoPanic (err (rejected d)) = Unit
NoPanic (err panicked) = ⊥

pub NoPanic-bind :
    {A B : Type 0} (m : Result Fault A) (f : A → Result Fault B)
    → NoPanic m
    → ((a : A) → m ≡ ok a → NoPanic (f a))
    → NoPanic (m >>= f)
NoPanic-bind (ok a) f h k = k a refl
NoPanic-bind (err (rejected d)) f h k = tt
NoPanic-bind (err panicked) f h k = h

pub NoPanic-lift : {A : Type 0} (m : Checked A) → NoPanic (lift m)
NoPanic-lift (ok a) = tt
NoPanic-lift (err d) = tt

pub NoPanic-first_issue : (is : Issues) → NoPanic (first_issue (accepted is))
NoPanic-first_issue [] = tt
NoPanic-first_issue (i ∷ is) = tt

pub lift-ok_or-eq-ok :
    {A : Type 0} (o : Option A) (d : Diagnostic) (a : A) → lift (ok_or o d) ≡ ok a → o ≡ some a
lift-ok_or-eq-ok (some b) d a h = cc
lift-ok_or-eq-ok none d a h = cc

pub accepted_of_first_issue :
    (r : Result Issues (Unit {0})) (u : Unit {0}) → first_issue r ≡ ok u → r ≡ ok tt
accepted_of_first_issue (ok u) v h = refl
accepted_of_first_issue (err []) v h = cc
accepted_of_first_issue (err (i ∷ is)) v h = cc

pub ne_panicked_of_NoPanic : {A : Type 0} (m : Result Fault A) → NoPanic m → m ≢ err panicked
ne_panicked_of_NoPanic (ok a) h e = cc
ne_panicked_of_NoPanic (err (rejected d)) h e = cc
ne_panicked_of_NoPanic (err panicked) h e = h

pub lift-eq-ok : {A : Type 0} (m : Checked A) (a : A) → lift m ≡ ok a → m ≡ ok a
lift-eq-ok (ok b) a h = cc
lift-eq-ok (err d) a h = cc

-- A loop whose steps do not panic does not panic.
pub for_each-NoPanic :
    {A S : Type 0} (step : A → S → Result Fault S) (xs : List A) (s : S)
    → ((a : A) (t : S) → NoPanic (step a t))
    → NoPanic (for_each step xs s)
unfolding for_each
for_each-NoPanic step [] s safe = tt
for_each-NoPanic step (a ∷ xs) s safe =
    NoPanic-bind (step a s) _ (safe a s) λ t e. for_each-NoPanic step xs t safe

pub unwrap-eq-ok : {A : Type 0} (o : Option A) (a : A) → unwrap o ≡ ok a → o ≡ some a
unwrap-eq-ok (some b) a h = cc
unwrap-eq-ok none a h = cc

pub NoPanic-unwrap-some : {A : Type 0} (o : Option A) (a : A) → o ≡ some a → NoPanic (unwrap o)
NoPanic-unwrap-some (some b) a h = tt
NoPanic-unwrap-some none a h = cc
