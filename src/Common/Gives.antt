-- ===== src/Common/Gives.antt =====
-- What holds of the value of an outcome, if it has one.
use mathlib.Core.Path.{◌≡◌, refl, subst}
use mathlib.Core.Bool.{Bool, true, false}
use elfex.Common.Outcome.{Outcome, ok, err, panic, stuck, ErrorKind, fail, ◌>>=◌, ok-injective}
use elfex.Common.Tests.{if◌then◌else◌}

pub record Gives {A : Type 0} (P : A → Type 0) (m : Outcome A) : Type 0 where
  pub holds : (a : A) → m ≡ ok a → P a

pub Gives-ok : {A : Type 0} {P : A → Type 0} {a : A} → P a → Gives P (ok a)
Gives-ok {A} {P} h = record { holds = λ b e. subst P (ok-injective e) h }

pub Gives-fail : {A : Type 0} {P : A → Type 0} {k : ErrorKind} → Gives P (fail k)
Gives-fail = record { holds = λ b e. absurd (cc) }

pub Gives-bind :
    {A B : Type 0} {P : A → Type 0} {Q : B → Type 0} (m : Outcome A) {f : A → Outcome B}
    → Gives P m
    → ((a : A) → P a → Gives Q (f a))
    → Gives Q (m >>= f)
Gives-bind (ok a) h k = k a (h.holds a refl)
Gives-bind (err e) h k = record { holds = λ b p. absurd (cc) }
Gives-bind panic h k = record { holds = λ b p. absurd (cc) }
Gives-bind stuck h k = record { holds = λ b p. absurd (cc) }

pub Gives-if :
    {A : Type 0} {P : A → Type 0} (test : Bool) {m n : Outcome A}
    → Gives P m
    → Gives P n
    → Gives P (if test then m else n)
Gives-if true h k = h
Gives-if false h k = k

-- Of any outcome nothing is known but that it is one.
pub Gives-any : {A : Type 0} {m : Outcome A} → Gives (λ (a : A). Unit {0}) m
Gives-any = record { holds = λ a e. tt }

pub Gives-weaken :
    {A : Type 0} {P Q : A → Type 0} {m : Outcome A} → Gives P m → ((a : A) → P a → Q a) → Gives Q m
Gives-weaken h k = record { holds = λ a e. k a (h.holds a e) }

pub Gives-stuck : {A : Type 0} {P : A → Type 0} → Gives P stuck
Gives-stuck = record { holds = λ b e. absurd (cc) }

pub Gives-panic : {A : Type 0} {P : A → Type 0} → Gives P panic
Gives-panic = record { holds = λ b e. absurd (cc) }

-- A handler of errors.
pub Gives-handle :
    {A B : Type 0} {P : A → Type 0} {Q : B → Type 0} (m : Outcome A) (f : A → Outcome B)
    (d : Outcome B)
    → Gives P m
    → ((a : A) → P a → Gives Q (f a))
    → Gives Q d
    → Gives Q (elim m [ ok a ↦ f a | err e ↦ d | panic ↦ panic | stuck ↦ stuck ])
Gives-handle (ok a) f d h k l = k a (h.holds a refl)
Gives-handle (err e) f d h k l = l
Gives-handle panic f d h k l = Gives-panic
Gives-handle stuck f d h k l = Gives-stuck
