-- ===== src/Prelude/Options.antt =====
-- Chains of optional results, and the tests that end them.
use mathlib.Core.Path.{◌≡◌, ap}
use mathlib.Core.Bool.{Bool}
use mathlib.Core.Option.{Option, none, some}
use native.Mathlib.Omega.{arith}
use s14code.Prelude.Tests.{if◌then◌else◌}

infixl 5 ◌>>=◌ ◌>>◌
abbrev pub ◌>>=◌ {κ μ} :
    {Early : Type κ} {Late : Type μ} → Option Early → (Early → Option Late) → Option Late
none >>= rest = none
some early >>= rest = rest early

abbrev pub ◌>>◌ {μ} : {Late : Type μ} → Option (Unit {0}) → Option Late → Option Late
early >> late = early >>= λ _. late

-- `if not b: raise ValueError`
abbrev pub require : Bool → Option (Unit {0})
require b = if b then some tt else none

pub some_inj {ℓ} : {A : Type ℓ} {a b : A} → some a ≡ some b → a ≡ b
some_inj {a = a} h = ap (λ o. elim o [ none ↦ a | some x ↦ x ]) h

-- What holds of each result of the rest holds of the result of the chain.
pub >>=-some {κ μ ν} :
    {Early : Type κ} {Late : Type μ} (P : Late → Type ν) (m : Option Early)
    (rest : Early → Option Late)
    → ((early : Early) (late : Late) → rest early ≡ some late → P late)
    → (late : Late) → (m >>= rest) ≡ some late
    → P late
>>=-some P none rest k late h = absurd (ground arith)
>>=-some P (some early) rest k late h = k early late h
