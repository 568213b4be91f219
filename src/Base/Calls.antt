-- ===== src/Base/Calls.antt =====
-- What a call of C code comes to: a result, a failed `assert`, a fault (an access outside an
-- array or through a dangling pointer), or a loop that does not end.
use mathlib.Core.Bool.{Bool, true, false}
use mathlib.Core.Path.{◌≡◌, refl}
use mathlib.Core.Option.{Option, none, some}
use vlbi_streamer.Base.Tests.{if◌then◌else◌}

pub data Outcome {ℓ} (A : Type ℓ) : Type ℓ where
  ok : A → Outcome A
  aborted : Outcome A
  faulted : Outcome A
  diverged : Outcome A

infixl 5 ◌>>=◌ ◌>>◌
abbrev pub ◌>>=◌ {ℓ κ} : {A : Type ℓ} {B : Type κ} → Outcome A → (A → Outcome B) → Outcome B
ok a >>= f = f a
aborted >>= f = aborted
faulted >>= f = faulted
diverged >>= f = diverged

abbrev pub ◌>>◌ {ℓ} : {B : Type ℓ} → Outcome (Unit {0}) → Outcome B → Outcome B
m >> k = m >>= λ _. k

-- `assert(b)`, with assertions compiled in, as the build files leave them.
abbrev pub check : Bool → Outcome (Unit {0})
check true = ok tt
check false = aborted

-- A read through a pointer that may lead nowhere.
abbrev pub or_fault {ℓ} : {A : Type ℓ} → Option A → Outcome A
or_fault (some a) = ok a
or_fault none = faulted

-- A loop with fuel, whose `none` says that it did not end.
abbrev pub or_diverge {ℓ} : {A : Type ℓ} → Option A → Outcome A
or_diverge (some a) = ok a
or_diverge none = diverged

-- What a result has, if there is one.
abbrev pub Ensures {ℓ κ} : {A : Type ℓ} → (A → Type κ) → Outcome A → Type κ
Ensures P (ok a) = P a
Ensures P aborted = Unit
Ensures P faulted = Unit
Ensures P diverged = Unit

pub Ensures-bind {ℓ μ κ ν} :
    {A : Type ℓ} {B : Type μ} (P : A → Type κ) (Q : B → Type ν) (o : Outcome A) (f : A → Outcome B)
    → Ensures P o
    → ((a : A) → P a → Ensures Q (f a))
    → Ensures Q (o >>= f)
Ensures-bind P Q (ok a) f h next = next a h
Ensures-bind P Q aborted f h next = tt
Ensures-bind P Q faulted f h next = tt
Ensures-bind P Q diverged f h next = tt

pub Ensures-any {ℓ κ} :
    {A : Type ℓ} (P : A → Type κ) (o : Outcome A) → ((a : A) → P a) → Ensures P o
Ensures-any P (ok a) h = h a
Ensures-any P aborted h = tt
Ensures-any P faulted h = tt
Ensures-any P diverged h = tt

pub bind_cong {ℓ μ κ} :
    {A : Type ℓ} {B : Type μ} (P : A → Type κ) (o : Outcome A) (f g : A → Outcome B)
    → Ensures P o
    → ((a : A) → P a → f a ≡ g a)
    → o >>= f ≡ o >>= g
bind_cong P (ok a) f g h next = next a h
bind_cong P aborted f g h next = refl
bind_cong P faulted f g h next = refl
bind_cong P diverged f g h next = refl

pub Ensures-map {ℓ κ ν} :
    {A : Type ℓ} (P : A → Type κ) (Q : A → Type ν) (o : Outcome A)
    → Ensures P o
    → ((a : A) → P a → Q a)
    → Ensures Q o
Ensures-map P Q (ok a) h f = f a h
Ensures-map P Q aborted h f = tt
Ensures-map P Q faulted h f = tt
Ensures-map P Q diverged h f = tt

pub Ensures-if {ℓ κ} :
    {A : Type ℓ} (P : A → Type κ) (b : Bool) (x y : Outcome A)
    → (b ≡ true → Ensures P x)
    → (b ≡ false → Ensures P y)
    → Ensures P (if b then x else y)
Ensures-if P true x y h h' = h refl
Ensures-if P false x y h h' = h' refl
