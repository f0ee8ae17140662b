-- ===== src/Base/Outcome.antt =====
-- A call that returns or raises: Python's exceptions as values, over the errors of one component.
use mathlib.Core.Path.{◌≡◌, refl, subst}
use mathlib.Core.Bool.{Bool, true, false}

pub data Result {ℓ κ} (E : Type ℓ) (A : Type κ) : Type (ℓ ⊔ κ) where
  ok : A → Result E A
  err : E → Result E A

-- `if c: raise e`
unfoldable pub raise_if {ℓ} : {E : Type ℓ} → Bool → E → Result E (Unit {0})
raise_if true e = err e
raise_if false e = ok tt

-- Shut, so that the rules below can be applied to a `do` block; opening it opens `raise_if`.
infixl 5 ◌>>=◌ ◌>>◌
unfoldable pub ◌>>=◌ {ℓ κ μ} :
    {E : Type ℓ} {A : Type κ} {B : Type μ} → Result E A → (A → Result E B) → Result E B
unfolding raise_if
ok a >>= f = f a
err e >>= f = err e

abbrev pub ◌>>◌ {ℓ κ μ} :
    {E : Type ℓ} {A : Type κ} {B : Type μ} → Result E A → Result E B → Result E B
m >> k = m >>= λ _. k

-- `except Inner as exc: raise Outer(...) from exc`
abbrev pub reraise {ℓ κ μ} :
    {E : Type ℓ} {F : Type κ} {A : Type μ} → (E → F) → Result E A → Result F A
reraise f (ok a) = ok a
reraise f (err e) = err (f e)

-- Inversion of a bind that returned.
pub >>=-eq-ok {ℓ κ μ} :
    {E : Type ℓ} {A : Type κ} {B : Type μ} (m : Result E A) (f : A → Result E B) {b : B}
    → (m >>= f) ≡ ok b
    → (a : A) × (m ≡ ok a) × (f a ≡ ok b)
unfolding ◌>>=◌
>>=-eq-ok (ok a) f h = (a, refl, h)
>>=-eq-ok (err e) f h = cc

-- `P` holds of the value that a call returned; nothing is said of one that raised.
abbrev pub Holds {ℓ κ μ} : {E : Type ℓ} {A : Type κ} → (A → Type μ) → Result E A → Type μ
Holds P (ok a) = P a
Holds P (err e) = Unit

-- Whatever the call returns satisfies `P`.
pub record Ensures {ℓ κ μ} {E : Type ℓ} {A : Type κ} (P : A → Type μ) (r : Result E A)
    : Type μ where
  pub holds : Holds P r

pub Ensures-eq_ok {ℓ κ μ} :
    {E : Type ℓ} {A : Type κ} {P : A → Type μ} {r : Result E A} {a : A}
    → Ensures P r
    → r ≡ ok a
    → P a
Ensures-eq_ok {P} h e = subst (λ s. Holds P s) e h.holds

-- The rules of a `do` block: what a step ensures is at hand after it, or is passed over.
pub Ensures-bind {ℓ κ μ ν ξ} :
    {E : Type ℓ} {A : Type κ} {B : Type μ} {P : A → Type ν} {Q : B → Type ξ} {m : Result E A}
    {f : A → Result E B}
    → Ensures P m
    → ((a : A) → P a → Ensures Q (f a))
    → Ensures Q (m >>= f)
unfolding ◌>>=◌
Ensures-bind {m = ok a} h k = k a h.holds
Ensures-bind {m = err e} h k = record { holds = tt }

pub Ensures-skip {ℓ κ μ ξ} :
    {E : Type ℓ} {A : Type κ} {B : Type μ} {Q : B → Type ξ} (m : Result E A) (f : A → Result E B)
    → ((a : A) → Ensures Q (f a))
    → Ensures Q (m >>= f)
unfolding ◌>>=◌
Ensures-skip (ok a) f k = k a
Ensures-skip (err e) f k = record { holds = tt }

-- After a guard its test is known to have failed.
pub Ensures-raise_if {ℓ μ ξ} :
    {E : Type ℓ} {B : Type μ} {Q : B → Type ξ} (c : Bool) (e : E) (f : Unit {0} → Result E B)
    → (c ≡ false → Ensures Q (f tt))
    → Ensures Q (raise_if c e >>= f)
unfolding ◌>>=◌
Ensures-raise_if true e f k = record { holds = tt }
Ensures-raise_if false e f k = k refl

pub raise_if-eq_ok {ℓ} :
    {E : Type ℓ} (c : Bool) (e : E) {u : Unit {0}} → raise_if c e ≡ ok u → c ≡ false
unfolding raise_if
raise_if-eq_ok true e h = cc
raise_if-eq_ok false e h = refl

pub Ensures-self {ℓ κ} : {E : Type ℓ} {A : Type κ} (r : Result E A) → Ensures (λ a. r ≡ ok a) r
Ensures-self (ok a) = record { holds = refl }
Ensures-self (err e) = record { holds = tt }

-- What is ensured, with the result itself.
pub Ensures-with {ℓ κ μ} :
    {E : Type ℓ} {A : Type κ} {P : A → Type μ} (r : Result E A)
    → Ensures P r
    → Ensures (λ a. P a × (r ≡ ok a)) r
Ensures-with (ok a) h = record { holds = (h.holds, refl) }
Ensures-with (err e) h = record { holds = tt }

pub Ensures-map {ℓ κ μ ν} :
    {E : Type ℓ} {A : Type κ} {P : A → Type μ} {Q : A → Type ν} {r : Result E A}
    → Ensures P r
    → ((a : A) → P a → Q a)
    → Ensures Q r
Ensures-map {r = ok a} h k = record { holds = k a h.holds }
Ensures-map {r = err e} h k = record { holds = tt }

-- The converses: a step that returned is passed over.
pub bind-ok {ℓ κ μ} :
    {E : Type ℓ} {A : Type κ} {B : Type μ} {m : Result E A} (f : A → Result E B) {a : A}
    {r : Result E B}
    → m ≡ ok a
    → f a ≡ r
    → (m >>= f) ≡ r
unfolding ◌>>=◌
bind-ok {m = ok b} f e h = cc
bind-ok {m = err x} f e h = cc

pub raise_if-ok {ℓ} : {E : Type ℓ} (c : Bool) (e : E) → c ≡ false → raise_if c e ≡ ok tt
unfolding raise_if
raise_if-ok true e h = cc
raise_if-ok false e h = refl

pub then-eq_ok {ℓ κ μ} :
    {E : Type ℓ} {B : Type μ} (m : Result E (Unit {κ})) (f : Unit {κ} → Result E B) {b : B}
    → (m >>= f) ≡ ok b
    → (m ≡ ok tt) × (f tt ≡ ok b)
unfolding ◌>>=◌
then-eq_ok (ok tt) f h = (refl, h)
then-eq_ok (err e) f h = cc
