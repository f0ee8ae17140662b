-- ===== src/Rpc/Exec.antt =====
-- The methods of `RpcClient` in src/psv/anvil.py: they count their requests in `_id` and may raise.
-- A request that was sent stays counted when its answer is refused.
use psv.Base.{
  Ensures-with, ℕ, ◌≡◌, refl, Bool, true, false, Result, ok, err, Ensures, Ensures-eq_ok,
  Ensures-self, Ensures-map,
}
use psv.Rpc.{RpcFailure}

-- What a method does from a value of `_id`: its result, and the next value.
abbrev pub Exec : Type 0 → Type 0
Exec A = ℕ → Result RpcFailure A × ℕ

module _ {A : Type 0} where
  unfoldable pub pure : A → Exec A
  pure a id = (ok a, id)

  -- A check that sends no request.
  unfoldable pub lift : Result RpcFailure A → Exec A
  lift r id = (r, id)

unfoldable pub raise_if : Bool → RpcFailure → Exec (Unit {0})
raise_if true e id = (err e, id)
raise_if false e id = (ok tt, id)

module _ {A B : Type 0} where
  abbrev pub after : Result RpcFailure A × ℕ → (A → Exec B) → Result RpcFailure B × ℕ
  after (ok a, id) f = f a id
  after (err e, id) f = (err e, id)

  infixl 5 ◌>>=◌ ◌>>◌
  -- Opening it opens the ways to build a method.
  unfoldable pub ◌>>=◌ : Exec A → (A → Exec B) → Exec B
  unfolding pure lift raise_if
  ◌>>=◌ m f id = after (m id) f

  abbrev pub ◌>>◌ : Exec A → Exec B → Exec B
  m >> k = m >>= λ _. k

-- Whatever the method returns, from any value of `_id`, satisfies `P`.
pub record Yields {A : Type 0} (P : A → Type 0) (m : Exec A) : Type 0 where
  pub at : (id : ℕ) → Ensures P (m id).0

pub Yields-eq_ok :
    {A : Type 0} {P : A → Type 0} {m : Exec A} (id : ℕ) {a : A} → Yields P m → (m id).0 ≡ ok a → P a
Yields-eq_ok {P} id h e = Ensures-eq_ok {P = P} (h.at id) e

module _ {A : Type 0} where
  pub Yields-pure : {P : A → Type 0} (a : A) → P a → Yields P (pure a)
  unfolding pure
  Yields-pure a h = record { at = λ id. record { holds = h } }

  pub Yields-lift : {P : A → Type 0} (r : Result RpcFailure A) → Ensures P r → Yields P (lift r)
  unfolding lift
  Yields-lift r h = record { at = λ id. h }

  -- Nothing is known of the result of a method but that it returned it.
  pub Yields-any : (m : Exec A) → Yields (λ a. Unit {0}) m
  Yields-any m = record { at = λ id. Ensures-map (Ensures-self (m id).0) λ a e. tt }

module _ {A B : Type 0} {P : A → Type 0} {Q : B → Type 0} where
  Yields-after :
      (p : Result RpcFailure A × ℕ) (f : A → Exec B)
      → Ensures P p.0
      → ((a : A) → P a → Yields Q (f a))
      → Ensures Q (after p f).0
  Yields-after (ok a, id) f h k = (k a h.holds).at id
  Yields-after (err e, id) f h k = record { holds = tt }

  pub Yields-bind :
      (m : Exec A) (f : A → Exec B)
      → Yields P m
      → ((a : A) → P a → Yields Q (f a))
      → Yields Q (m >>= f)
  unfolding ◌>>=◌
  Yields-bind m f h k = record { at = λ id. Yields-after (m id) f (h.at id) k }

pub Yields-skip :
    {A B : Type 0} {Q : B → Type 0} (m : Exec A) (f : A → Exec B)
    → ((a : A) → Yields Q (f a))
    → Yields Q (m >>= f)
Yields-skip m f k = Yields-bind m f (Yields-any m) λ a _. k a

-- After a guard its test is known to have failed.
pub Yields-raise_if :
    {B : Type 0} {Q : B → Type 0} (c : Bool) (e : RpcFailure) (f : Unit {0} → Exec B)
    → (c ≡ false → Yields Q (f tt))
    → Yields Q (raise_if c e >>= f)
unfolding ◌>>=◌
Yields-raise_if true e f k = record { at = λ id. record { holds = tt } }
Yields-raise_if false e f k = record { at = λ id. (k refl).at id }

module _ {A B : Type 0} where
  after-returns :
      (p : Result RpcFailure A × ℕ) (f : A → Exec B) (a : A) (next : ℕ)
      → p.0 ≡ ok a
      → p.1 ≡ next
      → after p f ≡ f a next
  after-returns (ok b, id) f a next e n = cc
  after-returns (err x, id) f a next e n = cc

  -- A step that returned is passed over.
  pub bind-returns :
      (m : Exec A) (f : A → Exec B) (id : ℕ) (a : A) (next : ℕ)
      → (m id).0 ≡ ok a
      → (m id).1 ≡ next
      → (m >>= f) id ≡ f a next
  unfolding ◌>>=◌
  bind-returns m f id a next e n = after-returns (m id) f a next e n

  after-raises :
      (p : Result RpcFailure A × ℕ) (f : A → Exec B) (x : RpcFailure)
      → p.0 ≡ err x
      → after p f ≡ (err x, p.1)
  after-raises (ok b, id) f x e = cc
  after-raises (err y, id) f x e = cc

  pub bind-raises :
      (m : Exec A) (f : A → Exec B) (id : ℕ) (x : RpcFailure)
      → (m id).0 ≡ err x
      → (m >>= f) id ≡ (err x, (m id).1)
  unfolding ◌>>=◌
  bind-raises m f id x e = after-raises (m id) f x e

-- The same for a check, and for a guard whose test fails.
pub lift-returns :
    {A B : Type 0} (r : Result RpcFailure A) (f : A → Exec B) (id : ℕ) (a : A)
    → r ≡ ok a
    → (lift r >>= f) id ≡ f a id
unfolding lift
lift-returns r f id a e = bind-returns (lift r) f id a id e refl

pub raise_if-passes :
    {B : Type 0} (c : Bool) (e : RpcFailure) (f : Unit {0} → Exec B) (id : ℕ)
    → c ≡ false
    → (raise_if c e >>= f) id ≡ f tt id
unfolding ◌>>=◌
raise_if-passes true e f id h = cc
raise_if-passes false e f id h = refl

pub Yields-map :
    {A : Type 0} {P Q : A → Type 0} {m : Exec A} → Yields P m → ((a : A) → P a → Q a) → Yields Q m
Yields-map h k = record { at = λ id. Ensures-map (h.at id) k }

raised :
    {A : Type 0} (r : Result RpcFailure A) → Ensures (λ a. ⊥) r → (e : RpcFailure) × (r ≡ err e)
raised (ok a) h = elim h.holds [ ]
raised (err e) h = (e, refl)

-- A method that can return nothing raises.
pub Yields-raises :
    {A : Type 0} {m : Exec A} (id : ℕ) → Yields (λ a. ⊥) m → (e : RpcFailure) × ((m id).0 ≡ err e)
Yields-raises {m} id h = raised (m id).0 (h.at id)

-- The method has returned the value, after some number of requests.
abbrev pub IsRead : {A : Type 0} → Exec A → A → Type 0
IsRead m a = (id : ℕ) × ((m id).0 ≡ ok a)

module _ {A : Type 0} where
  pub Yields-IsRead : (m : Exec A) → Yields (IsRead m) m
  Yields-IsRead m = record { at = λ id. Ensures-map (Ensures-self (m id).0) λ a e. (id, e) }

  -- What is known of a result is known of one that was read.
  pub Yields-with : {P : A → Type 0} (m : Exec A) → Yields P m → Yields (λ a. P a × IsRead m a) m
  Yields-with m h = record {
    at = λ id. Ensures-map (Ensures-with (m id).0 (h.at id)) λ a (p, e). (p, (id, e));
  }
