-- ===== src/ReferenceSut/Sound.antt =====
-- Every order of the reference system stays sound, whatever the outside answers.
use psv.Base.{ℕ, ◌≡◌, refl, true, Option, is_some}
use psv.Base.Int.{ℤ}
use psv.Text.{Text}
use psv.ReferenceSut.State.{Order}
use psv.ReferenceSut.Kept.{IsConfirmClosed, IsClosed}

-- Content stands in an order exactly when it is paid, an identity only in a paid one, and the hash
-- and the authorization of an unresolved settlement come together.
abbrev pub IsSound : Order → Type 0
IsSound o =
    (is_some o.resource ≡ o.paid)
    × (is_some o.settlement_identity ≡ true → o.paid ≡ true)
    × (is_some o.pending_tx ≡ is_some o.pending_authorization)

pub IsSound-IsClosed : IsClosed IsSound
IsSound-IsClosed = record {
  confirming = record {
    waiting = λ o tx_hash authorization h. (h.0, h.1, refl);
    cleared = λ o h. (h.0, h.1, refl);
    booked = λ o h. (refl, λ e. refl, h.2);
    identified = λ o identity paid h. (h.0, λ e. paid, h.2);
  };
  attempted = λ o nonce h. h;
  submitted = λ o tx_hash h. h;
}

-- The id of an order never changes.
abbrev pub HasId : Text → Order → Type 0
HasId i o = o.order_id ≡ i

pub HasId-IsClosed : (i : Text) → IsClosed (HasId i)
HasId-IsClosed i = record {
  confirming = record {
    waiting = λ o tx_hash authorization h. h;
    cleared = λ o h. h;
    booked = λ o h. h;
    identified = λ o identity paid h. h;
  };
  attempted = λ o nonce h. h;
  submitted = λ o tx_hash h. h;
}

-- What has been paid stays paid, at the quoted price.
abbrev pub IsPaidAt : ℤ → Order → Type 0
IsPaidAt amount o = (o.paid ≡ true) × (o.amount ≡ amount)

pub IsPaidAt-IsClosed : (amount : ℤ) → IsClosed (IsPaidAt amount)
IsPaidAt-IsClosed amount = record {
  confirming = record {
    waiting = λ o tx_hash authorization h. h;
    cleared = λ o h. h;
    booked = λ o h. (refl, h.1);
    identified = λ o identity paid h. h;
  };
  attempted = λ o nonce h. h;
  submitted = λ o tx_hash h. h;
}

-- The attempts to settle, and the last transaction.
abbrev pub HasAttempts : ℕ → Option Text → Order → Type 0
HasAttempts n tx_hash o = (o.settle_attempts ≡ n) × (o.submitted_tx ≡ tx_hash)

pub HasAttempts-IsConfirmClosed :
    (n : ℕ) (tx_hash : Option Text) → IsConfirmClosed (HasAttempts n tx_hash)
HasAttempts-IsConfirmClosed n tx_hash = record {
  waiting = λ o tx authorization h. h;
  cleared = λ o h. h;
  booked = λ o h. h;
  identified = λ o identity paid h. h;
}
