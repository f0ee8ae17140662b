-- ===== src/ReferenceSut/Reachable.antt =====
-- The states of the reference system: any requests in any order, with any answers of the outside.
use psv.ReferenceSut.Orders.{find_order-All, put_order-All}
use psv.ReferenceSut.Server.{pay_order, pay_found, pay}
use psv.Base.{
  ◌≡◌, refl, ◌⊎◌, inl, inr, Bool, true, false, Option, none, some, List, [], ◌∷◌, arith,
  Option-cases, All, ok, err,
}
use psv.Base.Int.{ℤ}
use psv.Text.{Text}
use psv.Value.{Fields}
use psv.ReferenceSut.State.{
  put_order, new_order, Answer, find_order, SutConfig, Order, Sut, Outside,
}
use psv.ReferenceSut.Sound.{IsSound, IsSound-IsClosed}
use psv.ReferenceSut.Kept.{pay_order-Kept}
use psv.ReferenceSut.Ledger.{
  status, resource_response, unreconciled_credits, recovered_order, quoted_order, heal,
  book_recovered, quote_at, quote, reconcile, restore_ledger, backup_ledger,
}
use psv.Reconciliation.Credit.{OnChainCredit}

-- The fair price may move, and a restore goes back to the ledger of any earlier state.
pub data Reachable (config : SutConfig) : Sut → Type 0 where
  started : Reachable config (record { fair_price = config.price; orders = [] })
  after_quote :
      (out : Outside) (sut : Sut) → Reachable config sut → Reachable config (quote out config sut).0
  after_pay :
      (out : Outside) (order_id : Text) (authorization : Fields) (sut : Sut)
      → Reachable config sut
      → Reachable config (pay out config order_id authorization sut).0
  after_reconcile :
      (out : Outside) (from_block : ℤ) (sut : Sut)
      → Reachable config sut
      → Reachable config (reconcile out config from_block sut).0
  repriced :
      (price : ℤ) (sut : Sut)
      → Reachable config sut
      → Reachable config (record sut { fair_price = price })
  after_restore :
      (old sut : Sut)
      → Reachable config old
      → Reachable config sut
      → Reachable config (restore_ledger (backup_ledger old) sut)

abbrev pub AllSound : Sut → Type 0
AllSound sut = All IsSound sut.orders

quote-AllSound :
    (out : Outside) (config : SutConfig) (sut : Sut) (r : Answer ℤ)
    → AllSound sut
    → AllSound (quote_at out config sut r).0
unfolding quote_at quoted_order new_order
quote-AllSound out config sut (err e) h = h
quote-AllSound out config sut (ok block_number) h =
    put_order-All IsSound (quoted_order out config sut.fair_price block_number) sut.orders
      (refl, λ e. cc, refl) h

pay-AllSound :
    (out : Outside) (config : SutConfig) (order_id : Text) (authorization : Fields) (sut : Sut)
    (found : Option Order)
    → AllSound sut
    → find_order order_id sut.orders ≡ found
    → AllSound (pay_found out config order_id authorization sut found).0
unfolding pay_found
pay-AllSound out config order_id authorization sut none h e = h
pay-AllSound out config order_id authorization sut (some o) h e =
    put_order-All IsSound (pay_order out config sut.fair_price o authorization).0 sut.orders
      (pay_order-Kept IsSound IsSound-IsClosed out config sut.fair_price o authorization
        (find_order-All IsSound order_id sut.orders o h e))
      h

book_recovered-All :
    (out : Outside) (credits : List OnChainCredit) (orders : List Order)
    → All IsSound orders
    → All IsSound (book_recovered out credits orders)
unfolding book_recovered recovered_order new_order
book_recovered-All out [] orders h = h
book_recovered-All out (c ∷ cs) orders h =
    book_recovered-All out cs (put_order (recovered_order out c) orders)
      (put_order-All IsSound (recovered_order out c) orders (refl, λ e. refl, refl) h)

heal-AllSound :
    (out : Outside) (enabled : Bool) (sut : Sut) (r : Answer (List OnChainCredit))
    → AllSound sut
    → AllSound (heal out enabled sut r).0
unfolding heal
heal-AllSound out enabled sut (err e) h = h
heal-AllSound out true sut (ok credits) h = book_recovered-All out credits sut.orders h
heal-AllSound out false sut (ok credits) h = h

pub Reachable-AllSound : (config : SutConfig) (sut : Sut) → Reachable config sut → AllSound sut
unfolding quote pay reconcile restore_ledger backup_ledger
Reachable-AllSound config _ started = tt
Reachable-AllSound config _ (after_quote out sut r) =
    quote-AllSound out config sut out.block_number (Reachable-AllSound config sut r)
Reachable-AllSound config _ (after_pay out order_id authorization sut r) =
    pay-AllSound out config order_id authorization sut (find_order order_id sut.orders)
      (Reachable-AllSound config sut r) refl
Reachable-AllSound config _ (after_reconcile out from_block sut r) =
    heal-AllSound out config.reconciliation_enabled sut
      (unreconciled_credits out config from_block sut.orders) (Reachable-AllSound config sut r)
Reachable-AllSound config _ (repriced price sut r) = Reachable-AllSound config sut r
Reachable-AllSound config _ (after_restore old sut q r) = Reachable-AllSound config old q

-- In every state that the system can reach, content stands in an order exactly when it is paid, an
-- identity only in a paid one, and the two parts of an unresolved settlement together.
pub Reachable-IsSound :
    (config : SutConfig) (sut : Sut) (order_id : Text) (o : Order)
    → Reachable config sut
    → find_order order_id sut.orders ≡ some o
    → IsSound o
Reachable-IsSound config sut order_id o r =
    find_order-All IsSound order_id sut.orders o (Reachable-AllSound config sut r)

-- The endpoint serves content for the paid orders and no other: in a reachable state the response is
-- either 200 with the content that stands in the paid order of that id, or 402 with none, for an order that is not paid or not
-- known.
pub Reachable-resource :
    (config : SutConfig) (sut : Sut) (order_id : Text)
    → Reachable config sut
    → ((o : Order) × (content : Text) × (find_order order_id sut.orders ≡ some o)
        × (o.paid ≡ true)
        × (o.resource ≡ some content)
        × (resource_response order_id sut ≡ (200, some content)))
      ⊎ (((o : Order) → find_order order_id sut.orders ≡ some o → o.paid ≡ false)
          × (resource_response order_id sut ≡ (402, none)))
unfolding resource_response status
Reachable-resource config sut order_id r = elim (Option-cases (find_order order_id sut.orders)) [
  | inl n ↦ inr (λ o e. absurd (cc (n, e)), ground (arith, n))
  | inr (o, e) ↦
      let sound = Reachable-IsSound config sut order_id o r e in
      elim (Option-cases o.resource) [
        | inl n ↦ inr (λ q f. ground (arith, n, sound.0, e, f), ground (arith, n, sound.0, e))
        | inr (content, c) ↦
            inl (o, content, e, ground (arith, c, sound.0), c, ground (arith, c, e, sound.0))
      ]
]
