-- ===== src/ReferenceSut/Orders.antt =====
-- The dict of orders: what a lookup finds after an order has been put.
use psv.Text.Laws.{text_eq_iff}
use psv.Base.{◌≡◌, subst, ◌≢◌, inl, inr, some, List, [], ◌∷◌, arith, Bool-cases, all, All}
use psv.Text.{Text, text_eq}
use psv.ReferenceSut.State.{put_order, find_order, Order}

pub find_order-id :
    (i : Text) (os : List Order) (o : Order) → find_order i os ≡ some o → o.order_id ≡ i
unfolding find_order
find_order-id i [] o e = absurd (cc)
find_order-id i (p ∷ os) o e = ground (arith, text_eq_iff p.order_id i, find_order-id i os o)

-- An order is found under its id after it has been put.
pub find_order-put_order :
    (p : Order) (os : List Order) → find_order p.order_id (put_order p os) ≡ some p
unfolding find_order put_order
find_order-put_order p [] = ground (arith, text_eq_iff p.order_id p.order_id)
find_order-put_order p (o ∷ os) =
    ground (arith, text_eq_iff p.order_id p.order_id, find_order-put_order p os)

-- Putting an order leaves the others alone.
pub find_order-put_order_other :
    (i : Text) (p : Order) (os : List Order)
    → p.order_id ≢ i
    → find_order i (put_order p os) ≡ find_order i os
unfolding find_order put_order
find_order-put_order_other i p [] h = ground (arith, text_eq_iff p.order_id i)
find_order-put_order_other i p (o ∷ os) h = ground (
  arith,
  text_eq_iff p.order_id i,
  text_eq_iff o.order_id p.order_id,
  text_eq_iff o.order_id i,
  find_order-put_order_other i p os h,
)

module _ (P : Order → Type 0) where
  pub put_order-All : (p : Order) (os : List Order) → P p → All P os → All P (put_order p os)
  unfolding put_order
  put_order-All p [] h all = (h, tt)
  put_order-All p (o ∷ os) h all = elim (Bool-cases (text_eq o.order_id p.order_id)) [
    | inl e ↦ rw e (h, all.1)
    | inr e ↦ rw e (all.0, put_order-All p os h all.1)
  ]

  pub find_order-All :
      (i : Text) (os : List Order) (o : Order) → All P os → find_order i os ≡ some o → P o
  unfolding find_order
  find_order-All i [] o all e = absurd (cc)
  find_order-All i (p ∷ os) o all e = elim (Bool-cases (text_eq p.order_id i)) [
    | inl t ↦ subst P (ground (arith, t)) all.0
    | inr t ↦ find_order-All i os o all.1 (ground (arith, t))
  ]
