-- ===== src/ReferenceSut/Recovery.antt =====
-- Reconciliation of the reference system heals its ledger.
use psv.Reconciliation.Healing.{no_members, Returns-too}
use psv.ReferenceSut.Orders.{put_order-All}
use psv.Text.Laws.{text_eq_iff}
use psv.Base.{
  ◌≡◌, refl, sym, ap, subst, ◌∙◌, ◌⊎◌, inl, inr, Bool, true, false, Option, none, some, List, [],
  ◌∷◌, ◌++◌, arith, if-both, if-cases, All, In, Result, ok, err, ◌>>=◌, reraise, >>=-eq-ok,
}
use psv.Value.{Fields}
use psv.Base.Int.{ℤ}
use psv.Text.{Text, codes, text_eq}
use psv.ReferenceSut.State.{
  reconciliation_error, new_order, put_order, SutConfig, Order, Sut, Outside, Answer,
}
use psv.ReferenceSut.Ledger.{
  heal, book_recovered, add_known, recovered_order, reconcile, unreconciled_credits,
  known_identities,
}
use psv.Reconciliation.Credit.{topic_transfer, SettlementIdentity, OnChainCredit}
use psv.Reconciliation.Find.{LedgerEntry, find_unreconciled}
use psv.Reconciliation.Fields.{topic_addr}
use psv.Reconciliation.Ledger.{find_unreconciled_iff, Known}

abbrev pub recovery_id : Outside → SettlementIdentity → Text
recovery_id out i = codes "rec_" ++ out.identity_digest i

-- SHA-256 has no collision among the identities of these credits.
abbrev pub IsCollisionFree : Outside → List OnChainCredit → Type 0
IsCollisionFree out credits =
    (c d : OnChainCredit)
    → In c credits
    → In d credits
    → out.identity_digest c.identity ≡ out.identity_digest d.identity
    → c.identity ≡ d.identity

-- The order is paid by the settlement.
abbrev pub IsPaidBy : SettlementIdentity → Order → Type 0
IsPaidBy i o = (o.paid ≡ true) × (o.settlement_identity ≡ some i)

-- An order that stands under the id of the recovery of one of these credits is that recovery.
abbrev pub IsHonest : Outside → List OnChainCredit → Order → Type 0
IsHonest out credits o =
    (c : OnChainCredit)
    → In c credits
    → o.order_id ≡ recovery_id out c.identity
    → IsPaidBy c.identity o

recovery_id-injective :
    (out : Outside) (credits : List OnChainCredit) (c d : OnChainCredit)
    → IsCollisionFree out credits
    → In c credits
    → In d credits
    → recovery_id out c.identity ≡ recovery_id out d.identity
    → c.identity ≡ d.identity
unfolding codes
recovery_id-injective out credits c d free m n e = free c d m n (cc e)

recovered_order-IsHonest :
    (out : Outside) (credits : List OnChainCredit) (c : OnChainCredit)
    → IsCollisionFree out credits
    → In c credits
    → IsHonest out credits (recovered_order out c)
unfolding recovered_order new_order
recovered_order-IsHonest out credits c free m d n e =
    (refl, ap some (recovery_id-injective out credits c d free m n e))

abbrev pub Books : SettlementIdentity → List Order → Type 0
Books i [] = ⊥
Books i (o ∷ os) = IsPaidBy i o ⊎ Books i os

add_known-in :
    (i : SettlementIdentity) (paid : Bool) (j : Option SettlementIdentity) (es : List LedgerEntry)
    → ((paid ≡ true) × (j ≡ some i)) ⊎ Known i es
    → Known i (add_known paid j es)
add_known-in i true (some j) es (inl (p, e)) = inl (ground arith)
add_known-in i true (some j) es (inr k) = inr k
add_known-in i true none es (inl (p, e)) = absurd (cc)
add_known-in i true none es (inr k) = k
add_known-in i false j es (inl (p, e)) = absurd (cc)
add_known-in i false j es (inr k) = k

add_known-cases :
    (i : SettlementIdentity) (paid : Bool) (j : Option SettlementIdentity) (es : List LedgerEntry)
    → Known i (add_known paid j es)
    → ((paid ≡ true) × (j ≡ some i)) ⊎ Known i es
add_known-cases i true (some j) es (inl e) = inl (refl, ground arith)
add_known-cases i true (some j) es (inr k) = inr k
add_known-cases i true none es k = inr k
add_known-cases i false j es k = inr k

pub Books-Known :
    (i : SettlementIdentity) (os : List Order) → Books i os → Known i (known_identities os)
unfolding known_identities
Books-Known i [] b = absurd b
Books-Known i (o ∷ os) (inl p) =
    add_known-in i o.paid o.settlement_identity (known_identities os) (inl p)
Books-Known i (o ∷ os) (inr b) =
    add_known-in i o.paid o.settlement_identity (known_identities os) (inr (Books-Known i os b))

pub Known-Books :
    (i : SettlementIdentity) (os : List Order) → Known i (known_identities os) → Books i os
unfolding known_identities
Known-Books i [] k = absurd k
Known-Books i (o ∷ os) k =
    elim (add_known-cases i o.paid o.settlement_identity (known_identities os) k) [
      | inl p ↦ inl p
      | inr b ↦ inr (Known-Books i os b)
    ]

-- Putting a recovery books its settlement, and forgets none that is booked.
put_order-Books :
    (out : Outside) (credits : List OnChainCredit) (c : OnChainCredit) (i : SettlementIdentity)
    (os : List Order)
    → In c credits
    → All (IsHonest out credits) os
    → Books i os
    → Books i (put_order (recovered_order out c) os)
unfolding put_order recovered_order new_order
put_order-Books out credits c i [] n h b = absurd b
put_order-Books out credits c i (o ∷ os) n h b =
    if-cases (Books i) (text_eq o.order_id (recovery_id out c.identity))
      (λ t. elim b [
        | inl p ↦ inl (
          refl,
          sym (h.0 c n ((text_eq_iff o.order_id (recovery_id out c.identity)).0 t)).1 ∙ p.1,
        )
        | inr m ↦ inr m
      ])
      (λ f. elim b [ inl p ↦ inl p | inr m ↦ inr (put_order-Books out credits c i os n h.1 m) ])

put_order-booked :
    (out : Outside) (c : OnChainCredit) (os : List Order)
    → Books c.identity (put_order (recovered_order out c) os)
unfolding put_order recovered_order
put_order-booked out c [] = inl (refl, refl)
put_order-booked out c (o ∷ os) =
    if-both (Books c.identity) (text_eq o.order_id (recovered_order out c).order_id)
      (inl (refl, refl)) (inr (put_order-booked out c os))

book_recovered-Books :
    (out : Outside) (credits : List OnChainCredit) (i : SettlementIdentity)
    (cs : List OnChainCredit) (os : List Order)
    → IsCollisionFree out credits
    → ((c : OnChainCredit) → In c cs → In c credits)
    → All (IsHonest out credits) os
    → ((c : OnChainCredit) × In c cs × (i ≡ c.identity)) ⊎ Books i os
    → Books i (book_recovered out cs os)
unfolding book_recovered
book_recovered-Books out credits i [] os free sub h (inl (c, m, e)) = absurd m
book_recovered-Books out credits i [] os free sub h (inr b) = b
book_recovered-Books out credits i (d ∷ cs) os free sub h b =
    let here = sub d (inl refl) in
    book_recovered-Books out credits i cs (put_order (recovered_order out d) os) free
      (λ c m. sub c (inr m))
      (put_order-All (IsHonest out credits) (recovered_order out d) os
        (recovered_order-IsHonest out credits d free here) h)
      (elim b [
        | inl (c, inl q, e) ↦ inr (
            subst (λ j. Books j (put_order (recovered_order out d) os))
              (sym (e ∙ ap (λ (x : OnChainCredit). x.identity) q)) (put_order-booked out d os))
        | inl (c, inr m, e) ↦ inl (c, m, e)
        | inr k ↦ inr (put_order-Books out credits d i os here h k)
      ])

-- Once the missing credits are booked as recovered orders, the same logs have nothing missing.
recovered_heals :
    (out : Outside) (logs : List Fields) (os : List Order) (chain_id : ℤ)
    (asset payee : Option Text) (cs : List OnChainCredit)
    → IsCollisionFree out cs
    → All (IsHonest out cs) os
    → find_unreconciled logs (known_identities os) chain_id asset payee ≡ ok cs
    → find_unreconciled logs (known_identities (book_recovered out cs os)) chain_id asset payee
      ≡ ok []
recovered_heals out logs os chain_id asset payee cs free h e =
    let before = known_identities os in
    let after = known_identities (book_recovered out cs os) in
    let (cs', k) = Returns-too logs before after chain_id asset payee cs e in
    k
    ∙ ap ok (
        no_members cs' λ c m.
          let (found, (here, new)) =
            (find_unreconciled_iff logs after chain_id asset payee cs' k c).0 m in
          let booked : (Books c.identity os) → ⊥ = λ b. new (
            Books-Known c.identity (book_recovered out cs os)
              (book_recovered-Books out cs c.identity cs os free (λ d n. n) h (inr b))) in
          let listed =
            (find_unreconciled_iff logs before chain_id asset payee cs e c).1
              (found, (here, λ q. booked (Known-Books c.identity os q))) in
          new (
            Books-Known c.identity (book_recovered out cs os) (
              book_recovered-Books out cs c.identity cs os free (λ d n. n) h
                (inl (c, listed, refl)))))

reraise-eq_ok :
    {E F A : Type 0} (f : E → F) (r : Result E A) (a : A) → reraise f r ≡ ok a → r ≡ ok a
reraise-eq_ok f (ok b) a e = ground arith
reraise-eq_ok f (err x) a e = absurd (cc)

unreconciled_heals :
    (out : Outside) (config : SutConfig) (from_block : ℤ) (os : List Order)
    (cs : List OnChainCredit)
    → IsCollisionFree out cs
    → All (IsHonest out cs) os
    → unreconciled_credits out config from_block os ≡ ok cs
    → unreconciled_credits out config from_block (book_recovered out cs os) ≡ ok []
unfolding unreconciled_credits
unreconciled_heals out config from_block os cs free h e =
    let (merchant, a, f) =
      >>=-eq-ok (reraise reconciliation_error (topic_addr config.merchant_address)) _ e in
    let (logs, b, g) =
      >>=-eq-ok
        (out.get_logs config.token_address (some topic_transfer ∷ none ∷ some merchant ∷ [])
          from_block)
        _ f in
    let healed =
      recovered_heals out logs os config.chain_id (some config.token_address)
        (some config.merchant_address) cs free h (reraise-eq_ok reconciliation_error _ cs g) in
    unfold ◌>>=◌ in rw a (rw b (rw healed refl))

heal-cases :
    (out : Outside) (enabled : Bool) (sut : Sut) (r : Answer (List OnChainCredit))
    (credits : List OnChainCredit)
    → enabled ≡ true
    → (heal out enabled sut r).1 ≡ ok credits
    → (r ≡ ok credits) × ((heal out enabled sut r).0.orders ≡ book_recovered out credits sut.orders)
unfolding heal
heal-cases out enabled sut (err x) credits t e = absurd (cc)
heal-cases out true sut (ok cs) credits t e =
    (e, ap (λ l. book_recovered out l sut.orders) (ground arith))
heal-cases out false sut (ok cs) credits t e = absurd (cc)

-- A recovery job that works: once `reconcile` has run with healing enabled, the same logs have nothing
-- missing in the new ledger. It is assumed that SHA-256 has no collision among the identities of the
-- credits that it recovered, and that an order that already stood under the id of one of these
-- recoveries was paid by its settlement.
pub reconcile_heals :
    (out : Outside) (config : SutConfig) (from_block : ℤ) (sut : Sut) (credits : List OnChainCredit)
    → IsCollisionFree out credits
    → All (IsHonest out credits) sut.orders
    → config.reconciliation_enabled ≡ true
    → (reconcile out config from_block sut).1 ≡ ok credits
    → unreconciled_credits out config from_block (reconcile out config from_block sut).0.orders
      ≡ ok []
unfolding reconcile
reconcile_heals out config from_block sut credits free h enabled e =
    let (read, orders) =
      heal-cases out config.reconciliation_enabled sut
        (unreconciled_credits out config from_block sut.orders) credits enabled e in
    ap (unreconciled_credits out config from_block) orders
    ∙ unreconciled_heals out config from_block sut.orders credits free h read
