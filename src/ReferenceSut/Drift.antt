-- ===== src/ReferenceSut/Drift.antt =====
-- The SC1 weakness: the confirmer is pinned to one event signature.
use psv.ReferenceSut.Settled.{settlement_log_index-IsConfirmed}
use psv.Base.{◌≡◌, refl, sym, subst, ◌≢◌, false, some, List, [], ◌∷◌, arith, In, Result, ok}
use psv.Base.Int.{ℤ}
use psv.Text.{Text}
use psv.Value.{Value, Fields, get_or_null}
use psv.ReferenceSut.Confirmer.{
  settlement_log_index, mappings, topic_addr, same_hex, as_list, is_transfer, has_topics, topics_of,
  Settlement,
}

-- The first topic of a log with three topics is not the watched one.
abbrev pub HasDrifted : Text → Fields → Type 0
HasDrifted watched log =
    (a b c : Value)
    → topics_of (get_or_null "topics" log) ≡ a ∷ b ∷ c ∷ []
    → same_hex a watched ≡ false

pub HasDrifted-intro :
    (watched : Text) (log : Fields) (x y z : Value)
    → topics_of (get_or_null "topics" log) ≡ x ∷ y ∷ z ∷ []
    → same_hex x watched ≡ false
    → HasDrifted watched log
HasDrifted-intro watched log x y z e h a b c t = cc (e, t, h)

HasDrifted-has_topics :
    (watched t1 t2 : Text) (topics : List Value)
    → ((a b c : Value) → topics ≡ a ∷ b ∷ c ∷ [] → same_hex a watched ≡ false)
    → has_topics topics watched t1 t2 ≡ false
unfolding has_topics
HasDrifted-has_topics watched t1 t2 [] h = refl
HasDrifted-has_topics watched t1 t2 (a ∷ []) h = refl
HasDrifted-has_topics watched t1 t2 (a ∷ b ∷ []) h = refl
HasDrifted-has_topics watched t1 t2 (a ∷ b ∷ c ∷ []) h = ground (arith, h a b c refl)
HasDrifted-has_topics watched t1 t2 (a ∷ b ∷ c ∷ d ∷ ts) h = refl

HasDrifted-is_transfer :
    (watched : Text) (p : Settlement) (fetched : List Fields) (log : Fields)
    → HasDrifted watched log
    → is_transfer watched p fetched log ≡ false
unfolding is_transfer
HasDrifted-is_transfer watched p fetched log h = ground (
  arith,
  HasDrifted-has_topics watched (topic_addr p.payer) (topic_addr p.payee)
      (topics_of (get_or_null "topics" log)) h,
)

module _ {ℓ} {E : Type ℓ} (fetch_logs : Text → List Text → ℤ → Result E (List Fields)) where
  -- Silent loss: a receipt none of whose logs carries the watched event signature is never
  -- confirmed, whatever the transaction moved.
  pub settlement_log_index_drift :
      (watched : Text) (p : Settlement) (receipt : Fields) (raw : List Value) (i : ℤ)
      → as_list (get_or_null "logs" receipt) ≡ some raw
      → ((log : Fields) → In log (mappings raw) → HasDrifted watched log)
      → settlement_log_index fetch_logs watched p (some receipt) ≢ ok (some i)
  settlement_log_index_drift watched p receipt raw i r drifted e =
      let c = settlement_log_index-IsConfirmed fetch_logs watched p (some receipt) i e in
      let same : receipt ≡ c.mined = cc (c.mined_eq) in
      let logs : raw ≡ c.raw = cc (c.raw_eq, same, r) in
      let t = c.proven.transfer_log in
      let d =
        HasDrifted-is_transfer watched p c.fetched t
          (drifted t (subst (λ l. In t (mappings l)) (sym logs) c.proven.transfer_in)) in
      absurd (cc (d, c.proven.transfer_at.1))
