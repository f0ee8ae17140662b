-- ===== src/Rails/Shown.antt =====
-- What the logs of a receipt show of a payment, in src/psv/rails.py.
use psv.Base.{
  both_true, ℕ, String, ◌≡◌, refl, sym, ap, subst, ◌∙◌, inl, inr, true, ◌&&◌, Option, none, some,
  List, [], ◌∷◌, arith, ◌==◌, if-cases, In, Result, ok, err, reraise, Ensures, Ensures-bind,
  Ensures-raise_if, Ensures-self, Ensures-map,
}
use psv.Base.Int.{pos}
use psv.Text.{Text, text_eq, lower}
use psv.Value.{Value, Fields, dict, get_or_null}
use psv.ReferenceSut.Confirmer.{as_list, topic_authorization_used}
use psv.Reconciliation.Fields.{topic_addr}
use psv.Reconciliation.Credit.{OnChainCredit, decode_transfer_log}
use psv.Rails.Observed.{quantity}
use psv.Rails.Logs.{
  not_a_transfer, uncaught, logs_of, emitted_by, are_topics, is_kept, authorization_indices,
  the_only, authorization_log_index, with_index, selected_transfer,
}

-- Among these logs is one of the token, not removed, with the topics of the use of the nonce.
pub record IsUse (token payer_topic nonce : Text) (logs : List Value) (index : ℕ) : Type 0 where
  pub log : Fields
  pub logged : In (dict log) logs
  pub of_token : emitted_by token log ≡ true
  pub topics :
      are_topics topic_authorization_used payer_topic nonce (get_or_null "topics" log) ≡ true
  pub kept : is_kept (get_or_null "removed" log) ≡ true
  pub at_index : quantity (get_or_null "logIndex" log) "authorization log index" ≡ ok index

IsUse-later :
    (token payer_topic nonce : Text) (v : Value) (logs : List Value) (index : ℕ)
    → IsUse token payer_topic nonce logs index
    → IsUse token payer_topic nonce (v ∷ logs) index
IsUse-later token payer_topic nonce v logs index h = record {
  log = h.log;
  logged = inr h.logged;
  of_token = h.of_token;
  topics = h.topics;
  kept = h.kept;
  at_index = h.at_index;
}

authorization_indices-IsUse :
    (token payer_topic nonce : Text) (logs : List Value)
    → Ensures
        (λ found. (i : ℕ) → In i found → IsUse token payer_topic nonce logs i)
        (authorization_indices token payer_topic nonce logs)
unfolding authorization_indices
authorization_indices-IsUse token payer_topic nonce [] = record { holds = λ i m. absurd m }
authorization_indices-IsUse token payer_topic nonce (dict log ∷ logs) =
    let later = authorization_indices-IsUse token payer_topic nonce logs in
    let here =
      emitted_by token log
      && are_topics topic_authorization_used payer_topic nonce (get_or_null "topics" log) in
    let wanted = λ (found : List ℕ).
      (i : ℕ) → In i found → IsUse token payer_topic nonce (dict log ∷ logs) i in
    if-cases (Ensures wanted) here
      (λ t.
        if-cases (Ensures wanted) (is_kept (get_or_null "removed" log))
          (λ k.
            Ensures-bind
              (Ensures-self (quantity (get_or_null "logIndex" log) "authorization log index"))
              λ index q. Ensures-bind later λ more hs. record {
                holds = λ i m. elim m [
                  | inl e ↦ record {
                    log = log;
                    logged = inl refl;
                    of_token = (both_true _ _ t).0;
                    topics = (both_true _ _ t).1;
                    kept = k;
                    at_index = q ∙ ap ok (sym e);
                  }
                  | inr n ↦ IsUse-later token payer_topic nonce (dict log) logs i (hs i n)
                ];
              })
          (λ k. record { holds = tt }))
      (λ f.
        Ensures-map later
          λ found hs i n. IsUse-later token payer_topic nonce (dict log) logs i (hs i n))
authorization_indices-IsUse token payer_topic nonce (_ ∷ logs) = record { holds = tt }

Ensures-reraise :
    {E F A : Type 0} {P : A → Type 0} (f : E → F) (r : Result E A)
    → Ensures P r
    → Ensures P (reraise f r)
Ensures-reraise f (ok a) h = record { holds = h.holds }
Ensures-reraise f (err e) h = record { holds = tt }

the_only-first :
    {A : Type 0} (what : String) (xs : List A) → Ensures (λ a. In a xs) (the_only what xs)
the_only-first what (a ∷ []) = record { holds = inl refl }
the_only-first what [] = record { holds = tt }
the_only-first what (a ∷ b ∷ xs) = record { holds = tt }

logs_of-some : (o : Option (List Value)) → Ensures (λ logs. o ≡ some logs) (logs_of o)
logs_of-some none = record { holds = tt }
logs_of-some (some logs) = record { holds = refl }

-- The receipt shows the use of the payer's nonce, at this index.
pub record IsAuthorizedAt (receipt : Fields) (token payer nonce : Text) (index : ℕ) : Type 0 where
  pub payer_topic : Text
  pub payer_topic_eq : topic_addr payer ≡ ok payer_topic
  pub logs : List Value
  pub logs_eq : as_list (get_or_null "logs" receipt) ≡ some logs
  pub used : IsUse token payer_topic (lower nonce) logs index

pub authorization_log_index-IsAuthorizedAt :
    (receipt : Fields) (token payer nonce : Text)
    → Ensures
        (IsAuthorizedAt receipt token payer nonce)
        (authorization_log_index receipt token payer nonce)
unfolding authorization_log_index
authorization_log_index-IsAuthorizedAt receipt token payer nonce =
    Ensures-bind (Ensures-reraise uncaught (topic_addr payer) (Ensures-self (topic_addr payer)))
      λ payer_topic t. Ensures-bind (logs_of-some (as_list (get_or_null "logs" receipt))) λ logs l.
        Ensures-bind (authorization_indices-IsUse token payer_topic (lower nonce) logs)
          λ found uses. Ensures-map (the_only-first "authorization" found) λ index m. record {
            payer_topic = payer_topic;
            payer_topic_eq = t;
            logs = logs;
            logs_eq = l;
            used = uses index m;
          }

-- A log of the receipt at the index that was asked for.
abbrev pub IsLogAt : ℕ → List Value → Fields → Type 0
IsLogAt log_index logs log =
    In (dict log) logs × (quantity (get_or_null "logIndex" log) "receipt log index" ≡ ok log_index)

with_index-IsLogAt :
    (log_index : ℕ) (logs : List Value)
    → Ensures
        (λ found. (log : Fields) → In log found → IsLogAt log_index logs log)
        (with_index log_index logs)
unfolding with_index
with_index-IsLogAt log_index [] = record { holds = λ log m. absurd m }
with_index-IsLogAt log_index (dict here ∷ logs) =
    Ensures-bind (Ensures-self (quantity (get_or_null "logIndex" here) "receipt log index"))
      λ index q. Ensures-bind (with_index-IsLogAt log_index logs) λ rest hs. record {
        holds =
            if-cases
              (λ (found : List Fields).
                (log : Fields) → In log found → IsLogAt log_index (dict here ∷ logs) log)
              (index == log_index)
              (λ t log m. elim m [
                | inl e ↦
                    subst (IsLogAt log_index (dict here ∷ logs)) (sym e)
                      (inl refl, q ∙ ap ok (ground (arith, t)))
                | inr n ↦ (inr (hs log n).0, (hs log n).1)
              ])
              λ f log m. (inr (hs log m).0, (hs log m).1);
      }
with_index-IsLogAt log_index (_ ∷ logs) = record { holds = tt }

-- The credit is the decoded Transfer of the token, from the log of the receipt at this index.
pub record IsSelected (receipt : Fields) (chain_id log_index : ℕ) (token : Text)
    (credit : OnChainCredit) : Type 0 where
  pub logs : List Value
  pub logs_eq : as_list (get_or_null "logs" receipt) ≡ some logs
  pub log : Fields
  pub log_at : IsLogAt log_index logs log
  pub decoded : decode_transfer_log log (pos chain_id) ≡ ok credit
  pub of_token : text_eq credit.asset (lower token) ≡ true

pub selected_transfer-IsSelected :
    (receipt : Fields) (chain_id log_index : ℕ) (token : Text)
    → Ensures
        (IsSelected receipt chain_id log_index token)
        (selected_transfer receipt chain_id log_index token)
unfolding selected_transfer
selected_transfer-IsSelected receipt chain_id log_index token =
    Ensures-bind (logs_of-some (as_list (get_or_null "logs" receipt))) λ logs l.
      Ensures-bind (with_index-IsLogAt log_index logs) λ selected at.
        Ensures-bind (the_only-first "log index" selected) λ log m.
          Ensures-bind
            (Ensures-reraise not_a_transfer (decode_transfer_log log (pos chain_id))
              (Ensures-self (decode_transfer_log log (pos chain_id))))
            λ credit decoded. Ensures-raise_if _ _ _ λ same. record {
              holds = record {
                logs = logs;
                logs_eq = l;
                log = log;
                log_at = at log m;
                decoded = decoded;
                of_token = ground (arith, same);
              };
            }
