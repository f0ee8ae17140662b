-- ===== src/Report/Document.antt =====
-- The v2 document of a report in src/psv/report.py, and the structural validation before it is printed.
use psv.Base.{
  ℕ, String, Bool, true, false, not, ◌&&◌, ◌||◌, Option, none, some, List, [], ◌∷◌, leb, str_eq,
  is_some, all, any, Result, ◌>>◌, raise_if,
}
use psv.Base.Int.{pos, ltb_ℤ, eqb_ℤ}
use psv.Text.{Text, codes, text_eq}
use psv.Value.{Value, Fields, null, bool, int, str, dict, end, field, get, get_or_null}
use psv.Rails.Observed.{Implementation}
use psv.Rails.Live.{ChainEvidence}
use psv.Reconciliation.Credit.{OnChainCredit}
use psv.Report.{ReportError, value_error, ReconReport, reason_code_of}

abbrev pub label : String → Value
label s = str (codes s)

-- `None` for a missing number, and what a field of the selected log is without one.
abbrev pub number : Option ℕ → Value
number none = null
number (some n) = int (pos n)

abbrev pub log_index_value : Option OnChainCredit → Value
log_index_value none = null
log_index_value (some c) = int (pos c.log_index)

abbrev pub event_value : Option OnChainCredit → Value
event_value none = null
event_value (some c) = int (pos c.value)

abbrev pub removed_value : Option OnChainCredit → Value
removed_value none = bool false
removed_value (some c) = bool c.removed

abbrev pub implementation_address : Option Implementation → Value
implementation_address none = null
implementation_address (some i) = str i.addr

abbrev pub implementation_code : Option Implementation → Value
implementation_code none = null
implementation_code (some i) = str i.code_sha256

-- The object under "evidence".
unfoldable pub evidence_document : ChainEvidence → Value
evidence_document e = dict (
    field "chainId" (int (pos e.chain_id)) (
      field "finalityBlock"
        (dict (
          field "number" (int (pos e.finality_block_number)) (
            field "hash" (str e.finality_block_hash) (
              field "tag" (str e.finality_block_tag)
                (field "confirmations" (int e.confirmations) end)))))
        (field "settlementBlock"
          (dict (
            field "number" (int (pos e.settlement_block_number))
              (field "hash" (str e.settlement_block_hash) end)))
          (field "transaction"
            (dict (
              field "hash" (str e.transaction_hash) (
                field "receiptStatus" (int (pos e.receipt_status)) (
                  field "logIndex" (log_index_value e.selected_log) (
                    field "authorizationLogIndex" (number e.authorization_log_index)
                      (field "removed" (removed_value e.selected_log) end))))))
            (field "token"
              (dict (
                field "address" (str e.token_address) (
                  field "codeSha256" (str e.identity.token_code) (
                    field "implementationAddress" (implementation_address e.identity.implementation)
                      (field "implementationCodeSha256"
                        (implementation_code e.identity.implementation)
                        (field "railAttestationVersion" (label e.rail_attestation_version) end))))))
              (field "authorization"
                (dict (
                  field "payer" (str e.payer) (
                    field "payee" (str e.payee) (
                      field "nonce" (str e.nonce) (
                        field "nonceConsumed" (bool e.balances.nonce_consumed)
                          (field "eventValue" (event_value e.selected_log) end))))))
                (field "balances"
                  (dict (
                    field "payerBefore" (int e.balances.payer_parent) (
                      field "payerAfter" (int e.balances.payer_after) (
                        field "payeeBefore" (int e.balances.payee_parent) (
                          field "payeeAfter" (int e.balances.payee_after) (
                            field "requiredAmount" (int (pos e.required_amount))
                              (field "receivedAmount" (int e.received_amount) end)))))))
                  end)))))))

-- `to_dict`; the privacy policy is a constant text, and the message of the verdict is left out.
unfoldable pub to_dict : Text → ReconReport → Fields
unfolding evidence_document
to_dict privacy_policy r =
    field "$schema" (label "https://github.com/moped2110/psv/schemas/reconciliation-report-v2.json")
      (field "reportVersion" (label "2.0") (
        field "tool"
          (dict (
            field "name" (label "psv")
              (field "mode" (label "reconcile") (field "readOnly" (bool true) end))))
          (field "generatedAt" (label r.generated_at) (
            field "privacy" (dict (field "policy" (str privacy_policy) end)) (
              field "rail"
                (dict (
                  field "key" (label r.rail_key) (
                    field "label" (label r.rail_label) (
                      field "chainId" (int r.chain_id) (field "token" (str r.token_address) end)))))
                (field "payment"
                  (dict (
                    field "payer" (str r.payer) (
                      field "payee" (str r.payee) (
                        field "nonce" (str r.nonce) (
                          field "sutBelievesPaid" (bool r.sut_believes_paid) (
                            field "requiredAmount" (int (pos r.evidence.required_amount))
                              (field "receivedAmount" (int r.evidence.received_amount) end)))))))
                  (field "evidence" (evidence_document r.evidence) (
                    field "divergence"
                      (dict (
                        field "kind" (label r.kind) (
                          field "severity" (label r.severity) (
                            field "reasonCode" (label r.reason_code)
                              (field "isFailure" (bool r.failure) end)))))
                      end))))))))

abbrev pub required : List String
required =
    "$schema" ∷ "reportVersion" ∷ "tool" ∷ "generatedAt" ∷ "privacy" ∷ "rail" ∷ "payment"
    ∷ "evidence" ∷ "divergence" ∷ []

-- `set(doc) == required`: each key is required, and each required key is there.
abbrev pub keys_in : List String → Fields → Bool
keys_in names end = true
keys_in names (field k v fs) = any (str_eq k) names && keys_in names fs

abbrev pub has_keys : List String → Fields → Bool
has_keys names doc = keys_in names doc && all (λ k. is_some (get k doc)) names

-- `doc["reportVersion"] == REPORT_VERSION`
abbrev pub is_version : Value → Bool
is_version (str s) = text_eq s (codes "2.0")
is_version _ = false

abbrev pub is_code : Option String → String → Bool
is_code none code = false
is_code (some c) code = str_eq code c

-- `validate`
unfoldable pub validate : Text → ReconReport → Result ReportError (Unit {0})
unfolding to_dict reason_code_of
validate privacy_policy r = do
  let doc = to_dict privacy_policy r
  raise_if (not (has_keys required doc) || not (is_version (get_or_null "reportVersion" doc)))
      (value_error "envelope")
  raise_if (not (is_code (reason_code_of r.kind) r.reason_code)) (value_error "reason code")
  raise_if (leb r.evidence.required_amount 0 || ltb_ℤ r.evidence.received_amount (pos 0))
      (value_error "amounts")
  raise_if (not (eqb_ℤ (pos r.evidence.chain_id) r.chain_id)) (value_error "chain ids")
