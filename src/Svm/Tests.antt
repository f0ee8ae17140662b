-- ===== src/Svm/Tests.antt =====
-- A transaction of src/psv/svm_chain.py with two token accounts.
use psv.Base.{String, ◌≡◌, refl, false, none, ◌++◌, ok, err, ◌>>=◌, reraise, Ensures}
use psv.Text.{Text, codes, text_eq}
use psv.Value.{Value, Fields, null, str, list, dict, nil, cons, end, field, get}
use psv.Svm.{settlement_truth_from_svm_meta}
use psv.Svm.Truth.{IsRead, settlement_truth-IsRead}
use psv.Divergence.{detect_payment_divergence, silent_loss, critical}

-- 32 characters of the alphabet.
abbrev key_of : String → Text
key_of s = codes "4zMMC9srt5Ri5X14GAgXhaHii3GnPAE" ++ codes s

abbrev entry : String → String → Value
entry owner quantity = dict (
    field "owner" (str (key_of owner)) (
      field "mint" (str (key_of "1"))
        (field "uiTokenAmount" (dict (field "amount" (str (codes quantity)) end)) end)))

abbrev meta : Fields
meta = field "err" null (
    field "preTokenBalances" (list (cons (entry "2" "90") nil))
      (field "postTokenBalances" (list (cons (entry "2" "40") (cons (entry "3" "50") nil))) end))

settlement_truth-IsRead_example :
    Ensures
      (IsRead meta (key_of "1") (key_of "2") (key_of "3"))
      (settlement_truth_from_svm_meta (dict meta) (key_of "1") (key_of "2") (key_of "3"))
settlement_truth-IsRead_example =
    settlement_truth-IsRead meta (key_of "1") (key_of "2") (key_of "3")

-- Fifty units reached an account that had no entry before; a system that was not told lost them.
unbelieved_transfer :
    reraise
      (λ e. tt {0})
      (settlement_truth_from_svm_meta (dict meta) (key_of "1") (key_of "2") (key_of "3") >>= λ c.
        ok (detect_payment_divergence c false none))
    ≡ ok (record { kind = silent_loss; severity = critical })
unfolding settlement_truth_from_svm_meta ◌>>=◌ psv.Svm.is_base58 codes psv.Text.text_eq
    psv.Value.get psv.Text.Spaces.is_str_digit psv.Text.Spaces.is_str_decimal
    psv.Text.Spaces.digit_of psv.Text.Spaces.digits_value detect_payment_divergence
    psv.Divergence.settlement_truth_from_balances psv.Base.Int.◌-ℤ◌
unbelieved_transfer = refl
