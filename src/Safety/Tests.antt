-- ===== src/Safety/Tests.antt =====
-- A submission that the policy lets through.
use psv.Base.{◌≡◌, refl, ok, ◌>>=◌}
use psv.Base.Int.{pos}
use psv.Text.{
  Text, codes, text_eq, starts_with, remove_prefix_0x, lower_char, lower, is_space, hex_value,
}
use psv.Value.{str}
use psv.Safety.Policy.{require_safe_submission-IsSafe, IsSafe}
use psv.Safety.{require_safe_submission, Submission, SafetyRpc}

abbrev submission : Submission
submission = record {
  configured_chain_id = pos 31337;
  token_address = codes "0x5FbDB2315678afecb367f032d93F642f64180aa3";
  payer_address = codes "0x70997970C51812dc3A010C7d01b50e0d17dc79C8";
  payee_address = codes "0x3C44CdDdB6a900fa2b585dd299e03d12FA4293BC";
  authorization_to = codes "0x3c44cdddb6a900fa2b585dd299e03d12fa4293bc";
  authorization_amount = str (codes "10000");
  expected_amount = pos 10000;
}

abbrev node : SafetyRpc
node = record {
  chain_id_answer = ok (str (codes "0x7a69"));
  get_code = λ token. ok (str (codes "0x6001"));
}

let_through : require_safe_submission node submission ≡ ok tt
unfolding require_safe_submission psv.Base.◌>>=◌ psv.Safety.parse_chain_id
    psv.Safety.require_address psv.Safety.require_exact_amount psv.Safety.amount_of
    psv.Safety.is_decimal psv.Safety.decimal_value psv.Safety.require_deployed_code
    psv.Text.starts_with psv.Text.Hex.int16 codes psv.Text.text_eq psv.Text.lower
    psv.Text.lower_char psv.Text.remove_prefix_0x psv.Text.Hex.int_body psv.Text.Hex.int_digits
    psv.Text.Hex.int_signed psv.Text.Hex.strip psv.Text.Hex.strip_left psv.Text.hex_value
    psv.Text.is_space
let_through = refl

require_safe_submission-IsSafe_example : IsSafe node submission
require_safe_submission-IsSafe_example = require_safe_submission-IsSafe node submission let_through
