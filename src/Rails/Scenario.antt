-- ===== src/Rails/Scenario.antt =====
-- A rail, a payment and scripted nodes, for the tests of src/psv/rails.py and its clients.
use psv.Rails.{RailConfig}
use psv.Rpc.Client.{Transport}
use psv.Rpc.Scripted.{scripted, bytes32, bytes20, text, log_at, receipt_with, block_with}
use psv.Rails.Observed.{Sha256}
use psv.Rails.Arguments.{Payment}
use psv.ReferenceSut.Confirmer.{topic_authorization_used}
use psv.Reconciliation.Credit.{topic_transfer}
use psv.Base.{◌+◌, String, true, false, Option, none, some, List, [], ◌∷◌, ◌++◌, length}
use psv.Base.Int.{ℤ, pos}
use psv.Text.{Text, codes, zeros}
use psv.Value.{Value, Fields, int, str, list, dict, nil, cons}

-- A stand-in for the hash: 64 digits, of which the last one counts the bytes.
abbrev pub digest : Sha256
digest bytes = zeros 63 ++ (b'0' + length bytes) ∷ []

abbrev pub token : Text
token = bytes20 "1"

abbrev pub payer : Text
payer = bytes20 "2"

abbrev pub payee : Text
payee = bytes20 "3"

abbrev pub nonce : Text
nonce = bytes32 "d"

abbrev pub rail_of : String → Option ℤ → Option Text → RailConfig
rail_of network_class reviewed_block_number reviewed_block_hash = record {
  key = "test";
  label = "test";
  chain_id = pos 1;
  token_address = token;
  decimals = pos 6;
  token_name = none;
  token_version = none;
  finality = record { block_tag = codes "finalized"; minimum_confirmations = pos 1 };
  attestation = record {
    version = "1";
    reviewed_on = (2026, 7, 18);
    authoritative_sources = "test" ∷ [];
    interface = "eip3009";
    network_class = network_class;
    proxy_kind = "none";
    expected_decimals = pos 6;
    domain_name = none;
    domain_version = none;
    reviewed_block_number = reviewed_block_number;
    reviewed_block_hash = reviewed_block_hash;
    implementation_address = none;
    expected_code_sha256 = some (zeros 63 ++ codes "2");
    proxy_implementation_slot = none;
    implementation_code_sha256 = none;
    calibrated = true;
  };
  signing_enabled = false;
}

abbrev pub rail : RailConfig
rail = rail_of "testnet" none none

abbrev pub main_rail : RailConfig
main_rail = rail_of "mainnet" (some (pos 16)) (some (bytes32 "e"))

abbrev pub payment : Value → Payment
payment believes = record {
  payer = payer;
  payee = payee;
  nonce = nonce;
  transaction_hash = bytes32 "a";
  log_index = int (pos 1);
  required_amount = int (pos 5);
  payer_before = int (pos 9);
  payee_before = int (pos 0);
  sut_believes_paid = believes;
}

-- An address as a topic.
abbrev pub topic : String → Value
topic s = str (bytes32 s)

-- The logs of a token, its receipt, and the answers of a chain whose blocks are 30 and 32: five units
-- moved in block 30, and no other transfer in it.
module _ (of_token : Text) where
  abbrev pub transfer : Fields
  transfer =
      log_at "0x1" of_token (cons (str topic_transfer) (cons (topic "2") (cons (topic "3") nil)))
        (topic "5")

  abbrev pub authorization : Fields
  authorization =
      log_at "0x0" of_token
        (cons (str topic_authorization_used) (cons (topic "2") (cons (topic "d") nil))) (text "0x")

  abbrev pub receipt : Value
  receipt = receipt_with "0x1" (cons (dict authorization) (cons (dict transfer) nil))

  abbrev pub settlement_block : Value
  settlement_block = block_with "0x1e" (bytes32 "b")

  abbrev pub answers : List Value
  answers =
      block_with "0x20" (bytes32 "c")
      ∷ receipt
      ∷ settlement_block
      ∷ text "0x6001"
      ∷ topic "9"
      ∷ topic "0"
      ∷ topic "4"
      ∷ topic "5"
      ∷ topic "1"
      ∷ list (cons (dict transfer) nil)
      ∷ list (cons (dict transfer) nil)
      ∷ receipt
      ∷ settlement_block
      ∷ []

-- Chain 1; the second node shows the reviewed block before.
abbrev pub node : Transport
node = scripted (text "0x1" ∷ answers token)

abbrev pub main_node : Transport
main_node = scripted (text "0x1" ∷ block_with "0x10" (bytes32 "e") ∷ answers token)

abbrev pub drift_node : Transport
drift_node =
    scripted
      (text "0x1" ∷ block_with "0x20" (bytes32 "c") ∷ text "0x6001" ∷ topic "0" ∷ topic "0" ∷ [])
