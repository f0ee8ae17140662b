-- ===== src/Cli/Scenario.antt =====
-- A command, and what the process meets, for the tests of src/psv/cli.py and of the tools beside it.
use psv.Base.{Bool, true, false, none, some, [], ◌∷◌}
use psv.Base.Int.{ℤ, pos}
use psv.Text.{Text, codes}
use psv.Value.{null}
use psv.Rpc.Scripted.{scripted, bytes32, text}
use psv.Rpc.Client.{Transport}
use psv.Rails.Known.First.{mock_anvil}
use psv.Rails.Scenario.{digest, payer, payee, nonce, answers}
use psv.RunRecord.{Moment}
use psv.Cli.{Request, Command, Outside}

-- A node of the local chain on which the payment is settled.
abbrev pub local_node : Text → Transport
local_node url = scripted (text "0x14a34" ∷ answers mock_anvil.token_address)

abbrev pub request : Request
request = record {
  payer = payer;
  payee = payee;
  nonce = nonce;
  transaction_hash = bytes32 "a";
  log_index = pos 1;
  required_amount = pos 5;
  payer_before = pos 9;
  payee_before = pos 0;
  sut_believes_paid = false;
}

abbrev pub command : Command
command = record {
  rail = "mock-anvil";
  request = request;
  rpc_url = codes "http://127.0.0.1:8545";
  json_out = some (codes "report.json");
  md_out = none;
  log_dir = none;
  no_log = false;
}

abbrev pub at_instant : ℤ → Moment
at_instant z = record { is_aware = true; iso = codes "2026"; instant = z }

-- Files and records can be written, or not; the texts are stand-ins.
abbrev pub outside : Bool → Bool → Outside
outside writable recordable = record {
  sha256 = digest;
  transport = local_node;
  library = record { urlsplit = λ s. none; show = λ v. []; decimal = λ n. []; digest = λ fs. [] };
  policy = [];
  dumps = λ fs. some (codes "{}");
  markdown = λ r. some (codes "# report");
  started_at = at_instant (pos 5);
  generated_at = "2026-08-13T12:00:00+00:00";
  finished_at = at_instant (pos 9);
  version = codes "1";
  environment = null;
  no_log_env = [];
  write_bytes = λ path payload. writable;
  write_run_record = λ fields dir. recordable;
  stdout_open = true;
  describe = λ e. codes "reconciliation error";
  os_error = codes "output error";
}
