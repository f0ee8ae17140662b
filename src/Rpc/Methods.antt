-- ===== src/Rpc/Methods.antt =====
-- The methods of `RpcClient` in src/psv/anvil.py that steer a local chain, and those that read its
-- height and its id.
use psv.Rpc.{rpc_error, value_error, Checked, quantity}
use psv.Rpc.Evidence.{boolean}
use psv.Rpc.Exec.{Exec, pure, lift, raise_if, ◌>>=◌, ◌>>◌}
use psv.Rpc.Client.{Transport, call}
use psv.Base.{ℕ, zero, suc, String, Bool, true, false, not, ◌&&◌, [], leb, if◌then◌else◌, ok, err}
use psv.Base.Int.{pos}
use psv.Text.{Text}
use psv.Value.{Value, null, bool, int, str, nil, cons}

-- `if result is not None: _quantity(result, ...)`
abbrev pub null_or_quantity : Value → String → Checked (Unit {0})
null_or_quantity null what = ok tt
null_or_quantity v what = dropped (quantity v what)
  where
    dropped : Checked ℕ → Checked (Unit {0})
    dropped (ok n) = ok tt
    dropped (err e) = err e

-- `str(result)` of a validated quantity is the text itself.
abbrev pub text_of : Value → Text
text_of (str s) = s
text_of _ = []

unfoldable pub snapshot : Transport → Exec Text
snapshot transport = do
  result ← call transport "evm_snapshot" nil
  _ ← lift (quantity result "evm_snapshot")
  pure (text_of result)

unfoldable pub revert : Transport → Value → Exec Bool
revert transport snapshot_id = do
  _ ← lift (quantity snapshot_id "snapshot id")
  result ← call transport "evm_revert" (cons snapshot_id nil)
  lift (boolean result "evm_revert")

-- `for _ in range(blocks)`
unfoldable pub mine_blocks : Transport → ℕ → Exec (Unit {0})
mine_blocks transport zero = pure tt
mine_blocks transport (suc blocks) = do
  result ← call transport "evm_mine" nil
  _ ← lift (null_or_quantity result "evm_mine")
  mine_blocks transport blocks

-- `type(v) is int` and a bound from below, with no bound from above in the second
abbrev pub block_count : Value → Checked ℕ
block_count (int (pos n)) = if leb 1 n && leb n 1_000_000 then ok n else err (value_error "blocks")
block_count _ = err (value_error "blocks")

abbrev pub non_negative : Value → String → Checked ℕ
non_negative (int (pos n)) what = ok n
non_negative _ what = err (value_error what)

unfoldable pub mine : Transport → Value → Exec (Unit {0})
unfolding mine_blocks
mine transport blocks = do count ← lift (block_count blocks); mine_blocks transport count

unfoldable pub increase_time : Transport → Value → Exec (Unit {0})
unfolding mine
increase_time transport seconds = do
  count ← lift (non_negative seconds "seconds")
  result ← call transport "evm_increaseTime" (cons (int (pos count)) nil)
  _ ← lift (quantity result "evm_increaseTime")
  mine transport (int (pos 1))

-- `result is not None and type(result) is not bool`
abbrev pub null_or_boolean : Value → Bool
null_or_boolean null = true
null_or_boolean (bool b) = true
null_or_boolean _ = false

-- `type(v) is bool`, with a ValueError
abbrev pub flag : Value → String → Checked Bool
flag (bool b) what = ok b
flag _ what = err (value_error what)

unfoldable pub set_automine : Transport → Value → Exec (Unit {0})
set_automine transport on = do
  b ← lift (flag on "on")
  result ← call transport "evm_setAutomine" (cons (bool b) nil)
  raise_if (not (null_or_boolean result)) (rpc_error "evm_setAutomine")

unfoldable pub block_number : Transport → Exec ℕ
block_number transport = do
  result ← call transport "eth_blockNumber" nil
  lift (quantity result "eth_blockNumber")

unfoldable pub chain_id : Transport → Exec ℕ
chain_id transport = do
  result ← call transport "eth_chainId" nil
  id ← lift (quantity result "eth_chainId")
  raise_if (leb id 0) (rpc_error "eth_chainId")
  pure id
