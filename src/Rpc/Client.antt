-- ===== src/Rpc/Client.antt =====
-- `RpcClient.call` of src/psv/anvil.py: one request, and the envelope of its answer. The transport is
-- a parameter: what it answers to a request, or `none` where it raises. Since no two requests of a
-- client have the same id, an answer may depend on everything that was sent before.
use psv.Rpc.{rpc_error, Checked, bounded_json}
use psv.Rpc.Evidence.{as_object}
use psv.Rpc.Exec.{Exec}
use psv.Base.{
  ℕ, ◌+◌, String, Bool, true, false, not, Option, none, some, ◌==◌, ok, err, ◌>>=◌, ◌>>◌, raise_if,
}
use psv.Base.Int.{pos}
use psv.Text.{codes, text_eq}
use psv.Value.{Value, Values, int, str, get, get_or_null}

-- The JSON object that `call` sends; its `jsonrpc` is always "2.0".
pub record Request : Type 0 where
  pub id : ℕ
  pub method : String
  pub params : Values

abbrev pub Transport : Type 0
Transport = Request → Option Value

-- `value == "2.0"`
abbrev pub is_version : Value → Bool
is_version (str s) = text_eq s (codes "2.0")
is_version _ = false

-- `type(value) is int and value == request_id`
abbrev pub is_id : ℕ → Value → Bool
is_id request_id (int (pos n)) = n == request_id
is_id request_id _ = false

-- `type(code) is int and isinstance(message, str)`
abbrev pub is_error : Value → Value → Bool
is_error (int code) (str message) = true
is_error _ _ = false

-- The RpcError for a response that holds `error`.
unfoldable pub node_error : Value → Checked Value
node_error error = do
  fs ← as_object error "malformed error"
  raise_if (not (is_error (get_or_null "code" fs) (get_or_null "message" fs)))
      (rpc_error "malformed error")
  err (rpc_error "node error")

-- Exactly one of `result` and `error` stands in the response.
unfoldable pub payload : Option Value → Option Value → Checked Value
unfolding node_error
payload (some result) none = ok result
payload none (some error) = node_error error
payload (some result) (some error) = err (rpc_error "result and error")
payload none none = err (rpc_error "result and error")

unfoldable pub accept : ℕ → Option Value → Checked Value
unfolding payload
accept request_id none = err (rpc_error "transport")
accept request_id (some response) = do
  bounded_json response 0
  fs ← as_object response "response"
  raise_if (not (is_version (get_or_null "jsonrpc" fs))) (rpc_error "jsonrpc")
  raise_if (not (is_id request_id (get_or_null "id" fs))) (rpc_error "id")
  payload (get "result" fs) (get "error" fs)

-- `RpcClient.call`
unfoldable pub call : Transport → String → Values → Exec Value
unfolding accept
call transport method params id =
    (accept (id + 1) (transport (record { id = id + 1; method = method; params = params })), id + 1)
