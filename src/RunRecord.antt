-- ===== src/RunRecord.antt =====
-- src/psv/run_record.py: records of runs, without the files they are written to. `json.dumps` with
-- `hashlib.sha256`, `urlsplit` and `str` are parameters.
pub mod Secrets
pub mod Integrity
pub mod Journal
pub mod Audit
mod Tests
use psv.Base.{
  ℕ, zero, suc, String, Bool, true, false, not, ◌&&◌, ◌||◌, Option, none, some, [], ◌∷◌, ◌++◌, ◌==◌,
  str_eq, if◌then◌else◌, is_none, all, Result, ok, err, ◌>>=◌, ◌>>◌, raise_if,
}
use psv.Base.Int.{ℤ, pos, ltb_ℤ}
use psv.Text.Spaces.{is_str_space}
use psv.Text.{Text, codes, text_eq, starts_with, lower}
use psv.Value.{Value, Fields, null, bool, int, float, str, dict, end, field, get_or_null}

-- The ValueErrors of `build_run_record`.
pub data RecordError : Type 0 where
  empty_command bad_exit_code naive_time reversed_time : RecordError

-- What `urlsplit` finds in a URL: `none` is its ValueError, and the port may raise one of its own. An
-- absent port and port 0 are both false.
pub data Port : Type 0 where
  absent bad_port : Port
  port : ℕ → Port

pub record Url : Type 0 where
  pub scheme : Text
  pub hostname : Option Text
  pub at : Port

pub record Library : Type 0 where
  pub urlsplit : Text → Option Url
  pub show : Value → Text
  pub decimal : ℕ → Text
  pub digest : Fields → Text

abbrev pub with_port : Library → Text → Text → Port → Text
with_port lib scheme host absent = scheme ++ codes "://" ++ host
with_port lib scheme host bad_port = codes "<unparseable>"
with_port lib scheme host (port zero) = scheme ++ codes "://" ++ host
with_port lib scheme host (port (suc n)) =
    scheme ++ codes "://" ++ host ++ codes ":" ++ lib.decimal (suc n)

-- An empty scheme or hostname is false.
abbrev pub redact_parts : Library → Option Url → Text
redact_parts lib none = codes "<unparseable>"
redact_parts lib (some u) = by_host u.scheme u.hostname
  where
    by_host : Text → Option Text → Text
    by_host (c ∷ scheme) (some (h ∷ host)) = with_port lib (c ∷ scheme) (h ∷ host) u.at
    by_host _ _ = codes "<redacted>"

-- `_redact_url`, of a text
unfoldable pub redact_url : Library → Text → Text
redact_url lib [] = []
redact_url lib (c ∷ url) = redact_parts lib (lib.urlsplit (c ∷ url))

-- `p in s`
unfoldable pub has_part : Text → Text → Bool
has_part p [] = starts_with [] p
has_part p (c ∷ s) = starts_with (c ∷ s) p || has_part p s

-- `"key" in k.lower() or "secret" in k.lower() or "password" in k.lower()`
unfoldable pub is_secret : String → Bool
unfolding has_part
is_secret k =
    has_part (codes "key") (lower (codes k))
    || has_part (codes "secret") (lower (codes k))
    || has_part (codes "password") (lower (codes k))

abbrev pub is_url_name : String → Bool
is_url_name k = str_eq k "rpc_url" || str_eq k "rpcUrl"

-- `v is None`
abbrev pub is_null : Value → Bool
is_null null = true
is_null _ = false

-- What is kept of one input.
unfoldable pub clean_value : Library → String → Value → Value
unfolding redact_url
clean_value lib k v = if is_url_name k then str (redact_url lib (lib.show v)) else v

-- `_clean_inputs`
unfoldable pub clean_inputs : Library → Fields → Fields
unfolding is_secret clean_value
clean_inputs lib end = end
clean_inputs lib (field k v fs) =
    let rest = clean_inputs lib fs in
    if is_null v || is_secret k then rest else field k (clean_value lib k v) rest

-- `{k: v for k, v in record.items() if k != "runId"}`
unfoldable pub without_run_id : Fields → Fields
without_run_id end = end
without_run_id (field k v fs) =
    let rest = without_run_id fs in if str_eq k "runId" then rest else field k v rest

-- `_content_hash`
unfoldable pub content_hash : Library → Fields → Text
unfolding without_run_id
content_hash lib run = codes "sha256:" ++ lib.digest (without_run_id run)

-- A time: whether it has a time zone, its text in UTC, and its place on the time line.
pub record Moment : Type 0 where
  pub is_aware : Bool
  pub iso : Text
  pub instant : ℤ

-- The arguments, with the version and the environment that are read off the process, and the rounded
-- duration, which is a float.
pub record Run : Type 0 where
  pub command : Text
  pub inputs : Fields
  pub report : Value
  pub code : Value
  pub started_at : Moment
  pub finished_at : Moment
  pub error : Option Text
  pub version : Text
  pub environment : Value

-- `not command.strip()`
abbrev pub is_blank : Text → Bool
is_blank s = all is_str_space s

abbrev pub exit_code_of : Value → Result RecordError ℕ
exit_code_of (int (pos n)) = ok n
exit_code_of _ = err bad_exit_code

abbrev pub error_value : Option Text → Value
error_value none = null
error_value (some message) = str message

-- `d[k] = v` for a key that is not there yet
unfoldable pub with_field : Fields → String → Value → Fields
with_field end k v = field k v end
with_field (field j w fs) k v = field j w (with_field fs k v)

abbrev pub unsigned : Library → Run → ℕ → Fields
unsigned lib r code = field "schemaVersion" (str (codes "1.1")) (
    field "tool" (dict (field "name" (str (codes "psv")) (field "version" (str r.version) end))) (
      field "command" (str r.command) (
        field "startedAt" (str r.started_at.iso) (
          field "finishedAt" (str r.finished_at.iso) (
            field "durationSeconds" (float true) (
              field "inputs" (dict (clean_inputs lib r.inputs)) (
                field "environment" r.environment (
                  field "report" r.report (
                    field "exitCode" (int (pos code)) (
                      field "consistent" (bool (is_none r.error && code == 0))
                        (field "error" (error_value r.error) end)))))))))))

-- `build_run_record`
unfoldable pub build_run_record : Library → Run → Result RecordError Fields
unfolding clean_inputs content_hash with_field
build_run_record lib r = do
  raise_if (is_blank r.command) empty_command
  code ← exit_code_of r.code
  raise_if (not r.started_at.is_aware || not r.finished_at.is_aware) naive_time
  raise_if (ltb_ℤ r.finished_at.instant r.started_at.instant) reversed_time
  ok (with_field (unsigned lib r code) "runId" (str (content_hash lib (unsigned lib r code))))

-- `isinstance(claimed, str) and claimed == digest`
abbrev pub is_claim : Value → Text → Bool
is_claim (str s) t = text_eq s t
is_claim _ t = false

-- `verify_run_record`
unfoldable pub verify_run_record : Library → Fields → Bool
unfolding content_hash
verify_run_record lib run = is_claim (get_or_null "runId" run) (content_hash lib run)
