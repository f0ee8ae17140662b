-- ===== src/Rpc/Envelope.antt =====
-- What `RpcClient.call` of src/psv/anvil.py returns: exactly the result of a well-formed answer to
-- the request that was sent.
use psv.Rpc.{max_depth}
use psv.Rpc.Bounded.{height, IsSized, bounded_json_iff, not-eq_false}
use psv.Rpc.Evidence.{as_object}
use psv.Rpc.Client.{Transport, is_version, is_id, node_error, payload, accept, call}
use psv.Text.Laws.{text_eq_sound, text_eq_refl}
use psv.Base.{
  ℕ, ◌+◌, ◌≤◌, String, ◌≡◌, refl, sym, ap, subst, ◌↔◌, true, false, not, Option, none, some, arith,
  ==_iff, ok, >>=-eq-ok, Ensures, Ensures-eq_ok, Ensures-skip, Ensures-raise_if, raise_if-eq_ok,
  bind-ok, raise_if-ok, then-eq_ok,
}
use psv.Base.Int.{pos}
use psv.Text.{codes}
use psv.Value.{Value, Values, Fields, int, str, dict, get, get_or_null}

is_version-eq : (v : Value) → is_version v ≡ true → v ≡ str (codes "2.0")
is_version-eq (str s) h = ap str (text_eq_sound s (codes "2.0") h)
is_version-eq _ h = cc

is_id-eq : (n : ℕ) (v : Value) → is_id n v ≡ true → v ≡ int (pos n)
is_id-eq n (int (pos m)) h = ap (λ k. int (pos k)) ((==_iff m n).0 h)
is_id-eq n _ h = cc

node_error-Ensures : (v : Value) → Ensures (λ a. ⊥) (node_error v)
unfolding node_error
node_error-Ensures v = Ensures-skip _ _ λ fs. Ensures-raise_if _ _ _ λ h. record { holds = tt }

payload-eq_ok :
    (result error : Option Value) (r : Value)
    → payload result error ≡ ok r
    → (result ≡ some r) × (error ≡ none)
unfolding payload
payload-eq_ok (some v) none r h = (cc, refl)
payload-eq_ok none (some e) r h = absurd (Ensures-eq_ok (node_error-Ensures e) h)
payload-eq_ok (some v) (some e) r h = cc
payload-eq_ok none none r h = cc

-- A JSON-RPC 2.0 response to the request with this id, which holds this result and no error.
pub record IsAnswer (request_id : ℕ) (response result : Value) : Type 0 where
  pub fields : Fields
  pub object : response ≡ dict fields
  pub version : get_or_null "jsonrpc" fields ≡ str (codes "2.0")
  pub answers : get_or_null "id" fields ≡ int (pos request_id)
  pub holds : get "result" fields ≡ some result
  pub no_error : get "error" fields ≡ none
  pub sized : IsSized response
  pub shallow : height response ≤ max_depth

as_object-eq_ok : (v : Value) (what : String) (fs : Fields) → as_object v what ≡ ok fs → v ≡ dict fs
unfolding as_object
as_object-eq_ok (dict gs) what fs h = cc
as_object-eq_ok _ what fs h = cc

object-as_object :
    (v : Value) (what : String) (fs : Fields) → v ≡ dict fs → as_object v what ≡ ok fs
unfolding as_object
object-as_object v what fs e = rw e refl

result-payload :
    (result error : Option Value) (r : Value)
    → result ≡ some r
    → error ≡ none
    → payload result error ≡ ok r
unfolding payload
result-payload result error r e n = rw (e, n) refl

accept_sound :
    (id : ℕ) (response r : Value) → accept id (some response) ≡ ok r → IsAnswer id response r
unfolding accept
accept_sound id response r h =
    let (b, h1) = then-eq_ok _ _ h in
    let (fs, o, h2) = >>=-eq-ok _ _ h1 in
    let (v, h3) = then-eq_ok _ _ h2 in
    let (i, h4) = then-eq_ok _ _ h3 in
    let (res, none') = payload-eq_ok _ _ r h4 in
    let (sized, deep) = (bounded_json_iff response 0).0 b in
    record {
      fields = fs;
      object = as_object-eq_ok response _ fs o;
      version = is_version-eq _ (not-eq_false _ (raise_if-eq_ok _ _ v));
      answers = is_id-eq id _ (not-eq_false _ (raise_if-eq_ok _ _ i));
      holds = res;
      no_error = none';
      sized = sized;
      shallow = omega arith;
    }

accept_complete :
    (id : ℕ) (response r : Value) → IsAnswer id response r → accept id (some response) ≡ ok r
unfolding accept
accept_complete id response r a =
    let version : not (is_version (get_or_null "jsonrpc" a.fields)) ≡ false =
      rw a.version (ap not (text_eq_refl (codes "2.0"))) in
    let same_id : not (is_id id (get_or_null "id" a.fields)) ≡ false =
      rw a.answers (ap not ((==_iff id id).1 refl)) in
    bind-ok _ ((bounded_json_iff response 0).1 (a.sized, (let s = a.shallow in omega arith))) (
      bind-ok _ (object-as_object response "response" a.fields a.object) (
        bind-ok _ (raise_if-ok _ _ version)
          (bind-ok _ (raise_if-ok _ _ same_id) (result-payload _ _ r a.holds a.no_error))))

accept_iff :
    (id : ℕ) (response : Option Value) (r : Value)
    → (accept id response ≡ ok r)
      ↔ ((answer : Value) × (response ≡ some answer) × IsAnswer id answer r)
unfolding accept
accept_iff id none r = (λ h. cc, λ (a, e, h). cc)
accept_iff id (some response) r = (
  λ h. (response, refl, accept_sound id response r h),
  λ (answer, e, h). subst (λ v. accept id v ≡ ok r) (sym e) (accept_complete id answer r h),
)

-- `call` always sends one request, with the next id. It returns a result, if and only if the
-- transport answers that request with a JSON-RPC 2.0 response within the limits, which has the
-- request's id and holds the result and no error.
pub call_iff :
    (transport : Transport) (method : String) (params : Values) (id : ℕ) (r : Value)
    → ((call transport method params id).1 ≡ id + 1)
      × (((call transport method params id).0 ≡ ok r) ↔ (
          (response : Value) × (transport (record { id = id + 1; method = method; params = params })
            ≡ some response)
          × IsAnswer (id + 1) response r))
unfolding call
call_iff transport method params id r = (refl, accept_iff (id + 1) (transport _) r)
