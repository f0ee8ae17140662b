-- ===== src/Cli/Accepted.antt =====
-- Parsed arguments of src/psv/cli.py are those that src/psv/rails.py accepts.
use psv.Rpc.Bounded.{not-eq_false}
use psv.Base.{
  ℕ, ◌≤◌, String, ◌≡◌, refl, ap, true, not, Option, none, some, arith, ok, Ensures, Ensures-bind,
  Ensures-skip, Ensures-raise_if, Ensures-map, bind-ok, raise_if-ok,
}
use psv.Base.Int.{ℤ, pos}
use psv.Text.{Text, lower}
use psv.Value.{int, str, bounded_int, uint256_max, bounded_int-le, bounded_int-int}
use psv.Text.Hex.{is_hex_of}
use psv.Rails.Observed.{exact_hash}
use psv.Rails.Arguments.{Arguments, uint256_from, belief, check_arguments}
use psv.Cli.{Request, payment_of}
use psv.Cli.Options.{
  bytes32, int10, in_uint256, uint256, positive_uint256, RawRequest, parse_request,
}

bytes32-is_hex : (v : Text) → Ensures (λ w. is_hex_of 64 w ≡ true) (bytes32 v)
unfolding bytes32
bytes32-is_hex v = Ensures-raise_if _ _ _ λ h. record { holds = not-eq_false _ h }

in_uint256-le : (o : Option ℤ) → Ensures (λ n. n ≤ uint256_max) (in_uint256 o)
in_uint256-le none = record { holds = tt }
in_uint256-le (some z) = by (bounded_int uint256_max (int z)) refl
  where
    by :
        (o : Option ℕ)
        → bounded_int uint256_max (int z) ≡ o
        → Ensures (λ n. n ≤ uint256_max) (in_uint256 (some z))
    by none e = rw e (record { holds = tt })
    by (some n) e = rw e (record { holds = bounded_int-le uint256_max (int z) n e })

uint256-le : (v : Text) → Ensures (λ n. n ≤ uint256_max) (uint256 v)
unfolding uint256
uint256-le v = in_uint256-le (int10 v)

positive_uint256-InRange :
    (v : Text) → Ensures (λ n. (1 ≤ n) × (n ≤ uint256_max)) (positive_uint256 v)
unfolding positive_uint256
positive_uint256-InRange v =
    Ensures-bind (uint256-le v)
      λ n small. Ensures-raise_if _ _ _ λ h. record { holds = (ground arith, small) }

-- A request whose hashes are hexadecimal and whose numbers are in range.
record IsInRange (q : Request) : Type 0 where
  nonce_hex : is_hex_of 64 q.nonce ≡ true
  hash_hex : is_hex_of 64 q.transaction_hash ≡ true
  index : ℕ
  is_index : (q.log_index ≡ pos index) × (index ≤ uint256_max)
  amount : ℕ
  is_amount : (q.required_amount ≡ pos amount) × (1 ≤ amount) × (amount ≤ uint256_max)
  payer_had : ℕ
  is_payer : (q.payer_before ≡ pos payer_had) × (payer_had ≤ uint256_max)
  payee_had : ℕ
  is_payee : (q.payee_before ≡ pos payee_had) × (payee_had ≤ uint256_max)

parse_request-IsInRange : (r : RawRequest) → Ensures IsInRange (parse_request r)
unfolding parse_request
parse_request-IsInRange r = Ensures-skip _ _ λ _. Ensures-skip _ _ λ _.
    Ensures-bind (bytes32-is_hex r.nonce) λ _ nonce_hex.
      Ensures-bind (bytes32-is_hex r.transaction_hash) λ _ hash_hex.
        Ensures-bind (uint256-le r.log_index) λ index index_small.
          Ensures-bind (positive_uint256-InRange r.required_amount) λ amount amount_range.
            Ensures-bind (uint256-le r.payer_before) λ payer_had payer_small.
              Ensures-bind (uint256-le r.payee_before) λ payee_had payee_small. record {
                holds = record {
                  nonce_hex = nonce_hex;
                  hash_hex = hash_hex;
                  index = index;
                  is_index = (refl, index_small);
                  amount = amount;
                  is_amount = (refl, amount_range.0, amount_range.1);
                  payer_had = payer_had;
                  is_payer = (refl, payer_small);
                  payee_had = payee_had;
                  is_payee = (refl, payee_small);
                };
              }

uint256_from-ok :
    (minimum n : ℕ) (what : String) (z : ℤ)
    → z ≡ pos n
    → minimum ≤ n
    → n ≤ uint256_max
    → uint256_from minimum (int z) what ≡ ok n
unfolding uint256_from
uint256_from-ok minimum n what z same low high =
    rw same (rw (bounded_int-int uint256_max n high) (ground arith))

exact_hash-ok :
    (s : Text) (what : String) → is_hex_of 64 s ≡ true → exact_hash (str s) what ≡ ok (lower s)
unfolding exact_hash
exact_hash-ok s what h = rw h refl

IsInRange-accepted :
    (q : Request) → IsInRange q → (a : Arguments) × (check_arguments (payment_of q) ≡ ok a)
unfolding check_arguments belief
IsInRange-accepted q h = (
  record {
    tx_hash = lower q.transaction_hash;
    log_index = h.index;
    required_amount = h.amount;
    payer_before = h.payer_had;
    payee_before = h.payee_had;
    believes = q.sut_believes_paid;
  },
  bind-ok _ (exact_hash-ok q.transaction_hash "transaction hash" h.hash_hex) (
      bind-ok _ (raise_if-ok _ _ (ap not h.nonce_hex)) (
        bind-ok _ (uint256_from-ok 0 h.index _ _ h.is_index.0 (omega arith) h.is_index.1) (
          bind-ok _ (uint256_from-ok 1 h.amount _ _ h.is_amount.0 h.is_amount.1 h.is_amount.2) (
            bind-ok _ (uint256_from-ok 0 h.payer_had _ _ h.is_payer.0 (omega arith) h.is_payer.1) (
              bind-ok _ (uint256_from-ok 0 h.payee_had _ _ h.is_payee.0 (omega arith) h.is_payee.1)
                (bind-ok _ refl refl)))))),
)

-- Whatever `psv reconcile` parses, `reconcile_live` accepts its arguments: the checks on them that
-- precede the first read of the chain pass.
pub parse_request-accepted :
    (r : RawRequest)
    → Ensures (λ q. (a : Arguments) × (check_arguments (payment_of q) ≡ ok a)) (parse_request r)
parse_request-accepted r = Ensures-map (parse_request-IsInRange r) IsInRange-accepted
