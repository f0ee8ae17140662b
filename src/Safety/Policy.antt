-- ===== src/Safety/Policy.antt =====
-- What a submission that the policy let through satisfies.
use psv.Text.Laws.{text_eq_iff}
use psv.Text.Hex.{int16}
use psv.Base.{
  ◌%◌, ◌^◌, String, ◌≡◌, refl, subst, ◌≢◌, inl, inr, true, some, ◌++◌, arith, Option-cases, length,
  drop, ok, Ensures, Ensures-eq_ok, Ensures-bind, Ensures-raise_if, Ensures-self, raise_if-eq_ok,
  Ensures-map,
}
use psv.Base.Int.{ℤ, pos, ◌<ℤ◌, eq_of_parts}
use psv.Text.{Text, codes, starts_with, remove_prefix_0x, lower}
use psv.Value.{Value, str}
use psv.Safety.{
  parse_chain_id, require_safe_submission, is_allowed, require_deployed_code, require_exact_amount,
  amount_of, require_address, int16, SafetyRpc, Submission,
}

-- The text is an address that does not vanish: 40 characters after an optional prefix, which
-- Python reads as a number other than zero; `normal` is its normal form.
pub record IsAddress (value normal : Text) : Type 0 where
  pub size : length (remove_prefix_0x value) ≡ 40
  pub numeric : ℤ
  pub reads : int16 (remove_prefix_0x value) ≡ some numeric
  pub nonzero : numeric ≢ pos 0
  pub lowered : normal ≡ codes "0x" ++ lower (remove_prefix_0x value)

require_address-IsAddress :
    (value normal : Text) (what : String)
    → require_address value what ≡ ok normal
    → IsAddress value normal
unfolding require_address
require_address-IsAddress value normal what e =
    elim (Option-cases (int16 (remove_prefix_0x value))) [
      | inl n ↦ absurd (ground (arith, n))
      | inr (z, r) ↦ record {
        size = ground (arith, r);
        numeric = z;
        reads = r;
        nonzero = ground (arith, r);
        lowered = ground (arith, r);
      }
    ]

require_address-Ensures :
    (value : Text) (what : String) → Ensures (λ t. IsAddress value t) (require_address value what)
require_address-Ensures value what =
    Ensures-map (Ensures-self (require_address value what))
      λ t. require_address-IsAddress value t what

-- The amount that the payer signed is the order's, which a uint256 holds and which is not zero.
pub record IsExact (raw : Value) (expected : ℤ) : Type 0 where
  pub signed : amount_of raw ≡ ok expected
  pub positive : pos 0 <ℤ expected
  pub bounded : expected <ℤ pos (2 ^ 256)

require_exact_amount-Ensures :
    (raw : Value) (expected : ℤ)
    → Ensures (λ u. IsExact raw expected) (require_exact_amount raw expected)
unfolding require_exact_amount
require_exact_amount-Ensures raw expected =
    Ensures-bind (Ensures-self (amount_of raw)) λ amount signed. Ensures-raise_if _ _ _ λ range.
      Ensures-map (Ensures-self _) λ u done. record {
        signed = ground (arith, signed, raise_if-eq_ok _ _ done, eq_of_parts amount expected);
        positive = ground (arith, range);
        bounded = ground (arith, range);
      }

-- Contract code: hex of whole bytes that does not vanish.
pub record IsDeployed (code : Value) : Type 0 where
  pub text : Text
  pub is_text : code ≡ str text
  pub prefixed : starts_with text (codes "0x") ≡ true
  pub numeric : ℤ
  pub reads : int16 (drop 2 text) ≡ some numeric
  pub nonzero : numeric ≢ pos 0
  pub whole : length (drop 2 text) % 2 ≡ 0

require_deployed_code-IsDeployed :
    (code : Value) (u : Unit {0}) → require_deployed_code code ≡ ok u → IsDeployed code
unfolding require_deployed_code
require_deployed_code-IsDeployed (str s) u e = elim (Option-cases (int16 (drop 2 s))) [
  | inl n ↦ absurd (ground (arith, n))
  | inr (z, r) ↦ record {
    text = s;
    is_text = refl;
    prefixed = ground (arith, r);
    numeric = z;
    reads = r;
    nonzero = ground (arith, r);
    whole = ground (arith, r);
  }
]
require_deployed_code-IsDeployed _ u e = absurd (cc)

-- What the policy promises of a submission that it lets through.
pub record IsSafe (rpc : SafetyRpc) (s : Submission) : Type 0 where
  pub allowed : is_allowed s.configured_chain_id ≡ true
  pub answer : Value
  pub answered : rpc.chain_id_answer ≡ ok answer
  pub same_chain : parse_chain_id answer ≡ ok s.configured_chain_id
  pub token : Text
  pub token_address : IsAddress s.token_address token
  pub payer : Text
  pub payer_address : IsAddress s.payer_address payer
  pub payee : Text
  pub payee_address : IsAddress s.payee_address payee
  pub signed_payee : IsAddress s.authorization_to payee
  pub amount : IsExact s.authorization_amount s.expected_amount
  pub code : Value
  pub code_eq : rpc.get_code token ≡ ok code
  pub deployed : IsDeployed code

-- The policy fails closed: a submission that it lets through is on an allowed test chain, which the
-- node confirms to be on. Token, payer, merchant and signed payee are 40 characters, after an optional
-- prefix, that Python's `int` reads to the base 16 as a number other than zero, which admits signs,
-- underscores and blanks. What the node answers for the code of the token is a prefix and an even
-- number of characters that `int` reads so. The signed payee is the merchant, and the signed amount is
-- exactly the order's, positive and within uint256.
pub require_safe_submission-IsSafe :
    (rpc : SafetyRpc) (s : Submission) → require_safe_submission rpc s ≡ ok tt → IsSafe rpc s
unfolding require_safe_submission
require_safe_submission-IsSafe rpc s = Ensures-eq_ok {P = λ u. IsSafe rpc s} (
    Ensures-raise_if _ _ _ λ allowed.
      Ensures-bind (Ensures-self rpc.chain_id_answer) λ answer answered.
        Ensures-bind (Ensures-self (parse_chain_id answer)) λ chain parsed.
          Ensures-raise_if _ _ _ λ same.
            Ensures-bind (require_address-Ensures s.token_address "token address") λ token at.
              Ensures-bind (require_address-Ensures s.payer_address "payer address") λ payer ap'.
                Ensures-bind (require_address-Ensures s.payee_address "payee address") λ payee am.
                  Ensures-bind (require_address-Ensures s.authorization_to "authorization payee")
                    λ signed as'. Ensures-raise_if _ _ _ λ agree.
                      Ensures-bind
                        (require_exact_amount-Ensures s.authorization_amount s.expected_amount)
                        λ u exact. Ensures-bind (Ensures-self (rpc.get_code token)) λ code coded.
                          Ensures-map (Ensures-self (require_deployed_code code)) λ v deployed.
                            record {
                              allowed = ground (arith, allowed);
                              answer = answer;
                              answered = answered;
                              same_chain =
                                  ground
                                    (arith, parsed, same, eq_of_parts chain s.configured_chain_id);
                              token = token;
                              token_address = at;
                              payer = payer;
                              payer_address = ap';
                              payee = payee;
                              payee_address = am;
                              signed_payee =
                                  subst (λ t. IsAddress s.authorization_to t)
                                    (ground (arith, agree, text_eq_iff signed payee)) as';
                              amount = exact;
                              code = code;
                              code_eq = coded;
                              deployed = require_deployed_code-IsDeployed code v deployed;
                            })
