-- ===== src/Adapter/Parsed.antt =====
-- What a parsed answer satisfies.
use psv.Text.Laws.{text_eq_iff}
use psv.Text.Hex.{is_hex_of}
use psv.Base.{
  ℕ, ◌+◌, ◌≤◌, String, ◌≡◌, refl, ◌↔◌, ◌⊎◌, Bool, true, false, ◌&&◌, Option, none, some, [], ◌∷◌,
  arith, is_some, if-cases, length, all, All, ok, Ensures, Ensures-eq_ok, Ensures-bind,
  Ensures-skip, Ensures-raise_if, Ensures-self,
}
use psv.Text.{Text, is_hex_digit}
use psv.Value.{Value, Fields, null, str, get_or_null, uint256_max}
use psv.Adapter.{
  pending, is_pending, settled, parse_pay, outcome, parse_quote, network_of, decimal_int,
  parse_network, network_group, positive_uint256, transaction_hash, parse_address, is_hex_of,
  matching_order_id, parse_order_id, max_order_id_chars, is_other, wire_string, max_text_chars,
  Quote, PayResult, chain_id,
}

abbrev pub IsWire : Text → Type 0
IsWire s = (1 ≤ length s) × (length s ≤ max_text_chars)

wire_string-IsWire : (v : Value) (name : String) → Ensures IsWire (wire_string v name)
unfolding wire_string
wire_string-IsWire (str s) name = ground arith
wire_string-IsWire _ name = record { holds = tt }

-- The order id is the one that was asked for, where one is given.
abbrev pub Matches : Option Text → Text → Type 0
Matches none s = Unit
Matches (some e) s = s ≡ e

is_other-Matches : (e : Option Text) (s : Text) → is_other e s ≡ false → Matches e s
is_other-Matches none s h = tt
is_other-Matches (some e) s h = ground (arith, text_eq_iff s e)

abbrev pub IsOrderId : Option Text → Text → Type 0
IsOrderId expected s = (1 ≤ length s) × (length s ≤ max_order_id_chars) × Matches expected s

parse_order_id-Ensures :
    (v : Value) (name : String)
    → Ensures (λ s. (1 ≤ length s) × (length s ≤ max_order_id_chars)) (parse_order_id v name)
unfolding parse_order_id
parse_order_id-Ensures v name =
    Ensures-bind (wire_string-IsWire v name)
      λ s w. Ensures-raise_if _ _ _ λ h. record { holds = ground arith }

matching_order_id-IsOrderId :
    (body : Fields) (expected : Option Text)
    → Ensures (IsOrderId expected) (matching_order_id body expected)
unfolding matching_order_id
matching_order_id-IsOrderId body expected = Ensures-skip _ _ λ v.
    Ensures-bind (parse_order_id-Ensures v "order_id") λ s b.
      Ensures-raise_if _ _ _ λ h. record { holds = (b.0, b.1, is_other-Matches expected s h) }

is_hex_of-length : (n : ℕ) (s : Text) → is_hex_of n s ≡ true → length s ≡ n + 2
unfolding is_hex_of
is_hex_of-length n [] h = absurd (cc)
is_hex_of-length n (a ∷ []) h = absurd (cc)
is_hex_of-length n (a ∷ b ∷ s) h = ground arith

-- A decimal digit, or one of the letters a to f or A to F.
abbrev pub IsHexChar : ℕ → Type 0
IsHexChar c = ((b'0' ≤ c) × (c ≤ b'9')) ⊎ (((b'a' ≤ c) × (c ≤ b'f')) ⊎ ((b'A' ≤ c) × (c ≤ b'F')))

hex_char : (c : ℕ) → is_hex_digit c ≡ true → IsHexChar c
unfolding is_hex_digit
hex_char c h = ground arith

hex_chars : (s : Text) → all is_hex_digit s ≡ true → All IsHexChar s
hex_chars [] h = tt
hex_chars (c ∷ s) h = (hex_char c (ground arith), hex_chars s (ground arith))

-- An exact address: 0x and 40 hexadecimal characters.
abbrev pub IsExactAddress : Text → Type 0
IsExactAddress s =
    (body : Text) × (s ≡ b'0' ∷ b'x' ∷ body) × (length body ≡ 40) × All IsHexChar body

is_hex_of-IsExactAddress : (s : Text) → is_hex_of 40 s ≡ true → IsExactAddress s
unfolding is_hex_of
is_hex_of-IsExactAddress [] h = absurd (cc)
is_hex_of-IsExactAddress (a ∷ []) h = absurd (cc)
is_hex_of-IsExactAddress (a ∷ b ∷ s) h =
    let zero_char : a ≡ b'0' = ground arith in
    let x_char : b ≡ b'x' = ground arith in
    (s, cc (zero_char, x_char), ground arith, hex_chars s (ground arith))

parse_address-Ensures : (v : Value) (name : String) → Ensures IsExactAddress (parse_address v name)
unfolding parse_address
parse_address-Ensures (str s) name =
    if-cases (Ensures IsExactAddress) (is_hex_of 40 s)
      (λ h. record { holds = is_hex_of-IsExactAddress s h }) λ h. record { holds = tt }
parse_address-Ensures _ name = record { holds = tt }

abbrev pub IsTxHash : Option Text → Type 0
IsTxHash none = Unit
IsTxHash (some s) = length s ≡ 66

transaction_hash-IsTxHash : (v : Value) (name : String) → Ensures IsTxHash (transaction_hash v name)
unfolding transaction_hash
transaction_hash-IsTxHash null name = record { holds = tt }
transaction_hash-IsTxHash (str s) name = ground (arith, is_hex_of-length 64 s)
transaction_hash-IsTxHash _ name = record { holds = tt }

positive_uint256-Ensures :
    (v : Value) (name : String)
    → Ensures (λ n. (1 ≤ n) × (n ≤ uint256_max)) (positive_uint256 v name)
unfolding positive_uint256
positive_uint256-Ensures (str s) name =
    Ensures-raise_if _ _ _
      λ form. Ensures-skip _ _ λ n. Ensures-raise_if _ _ _ λ range. record { holds = ground arith }
positive_uint256-Ensures _ name = record { holds = tt }

-- The network of a parsed quote, with the chain that `chain_id` reads from it.
pub record IsNetwork (s : Text) : Type 0 where
  pub group : Text
  pub matches : network_group s ≡ some group
  pub chain : ℕ
  pub reads : decimal_int group ≡ ok chain
  pub bounded : chain ≤ uint256_max

network_of-IsNetwork :
    (s : Text) (o : Option Text) → network_group s ≡ o → Ensures IsNetwork (network_of s o)
unfolding network_of
network_of-IsNetwork s none e = record { holds = tt }
network_of-IsNetwork s (some group) e = Ensures-bind (Ensures-self (decimal_int group)) λ n reads.
    Ensures-raise_if _ _ _ λ h. record {
      holds = record {
        group = group;
        matches = e;
        chain = n;
        reads = reads;
        bounded = ground (arith, h);
      };
    }

parse_network-IsNetwork : (v : Value) → Ensures IsNetwork (parse_network v)
unfolding parse_network
parse_network-IsNetwork (str s) = network_of-IsNetwork s (network_group s) refl
parse_network-IsNetwork _ = record { holds = tt }

pub record IsValid (q : Quote) : Type 0 where
  pub order_id : IsOrderId none q.order_id
  pub positive : 1 ≤ q.amount
  pub bounded : q.amount ≤ uint256_max
  pub pay_to : IsExactAddress q.pay_to
  pub asset : IsExactAddress q.asset
  pub token_name : IsWire q.token_name
  pub token_version : IsWire q.token_version
  pub chain : ℕ
  pub chain_eq : chain_id q ≡ ok chain
  pub chain_bound : chain ≤ uint256_max

chain_id-IsNetwork : (q : Quote) (h : IsNetwork q.network) → chain_id q ≡ ok h.chain
unfolding chain_id
chain_id-IsNetwork q h = let m = h.matches in let r = h.reads in ground (arith, m, r)

-- A parsed quote is valid: a positive amount within uint256, two addresses of 0x and exactly 40
-- hexadecimal characters, texts within their
-- bounds, and a network from which `chain_id` reads a chain within uint256, without raising.
pub parse_quote-IsValid : (body : Value) (q : Quote) → parse_quote body ≡ ok q → IsValid q
unfolding parse_quote
parse_quote-IsValid body q = Ensures-eq_ok {P = IsValid} (
    Ensures-skip _ _ λ parsed. Ensures-skip _ _ λ extra_value. Ensures-skip _ _ λ extra.
      Ensures-skip _ _ λ name_value.
        Ensures-bind (wire_string-IsWire name_value "extra.name") λ name n.
          Ensures-skip _ _ λ version_value.
            Ensures-bind (wire_string-IsWire version_value "extra.version") λ version v.
              Ensures-bind (matching_order_id-IsOrderId parsed none) λ order_id o.
                Ensures-skip _ _ λ amount_value.
                  Ensures-bind (positive_uint256-Ensures amount_value "amount") λ amount a.
                    Ensures-skip _ _ λ pay_to_value.
                      Ensures-bind (parse_address-Ensures pay_to_value "payTo") λ pay_to p.
                        Ensures-skip _ _ λ asset_value.
                          Ensures-bind (parse_address-Ensures asset_value "asset") λ asset s.
                            Ensures-skip _ _ λ network_value.
                              Ensures-bind (parse_network-IsNetwork network_value) λ network w.
                                record {
                                  holds = record {
                                    order_id = o;
                                    positive = a.0;
                                    bounded = a.1;
                                    pay_to = p;
                                    asset = s;
                                    token_name = n;
                                    token_version = v;
                                    chain = w.chain;
                                    chain_eq =
                                        chain_id-IsNetwork
                                          (record {
                                            order_id = order_id;
                                            amount = amount;
                                            pay_to = pay_to;
                                            asset = asset;
                                            network = network;
                                            token_name = name;
                                            token_version = version;
                                          })
                                          w;
                                    chain_bound = w.bounded;
                                  };
                                })

pub record IsConsistentResult (expected : Option Text) (r : PayResult) : Type 0 where
  pub order : IsOrderId expected r.order_id
  pub hash : IsTxHash r.submitted_tx
  pub settled_iff : (outcome r ≡ settled) ↔ (r.is_settled ≡ true)
  pub not_both : r.is_settled ≡ true → is_pending r.reason ≡ false
  pub pending_iff :
      (outcome r ≡ pending) ↔ ((is_pending r.reason ≡ true) × (is_some r.submitted_tx ≡ true))

outcome-cases :
    (order_id : Text) (submitted_tx : Option Text) (is_settled : Bool) (reason : Option Text)
    → is_settled && is_pending reason ≡ false
    → let r : PayResult = record {
      order_id = order_id;
      submitted_tx = submitted_tx;
      is_settled = is_settled;
      reason = reason;
    } in
      ((outcome r ≡ settled) ↔ (is_settled ≡ true))
      × (is_settled ≡ true → is_pending reason ≡ false)
      × ((outcome r ≡ pending) ↔ ((is_pending reason ≡ true) × (is_some submitted_tx ≡ true)))
unfolding outcome
outcome-cases order_id submitted_tx is_settled reason h = ground arith

-- A parsed answer to `pay` is about the order that was asked for, and says one thing: it is settled
-- without the reason `settlement_pending`, or pending with that reason and the hash of a transaction,
-- or unsettled.
pub parse_pay-IsConsistentResult :
    (body : Value) (expected : Option Text) (r : PayResult)
    → parse_pay body expected ≡ ok r
    → IsConsistentResult expected r
unfolding parse_pay
parse_pay-IsConsistentResult body expected r = Ensures-eq_ok {P = IsConsistentResult expected} (
    Ensures-skip _ _ λ parsed. Ensures-skip _ _ λ settled_value. Ensures-skip _ _ λ is_settled.
      Ensures-skip _ _ λ reason. Ensures-raise_if _ _ _ λ apart.
        Ensures-bind (matching_order_id-IsOrderId parsed expected) λ order_id o.
          Ensures-bind
            (transaction_hash-IsTxHash (get_or_null "submitted_tx" parsed) "submitted_tx")
            λ submitted_tx t.
              let c = outcome-cases order_id submitted_tx is_settled reason apart in
              record {
                holds = record {
                  order = o;
                  hash = t;
                  settled_iff = c.0;
                  not_both = c.1;
                  pending_iff = c.2;
                };
              })
