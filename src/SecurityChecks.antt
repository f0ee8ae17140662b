-- ===== src/SecurityChecks.antt =====
-- src/psv/security_checks.py: the guards on assets, order ids and signatures. The recovery of a signer
-- is a parameter.
pub mod Entropy
mod Tests
use psv.Base.{
  ℕ, Bool, false, not, ◌&&◌, ◌||◌, Option, none, some, [], ◌∷◌, leb, ◌==◌, if◌then◌else◌, length,
  drop, all, any, Result, ok, ◌>>=◌, ◌>>◌, raise_if,
}
use psv.Text.{Text, text_eq, starts_with, lower, is_hex_digit}
use psv.Rpc.{is_data_text}

-- The ValueErrors of the guards.
pub data SecurityError : Type 0 where
  bad_asset_address bad_code : SecurityError

-- `authorization_binds_to_chain`: `recovered` is what the signature recovers to under the expected
-- domain, or `none` where the recovery raises, and the other text is `auth["from"]`.
unfoldable pub authorization_binds_to_chain : Option Text → Text → Bool
authorization_binds_to_chain none claimed = false
authorization_binds_to_chain (some recovered) claimed = text_eq (lower recovered) (lower claimed)

-- `re.fullmatch(r"0[xX][0-9a-fA-F]{40}", s)`
unfoldable pub is_asset_address : Text → Bool
unfolding is_hex_digit
is_asset_address (a ∷ b ∷ s) =
    a == b'0' && (b == b'x' || b == b'X') && length s == 40 && all is_hex_digit s
is_asset_address _ = false

unfoldable pub asset_matches : Text → Text → Result SecurityError Bool
unfolding is_asset_address
asset_matches log_address expected_token = do
  raise_if (not (is_asset_address log_address) || not (is_asset_address expected_token))
      bad_asset_address
  ok (text_eq (lower log_address) (lower expected_token))

-- `_HEX_RE.match(s)`: the `$` of the pattern also matches before a newline at the end.
unfoldable pub matches_hex : Text → Bool
unfolding is_hex_digit
matches_hex [] = false
matches_hex (c ∷ []) = is_hex_digit c
matches_hex (c ∷ d ∷ s) = is_hex_digit c && (matches_hex (d ∷ s) || d == 10 && length s == 0)

-- `order_id[len(prefix):] if order_id.startswith(prefix) else order_id`
unfoldable pub random_part : Text → Text → Text
random_part prefix order_id =
    if starts_with order_id prefix then drop (length prefix) order_id else order_id

unfoldable pub sufficient_id_entropy : Text → Text → ℕ → Bool
unfolding random_part matches_hex
sufficient_id_entropy order_id prefix min_random_hex =
    leb min_random_hex (length (random_part prefix order_id))
    && matches_hex (random_part prefix order_id)

-- `asset_is_deployed_contract`: some byte of the code is not zero.
unfoldable pub asset_is_deployed_contract : Text → Result SecurityError Bool
asset_is_deployed_contract code = do
  raise_if (not (is_data_text code)) bad_code
  ok (any (λ c. not (c == b'0')) (lower (drop 2 code)))
