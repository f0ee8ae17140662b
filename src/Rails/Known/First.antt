-- ===== src/Rails/Known/First.antt =====
-- The first rails of KNOWN_RAILS in src/psv/rails.py, with the constants they name.
use psv.Base.{true, false, none, some, [], ◌∷◌}
use psv.Base.Int.{pos}
use psv.Text.{codes}
use psv.Rails.{RailConfig}
use psv.Rails.Known.{attestation}

abbrev pub mock_anvil : RailConfig
mock_anvil = record {
  key = "mock-anvil";
  label = "Local MockUSDC (Anvil)";
  chain_id = pos 84532;
  token_address = codes "0x5FbDB2315678afecb367f032d93F642f64180aa3";
  decimals = pos 6;
  token_name = some "USDC";
  token_version = some "2";
  finality = record { block_tag = codes "latest"; minimum_confirmations = pos 1 };
  attestation = attestation (record {
    sources = "https://eips.ethereum.org/EIPS/eip-3009" ∷ [];
    network_class = "local";
    proxy_kind = "none";
    decimals = pos 6;
    domain_name = some "USDC";
    domain_version = some "2";
    calibrated = none;
    reviewed_block_number = none;
    reviewed_block_hash = none;
    expected_code_sha256 = none;
    implementation_address = none;
    proxy_implementation_slot = none;
    implementation_code_sha256 = none;
    reviewed_on = (2026, 7, 18);
    version = "2026-07-18.2";
  });
  signing_enabled = false;
}

abbrev pub usdc_base : RailConfig
usdc_base = record {
  key = "usdc-base";
  label = "USDC on Base";
  chain_id = pos 8453;
  token_address = codes "0x833589fCD6eDb6E08f4c7C32D4f71b54bdA02913";
  decimals = pos 6;
  token_name = some "USD Coin";
  token_version = some "2";
  finality = record { block_tag = codes "finalized"; minimum_confirmations = pos 1 };
  attestation = attestation (record {
    sources =
        "https://developers.circle.com/stablecoins/usdc-contract-addresses"
        ∷ "https://eips.ethereum.org/EIPS/eip-3009" ∷ "https://mainnet.base.org" ∷ [];
    network_class = "mainnet";
    proxy_kind = "fiat-token-proxy";
    decimals = pos 6;
    domain_name = some "USD Coin";
    domain_version = some "2";
    calibrated = some true;
    reviewed_block_number = some (pos 48_783_151);
    reviewed_block_hash =
        some (codes "0x958d7bd04181a2d5b4ae239e5ecdf8944fe46fe25cedac2bb961a081aa822edb");
    expected_code_sha256 =
        some (codes "98d785fcb1bf847f287adc2310759fd94cc13e754b974bc72131382e8266f607");
    implementation_address = some (codes "0x2ce6311ddae708829bc0784c967b7d77d19fd779");
    proxy_implementation_slot =
        some (codes "0x7050c9e0f4ca769c69bd3a8ef740bc37934f8e2c036e5a723fd8ee048ed3f8c3");
    implementation_code_sha256 =
        some (codes "dcb3b7ca28662970d0a7cdad420e529fb837d7bf8a246b1a680c20e153db79e8");
    reviewed_on = (2026, 7, 18);
    version = "2026-07-18.2";
  });
  signing_enabled = false;
}

abbrev pub usdc_polygon : RailConfig
usdc_polygon = record {
  key = "usdc-polygon";
  label = "USDC on Polygon";
  chain_id = pos 137;
  token_address = codes "0x3c499c542cEF5E3811e1192ce70d8cC03d5c3359";
  decimals = pos 6;
  token_name = some "USD Coin";
  token_version = some "2";
  finality = record { block_tag = codes "finalized"; minimum_confirmations = pos 1 };
  attestation = attestation (record {
    sources =
        "https://developers.circle.com/stablecoins/usdc-contract-addresses"
        ∷ "https://eips.ethereum.org/EIPS/eip-3009" ∷ "https://polygon.drpc.org" ∷ [];
    network_class = "mainnet";
    proxy_kind = "fiat-token-proxy";
    decimals = pos 6;
    domain_name = some "USD Coin";
    domain_version = some "2";
    calibrated = some true;
    reviewed_block_number = some (pos 91_954_134);
    reviewed_block_hash =
        some (codes "0x643d0996cf9b2c8a345330946878e5f701a4bfbb825dab4b5b4337432012ce2c");
    expected_code_sha256 =
        some (codes "dc2898fcd8071dd801212e8f34ce32f23aba05aadbad71ff84ef7faa2909a29c");
    implementation_address = some (codes "0x235ae97b28466db30469b89a9fe4cff0659f82cb");
    proxy_implementation_slot =
        some (codes "0x7050c9e0f4ca769c69bd3a8ef740bc37934f8e2c036e5a723fd8ee048ed3f8c3");
    implementation_code_sha256 =
        some (codes "ccc73d219a0d3f7ea8a2bafce3351a9ae1d394dd9ab4c35497865541505fedd9");
    reviewed_on = (2026, 8, 13);
    version = "2026-08-13.1";
  });
  signing_enabled = false;
}

abbrev pub jpyc_polygon : RailConfig
jpyc_polygon = record {
  key = "jpyc-polygon";
  label = "JPYC on Polygon";
  chain_id = pos 137;
  token_address = codes "0xe7c3d8c9a439fede00d2600032d5db0be71c3c29";
  decimals = pos 18;
  token_name = some "JPY Coin";
  token_version = some "1";
  finality = record { block_tag = codes "finalized"; minimum_confirmations = pos 1 };
  attestation = attestation (record {
    sources =
        "https://corporate.jpyc.co.jp/news/posts/Notice" ∷ "https://eips.ethereum.org/EIPS/eip-3009"
        ∷ [];
    network_class = "mainnet";
    proxy_kind = "vendor-proxy";
    decimals = pos 18;
    domain_name = some "JPY Coin";
    domain_version = some "1";
    calibrated = none;
    reviewed_block_number = none;
    reviewed_block_hash = none;
    expected_code_sha256 = none;
    implementation_address = none;
    proxy_implementation_slot = none;
    implementation_code_sha256 = none;
    reviewed_on = (2026, 7, 18);
    version = "2026-07-18.2";
  });
  signing_enabled = false;
}

abbrev pub eurc_base : RailConfig
eurc_base = record {
  key = "eurc-base";
  label = "EURC on Base";
  chain_id = pos 8453;
  token_address = codes "0x60a3e35cc302bfa44cb288bc5a4f316fdb1adb42";
  decimals = pos 6;
  token_name = none;
  token_version = none;
  finality = record { block_tag = codes "finalized"; minimum_confirmations = pos 1 };
  attestation = attestation (record {
    sources =
        "https://developers.circle.com/stablecoins/eurc-contract-addresses"
        ∷ "https://eips.ethereum.org/EIPS/eip-3009" ∷ "https://mainnet.base.org" ∷ [];
    network_class = "mainnet";
    proxy_kind = "fiat-token-proxy";
    decimals = pos 6;
    domain_name = none;
    domain_version = none;
    calibrated = some true;
    reviewed_block_number = some (pos 48_783_151);
    reviewed_block_hash =
        some (codes "0x958d7bd04181a2d5b4ae239e5ecdf8944fe46fe25cedac2bb961a081aa822edb");
    expected_code_sha256 =
        some (codes "c9cf7c3f11c4d3d818801b5a965cea3bae6ff3b9b923242b91a9b4e5888e7835");
    implementation_address = some (codes "0x2ce6311ddae708829bc0784c967b7d77d19fd779");
    proxy_implementation_slot =
        some (codes "0x7050c9e0f4ca769c69bd3a8ef740bc37934f8e2c036e5a723fd8ee048ed3f8c3");
    implementation_code_sha256 =
        some (codes "dcb3b7ca28662970d0a7cdad420e529fb837d7bf8a246b1a680c20e153db79e8");
    reviewed_on = (2026, 7, 18);
    version = "2026-07-18.2";
  });
  signing_enabled = false;
}
