-- ===== src/Rails/Known/Second.antt =====
-- The other rails of KNOWN_RAILS in src/psv/rails.py, with the constants they name.
use psv.Base.{true, false, some, [], ◌∷◌}
use psv.Base.Int.{pos}
use psv.Text.{codes}
use psv.Rails.{RailConfig}
use psv.Rails.Known.{attestation}

abbrev pub usdc_celo : RailConfig
usdc_celo = record {
  key = "usdc-celo";
  label = "USDC on Celo";
  chain_id = pos 42220;
  token_address = codes "0xcebA9300f2b948710d2653dD7B07f33A8B32118C";
  decimals = pos 6;
  token_name = some "USDC";
  token_version = some "2";
  finality = record { block_tag = codes "finalized"; minimum_confirmations = pos 1 };
  attestation = attestation (record {
    sources =
        "https://developers.circle.com/stablecoins/usdc-contract-addresses"
        ∷ "https://eips.ethereum.org/EIPS/eip-3009"
        ∷ "https://github.com/x402-foundation/x402/blob/main/DEFAULT_ASSETS.md"
        ∷ "https://forno.celo.org" ∷ [];
    network_class = "mainnet";
    proxy_kind = "fiat-token-proxy";
    decimals = pos 6;
    domain_name = some "USDC";
    domain_version = some "2";
    calibrated = some true;
    reviewed_block_number = some (pos 74_742_375);
    reviewed_block_hash =
        some (codes "0x0e5b9dcd8f843fc8ddaa41bc578b82a0eb9149e1570eaeda534c6c7809b8b939");
    expected_code_sha256 =
        some (codes "c8dd45e79870cb5e3d81e19f704c0fb54809c98f5be4243c552dc34a3ca7b6e4");
    implementation_address = some (codes "0xda06d4e3f59fe2c8ff3077a9d50d5be5e231becd");
    proxy_implementation_slot =
        some (codes "0x7050c9e0f4ca769c69bd3a8ef740bc37934f8e2c036e5a723fd8ee048ed3f8c3");
    implementation_code_sha256 =
        some (codes "d13bec344a0650de736a9bfce03cd0930d5c117764f61ea3ed2357f70e817a14");
    reviewed_on = (2026, 8, 13);
    version = "2026-08-13.1";
  });
  signing_enabled = false;
}

abbrev pub usdc_celo_sepolia : RailConfig
usdc_celo_sepolia = record {
  key = "usdc-celo-sepolia";
  label = "USDC on Celo Sepolia";
  chain_id = pos 11142220;
  token_address = codes "0x01C5C0122039549AD1493B8220cABEdD739BC44E";
  decimals = pos 6;
  token_name = some "USDC";
  token_version = some "2";
  finality = record { block_tag = codes "finalized"; minimum_confirmations = pos 1 };
  attestation = attestation (record {
    sources =
        "https://developers.circle.com/stablecoins/usdc-contract-addresses"
        ∷ "https://eips.ethereum.org/EIPS/eip-3009"
        ∷ "https://github.com/x402-foundation/x402/blob/main/DEFAULT_ASSETS.md"
        ∷ "https://forno.celo-sepolia.celo-testnet.org" ∷ [];
    network_class = "testnet";
    proxy_kind = "fiat-token-proxy";
    decimals = pos 6;
    domain_name = some "USDC";
    domain_version = some "2";
    calibrated = some true;
    reviewed_block_number = some (pos 33_358_890);
    reviewed_block_hash =
        some (codes "0x5982a282bf48188354af6583ea268bcafd0297c9b7ea30fa95e49fd57a7ccc9d");
    expected_code_sha256 =
        some (codes "c9cf7c3f11c4d3d818801b5a965cea3bae6ff3b9b923242b91a9b4e5888e7835");
    implementation_address = some (codes "0x18b2bf98579267d4b108c5d82f816710a17efbb6");
    proxy_implementation_slot =
        some (codes "0x7050c9e0f4ca769c69bd3a8ef740bc37934f8e2c036e5a723fd8ee048ed3f8c3");
    implementation_code_sha256 =
        some (codes "a0c17ab2e0a8e1e606fed223171bdf66dd58e8fa571b15e6af1bea4e640515d8");
    reviewed_on = (2026, 8, 13);
    version = "2026-08-13.1";
  });
  signing_enabled = false;
}

abbrev pub usdc_base_sepolia : RailConfig
usdc_base_sepolia = record {
  key = "usdc-base-sepolia";
  label = "USDC on Base Sepolia";
  chain_id = pos 84532;
  token_address = codes "0x036CbD53842c5426634e7929541eC2318f3dCF7e";
  decimals = pos 6;
  token_name = some "USDC";
  token_version = some "2";
  finality = record { block_tag = codes "finalized"; minimum_confirmations = pos 1 };
  attestation = attestation (record {
    sources =
        "https://developers.circle.com/stablecoins/usdc-contract-addresses"
        ∷ "https://eips.ethereum.org/EIPS/eip-3009"
        ∷ "https://github.com/x402-foundation/x402/blob/cb0ec5bc/python/x402/mechanisms/evm/default_assets.py"
        ∷ "https://sepolia.base.org" ∷ [];
    network_class = "testnet";
    proxy_kind = "fiat-token-proxy";
    decimals = pos 6;
    domain_name = some "USDC";
    domain_version = some "2";
    calibrated = some true;
    reviewed_block_number = some (pos 47_801_036);
    reviewed_block_hash =
        some (codes "0x70b0837b92f7f71dc81194899b23c18ee6332c74464b8da42c359a9a4ba70266");
    expected_code_sha256 =
        some (codes "e878b99fc0c17354c86c7edeb999c70c18cfd925abb0958496f027cbad996d28");
    implementation_address = some (codes "0xd74cc5d436923b8ba2c179b4bca2841d8a52c5b5");
    proxy_implementation_slot =
        some (codes "0x7050c9e0f4ca769c69bd3a8ef740bc37934f8e2c036e5a723fd8ee048ed3f8c3");
    implementation_code_sha256 =
        some (codes "9e410c49b2c8f98e4924d5cab8f07e734625c650c940a7ed600b376f010eba77");
    reviewed_on = (2026, 10, 7);
    version = "2026-10-07.1";
  });
  signing_enabled = false;
}

abbrev pub usdt0_flare : RailConfig
usdt0_flare = record {
  key = "usdt0-flare";
  label = "USD₮0 on Flare";
  chain_id = pos 14;
  token_address = codes "0xe7cd86e13AC4309349F30B3435a9d337750fC82D";
  decimals = pos 6;
  token_name = some "USD₮0";
  token_version = some "1";
  finality = record { block_tag = codes "finalized"; minimum_confirmations = pos 1 };
  attestation = attestation (record {
    sources =
        "https://eips.ethereum.org/EIPS/eip-3009"
        ∷ "https://github.com/x402-foundation/x402/blob/main/DEFAULT_ASSETS.md"
        ∷ "https://flare-api.flare.network/ext/C/rpc" ∷ [];
    network_class = "mainnet";
    proxy_kind = "erc1967-proxy";
    decimals = pos 6;
    domain_name = some "USD₮0";
    domain_version = some "1";
    calibrated = some true;
    reviewed_block_number = some (pos 67_327_446);
    reviewed_block_hash =
        some (codes "0xeed7aaaa1f2998e09cd4e5a3da1c4226217a1ef84aa5fe877a29bd54aa6257cd");
    expected_code_sha256 =
        some (codes "e518057ee9772b6d5ad104f0c0cbae96d42e5543dcaaff3b39257089ab5fe699");
    implementation_address = some (codes "0x779ded0c9e1022225f8e0630b35a9b54be713736");
    proxy_implementation_slot =
        some (codes "0x360894a13ba1a3210667c828492db98dca3e2076cc3735a920a3ca505d382bbc");
    implementation_code_sha256 =
        some (codes "6ed7b35f916bd991124be4fbfccfaa693f61f7a74800eea445fa8727463d6f44");
    reviewed_on = (2026, 8, 13);
    version = "2026-08-13.1";
  });
  signing_enabled = false;
}
