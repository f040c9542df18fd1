-- ===== src/Base/Networks.antt =====
-- The constants of `base/mainnet.go` and `base/testnet.go`, one record for each build.
use bridge_common.Prelude.{ℕ, List, [], ◌∷◌}
use bridge_common.Prelude.Text.{Text, codes}

pub record Network : Type 0 where
  pub poly : ℕ
  pub btc : ℕ
  pub eth : ℕ
  pub ont : ℕ
  pub neo : ℕ
  pub switcheo : ℕ
  pub bsc : ℕ
  pub heco : ℕ
  pub plt : ℕ
  pub o3 : ℕ
  pub ok : ℕ
  pub neo3 : ℕ
  pub heimdall : ℕ
  pub matic : ℕ
  pub zilliqa : ℕ
  pub arbitrum : ℕ
  pub xdai : ℕ
  pub ava : ℕ
  pub fantom : ℕ
  pub optimism : ℕ
  pub metis : ℕ
  pub boba : ℕ
  pub oasis : ℕ
  pub rinkeby : ℕ
  pub pixie : ℕ
  pub harmony : ℕ
  pub hsc : ℕ
  pub bytom : ℕ
  pub kcc : ℕ
  pub bcs_palette : ℕ
  pub starcoin : ℕ
  pub env : Text
  pub chains : List ℕ
  pub eth_chains : List ℕ

-- The build tags.
pub data Build : Type 0 where
  main test : Build

abbrev pub mainnet : Network
mainnet = record {
  poly = 0;
  btc = 1;
  eth = 2;
  ont = 3;
  neo = 4;
  switcheo = 5;
  bsc = 6;
  heco = 7;
  plt = 8;
  o3 = 10;
  ok = 12;
  neo3 = 14;
  heimdall = 15;
  matic = 17;
  zilliqa = 18;
  arbitrum = 19;
  xdai = 20;
  ava = 21;
  fantom = 22;
  optimism = 23;
  metis = 24;
  boba = 25;
  oasis = 26;
  rinkeby = 1000000;
  pixie = 2000000;
  harmony = 2000001;
  hsc = 3000000;
  bytom = 7000001;
  kcc = 7000002;
  bcs_palette = 1001001;
  starcoin = 1001002;
  env = codes "mainnet";
  chains =
      0 ∷ 2 ∷ 6 ∷ 7 ∷ 12 ∷ 3 ∷ 4 ∷ 14 ∷ 15 ∷ 17 ∷ 5 ∷ 10 ∷ 8 ∷ 19 ∷ 20 ∷ 23 ∷ 22 ∷ 21 ∷ 24 ∷ 25
      ∷ 2000000 ∷ 26 ∷ 3000000 ∷ 2000001 ∷ 7000001 ∷ 1001001 ∷ 1001002 ∷ [];
  eth_chains =
      2 ∷ 6 ∷ 7 ∷ 12 ∷ 17 ∷ 10 ∷ 8 ∷ 19 ∷ 20 ∷ 23 ∷ 22 ∷ 21 ∷ 24 ∷ 25 ∷ 2000000 ∷ 26 ∷ 3000000
      ∷ 2000001 ∷ 2000001 ∷ 7000001 ∷ 1001001 ∷ 7000002 ∷ [];
}

abbrev pub testnet : Network
testnet = record {
  poly = 0;
  btc = 1;
  eth = 2;
  ont = 3;
  neo = 5;
  switcheo = 1000;
  bsc = 79;
  heco = 7;
  plt = 107;
  o3 = 82;
  ok = 200;
  neo3 = 88;
  heimdall = 201;
  matic = 202;
  zilliqa = 111;
  arbitrum = 205;
  xdai = 206;
  ava = 209;
  fantom = 208;
  optimism = 210;
  metis = 300;
  boba = 400;
  oasis = 500;
  rinkeby = 402;
  pixie = 316;
  harmony = 800;
  hsc = 603;
  bytom = 701;
  kcc = 900;
  bcs_palette = 1001;
  starcoin = 318;
  env = codes "testnet";
  chains =
      0 ∷ 2 ∷ 79 ∷ 7 ∷ 200 ∷ 3 ∷ 5 ∷ 88 ∷ 201 ∷ 202 ∷ 1000 ∷ 82 ∷ 107 ∷ 205 ∷ 206 ∷ 210 ∷ 208 ∷ 209
      ∷ 300 ∷ 402 ∷ 400 ∷ 316 ∷ 500 ∷ 603 ∷ 800 ∷ 701 ∷ 1001 ∷ 318 ∷ [];
  eth_chains =
      2 ∷ 79 ∷ 7 ∷ 200 ∷ 202 ∷ 82 ∷ 107 ∷ 205 ∷ 206 ∷ 210 ∷ 208 ∷ 209 ∷ 300 ∷ 402 ∷ 400 ∷ 316 ∷ 500
      ∷ 603 ∷ 800 ∷ 800 ∷ 701 ∷ 1001 ∷ 900 ∷ [];
}

abbrev pub network : Build → Network
network main = mainnet
network test = testnet
