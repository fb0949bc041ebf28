-- ===== src/Sdk/Instances/Naming.antt =====
-- The names that the modules of the SDK and of ibc-go have.
use veranatest.Prelude.{ascii}
use veranatest.Sdk.Modules.{Names}

abbrev pub sdk_names : Names
sdk_names = record {
  runtime = ascii "runtime";
  auth = ascii "auth";
  vesting = ascii "vesting";
  bank = ascii "bank";
  staking = ascii "staking";
  slashing = ascii "slashing";
  genutil = ascii "genutil";
  authz = ascii "authz";
  upgrade = ascii "upgrade";
  distr = ascii "distribution";
  evidence = ascii "evidence";
  mint = ascii "mint";
  group = ascii "group";
  nft = ascii "nft";
  feegrant = ascii "feegrant";
  gov = ascii "gov";
  consensus = ascii "consensus";
  circuit = ascii "circuit";
  params = ascii "params";
  epochs = ascii "epochs";
  protocolpool = ascii "protocolpool";
  ibc = ascii "ibc";
  ibc_transfer = ascii "transfer";
  ica = ascii "interchainaccounts";
  fee_collector_name = ascii "fee_collector";
  bonded_pool_name = ascii "bonded_tokens_pool";
  not_bonded_pool_name = ascii "not_bonded_tokens_pool";
  protocol_pool_escrow_account = ascii "protocolpool_escrow";
  minter = ascii "minter";
  burner = ascii "burner";
}
