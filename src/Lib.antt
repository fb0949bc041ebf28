-- ===== src/Lib.antt =====
-- Verification of veranatest, a Cosmos SDK chain in Go: the whitelist of validators, the checks of
-- transactions, the group proposals that a block's end executes, and the trust deposit with its
-- yield.
--
-- The program's parts and their models:
-- * x/validatorregistry keeps the records of the validators that may join. Registry: Types holds the
--   data and the keeper, Handlers models keeper/msg_server_onboard_validator.go,
--   keeper/msg_update_params.go and IsValidatorWhitelisted of keeper/keeper.go, Genesis models
--   types/genesis.go and keeper/genesis.go, Queries models GetValidator, ListValidator and Params of
--   keeper/query_validator.go and keeper/query_params.go. The proofs are in Onboarding, Params,
--   Whitelist, Lookups, History, Genesis/Indices and Genesis/RoundTrip.
-- * x/validatorregistry/module/module.go executes group proposals at the end of each block.
--   AutoExecution: its functions have the names of the methods in snake case, with one function for
--   each loop. The proofs are in Steps and Selection.
-- * ante/ checks each transaction before it runs. Ante: the two decorators and NewAnteHandler, which
--   puts them in a chain with decorators of the SDK. They read the whitelist of the registry and the
--   proposals of x/group. The proofs are in Decorators and Acceptance.
-- * x/td pays the yield of the trust deposit at the start of each block. TrustDeposit: Types holds
--   the data, the keeper and its access to the dust (keeper/keeper.go), Funds models keeper/abci.go,
--   Handlers models keeper/msg_server_fund_module.go, keeper/msg_update_params.go and
--   keeper/genesis.go. The proofs are in Amounts, Settlement, Blocks, Conservation, Dust, Messages and
--   Updates.
-- * app/export.go exports the state of the chain, and resets it before for a start at height zero.
--   Export: export_app_state_and_validators and prep_for_zero_height_genesis, with one function for
--   each loop and callback. The proofs are in Rules, Resets, Validators, Panics and Results.
-- * x/validatorregistry/module/module.go and x/td/module/module.go also load, write and check the
--   modules' genesis as JSON, and module/depinject.go and NewKeeper (keeper/keeper.go) make the
--   keepers: Registry/Module and TrustDeposit/Module, with the proofs in Registry/Module/Passage.
--   Registry/Refinement compares the registry with a set of operators, and Ante/Admission follows the
--   whitelist from genesis to a transaction.
-- * app/app_config.go lists the modules, their configurations and the orders in which they run, and
--   app/app.go reads the accounts of modules from it and puts the app together, with app/ibc.go:
--   App/Config, App/Accounts and App/Startup. The proofs are in App/Blocked and App/Startup.
-- * cmd/veranatestd/cmd/commands.go makes the app for the server and for an export, and
--   cmd/veranatestd/cmd/root.go the root command: NodeCommand models newApp and appExport, which use
--   App/Startup and Export, NodeCommand/Root the commands and the modules of ibc-go. The proofs are in
--   NodeCommand/Exporting and NodeCommand/Modules. App/Routes models app/config.go and the routes of
--   the API.
-- * cmd/veranatestd/cmd/testnet.go turns the state of a chain into a test network with one validator:
--   Testnets/InPlace has its functions in snake case, with one function for each part of
--   initAppForTestnet. The proofs are in InPlace/Removal and InPlace/Funding.
-- * cmd/veranatestd/cmd/testnet_multi_node.go writes the files of a network of several nodes.
--   Testnets/MultiNode: Ports and Flags model the flags and the ports, Nodes the loop that makes each
--   node, Files the copying of the genesis transactions, Genesis initGenFiles and collectGenFiles,
--   Command initTestnetFiles as a whole. The proofs are in Distinct, Paths, Copies,
--   Gathering and Supply.
-- * app/genesis_account.go checks an account of a genesis state: GenesisAccounts.
-- * x/validatorregistry/types/validator.pb.go encodes and decodes records. Wire models its
--   variable-length integers: sovValidator, encodeVarintValidator and the reading loop; Wire/Records
--   models Size and Marshal of a Validator, Wire/Decoder models Unmarshal and skipValidator, with one
--   function for each case. The proofs are in Varints, Buffers, Fields and Marshal, and in
--   Decoder/Unmarshal and Decoder/RoundTrip with the modules that these use; Decoder/Unknown is about
--   the fields that the type does not have.
-- * x/validatorregistry/types/query.pb.gw.go and x/td/types/query.pb.gw.go answer HTTP requests by the
--   queries of the keepers, in the process or over a connection. Gateway: its handlers and what they
--   share, Gateway/Registry and Gateway/TrustDeposit: the request functions and the registration of
--   each module, the latter with keeper/query_params.go. The proofs are in Gateway/Responses.
--
-- Code that the repository only calls is a parameter, in Sdk: collections (Item, Map), the address
-- codecs, the keepers of x/group, x/bank, x/staking, x/distribution and x/slashing, LegacyDec, the
-- chain of ante handlers, the names of the SDK's modules and the JSON codec (Modules), the stores of a
-- test network (Testnet), the files, keys and genesis helpers of a machine (Nodes), and the runtime of
-- the gateways (HttpGateway). Each record
-- there states the documented behaviour that the proofs rely on; reads and writes may fail, and
-- operations on decimals may panic. Sdk/Instances has concrete values of these records, which the
-- tests use.
--
-- A Go call is a value of Outcome: a value, an error by its cause, or a panic. The texts of errors
-- and of log lines are left out. A handler is a function of Exec: it takes the state of its module
-- and returns the outcome beside the state, also when it fails. Go strings are lists of bytes, int64
-- and uint64 values are integers and numbers with the wrapping written out, an instant is a number.
-- Every loop of the code runs over a list or counts up to a number, but for those on variable-length
-- integers and those of Unmarshal. The first take at most ten rounds for a uint64: Wire gives them ten,
-- and the theorems show that these are enough. Each round of Unmarshal and of skipValidator reads a
-- byte at least, so that the length of the bytes and one are enough; running out counts as a panic. An
-- int has 64 bits. The decimal text of an int has at most twenty digits, which is the fuel of
-- Testnets/MultiNode/Ports. A path is the list of its elements.
--
-- Not modelled: the getters of App that return a field (app/app.go); the registration of services and
-- codecs (x/*/module); ProvideClientContext and the default configurations (cmd/veranatestd/cmd/root.go
-- and config.go); the encodings of the other messages (*.pb.go), which the same generator has written; gas,
-- and the roll-back of a failed transaction by the SDK. The decorators of ante/ look only at the
-- messages that stand themselves in a transaction, and the model has no others: a message that another
-- message carries, and a proposal that a vote or a submission tries to execute, are outside it.
pub mod Prelude
pub mod Sdk
pub mod Registry
pub mod AutoExecution
pub mod Ante
pub mod App
pub mod TrustDeposit
pub mod Export
pub mod GenesisAccounts
pub mod Wire
pub mod Gateway
pub mod NodeCommand
pub mod Testnets
