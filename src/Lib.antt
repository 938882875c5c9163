-- ===== src/Lib.antt =====
-- A verification library for crosschain, a Go library that builds, signs and reads transactions on
-- several chains behind one interface.
--
-- The program. asset.go names the assets and chains, asset.go and task.go hold their
-- configuration, factory/main.go picks for a configured asset the client, the transaction builder,
-- the signer and the address builder of its driver, and chain/<name>/ implements them. A transfer is
-- built from an input that the client fetched, hashed (Sighashes), signed (AddSignatures) and
-- submitted; an error of the submission is classified by CheckError.
--
-- The parts.
--   Prelude: the names that all share, lists over the native numbers, Go's pair of a value and an
--     error (Results), signed integers for big.Int and int64 (Int), strings as bytes (Text), words of
--     bytes (Bytes).
--   Asset: asset.go. `asset_type`, `chain_type` and `driver` are the methods AssetType, ChainType and
--     Driver; Asset/Id is parseAssetAndNativeAsset and GetAssetIDFromAsset; Asset/Config the records.
--   Bitcoin: chain/bitcoin. Params is params.go; Utxo is allocateMinUtxoSet of tx_input.go; Builder is
--     builder.go; CashAddr and Address are address.go; Tx, Signing, Sighash, Outputs and Detect are
--     tx.go; Sighash holds CalculateBchBip143Sighash of bitcoincash.go too. Failure lists the errors,
--     with `panic` among them.
--   Evm: chain/evm. Address is address.go and evm.go; Tx, Transfers and Fee are tx.go; Builder is
--     builder.go; Client is EstimateGas and FetchTxInput of client.go; Item, Number and Task are
--     chain/evm/task.go, with what it reads of task.go and asset.go. Evm itself holds the argument for
--     go-ethereum with its laws.
--   Sui: chain/sui. Sui itself and Tx are tx.go, Util is util.go, Builder, Budget and Shape are
--     builder.go. Run describes what the commands of a program do to the balances of coins, and
--     compares the program of a transfer with it.
--   Errors: the CheckError functions of chain/*/errors.go and of factory/main.go.
--   Aptos: chain/aptos. Builder is builder.go; Tx is tx.go.
--   Solana: chain/solana. Builder is builder.go; Tx is tx.go; Client and Balance are FetchTxInput,
--     FetchTxInfo and the balances of client.go; Laws says what is relied on of the library.
--   Factory: factory/main.go. Normalize and Drivers are the normalization of addresses and the switches
--     over drivers; Tasks is its allow lists and the lookup of tasks by the assets of a path, over
--     task.go; Assets is cfgFromAsset, cfgEnrichAssetConfig and PutAssetConfig, Contracts
--     cfgFromAssetByContract, Destinations cfgEnrichDestinations, and Lookup cfgFromTask,
--     cfgFromTaskByNameSrcDstAssetIDs and cfgFromMultiAsset.
--   Tests: runs on concrete values.
--
-- How state is modelled. A method on a pointer takes the record and returns it changed. AddSignatures
-- changes the transaction input by input and may stop in between, so it returns the transaction next to
-- the error. A transfer of an EVM chain writes the gas limit into the input that it is given, so the
-- builder returns that input too. The tasks of the factory are shared: a lookup returns their indices
-- next to the changed tasks. Its assets are pointers that the code writes through, so `Factory` holds
-- the memory of the assets as functions from addresses, and a registered item is an address; a panic is
-- `none`. The order in which sync.Map visits its entries is an argument. The loops of the source are
-- structural recursions on the slice that they range over, or on the number of their rounds: no model
-- needs fuel.
--
-- Integers. big.Int is `ℤ`; a conversion to int64 or uint64 wraps around modulo 2 ^ 64, as `int64`,
-- `uint64` and `unsigned` write out. len and int are not bounded, except where the source converts.
--
-- Arguments of the model. Packages outside the repository are arguments: `SliceSort` is sort.Slice with
-- what it promises, `Codec` and `Keys` are btcutil, base58 and bech32, `Scripts` is txscript's script
-- builder, `Hashing` is the hashing of txscript, wire and chainhash, `Eth` is go-ethereum, with its
-- accessors' laws in `EthLaws`, `Erc20` its events, `Node` the answers of a node, `Floats` the float64
-- arithmetic of the multiplier, `Decimals` is shopspring/decimal, `Crypto` is BCS and blake2b, `Sol` is
-- solana-go with its laws in `IsSol`, `Apt` is go-aptos, and `copied` is what the copier leaves, with
-- `IsCopier`. The tests give values for those that a property depends on.
--
-- Not modelled: clients (calls over a network, but for the prices of an EVM transfer and what is
-- read of a Solana node), the generated bindings and BCS code, the signers, the builder of Cosmos,
-- the loading of a configuration file, callbacks that change the factory themselves, logging, and
-- the text of errors. The array of coins that a Sui input shares with its caller is a value here,
-- and a slice of bytes has no capacity beyond its length. A string is taken as ASCII where the
-- source folds its case, trims it or ranges over its characters.
pub mod Prelude
pub mod Asset
pub mod Bitcoin
pub mod Aptos
pub mod Evm
pub mod Errors
pub mod Factory
pub mod Solana
pub mod Sui
pub mod Tests
