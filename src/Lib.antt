-- ===== src/Lib.antt =====
-- A library about bridge-common, the Go packages that bridge relayers share: a client for the nodes of
-- each chain, wallets that send transactions, and counters, metrics and helpers.
--
-- The parts and how they meet. `chains/chain.go` polls the nodes of a chain, keeps the best one, and
-- hands out eligible ones; each package under `chains` wraps it in a type `SDK` over its own client,
-- and keeps one SDK for each set of options in the singleton store of `util/single.go`. A wallet of
-- `wallet` asks an SDK of `chains/eth` for prices, gas and nonces, signs, and submits. `base` has the
-- numbers of the chains, which the others read. `tools` counts, measures and reports, `metrics` serves the latest values, and
-- `log` sets the level of the log.
--
-- Which file models which code:
--   Prelude             lists, texts, machine words and keyed maps for the other files
--   Chains/Sdk          chains/chain.go: `ChainSDK` as a record, `updateSelection`, `Select`, `Init`,
--                       `NewChainSDK` and `WaitTillHeight` as functions from state to state; the
--                       goroutine `monitor` and the callers of `Select` as a step relation (Sdk/Life);
--                       the interface `Nodes` and what it promises (Sdk/View);
--                       the statements of several calls of `Select`, interleaved (Sdk/Race), and these
--                       with the lock and `updateSelection` (Sdk/Race/Locked)
--   Chains/Package      the `SDK` of chains/eth, ont, neo, harmony, starcoin, switcheo, bridge and poly:
--                       `NewSDK`, `WithOptions`, `Create`, `Key`, `Node`, `Select`, over a record of
--                       what differs
--   Chains/Shared       `WithOptions` of all eight packages over the one store of util/single.go, with
--                       the type assertions
--   Chains/Eth, Chains/Poly, Chains/Ont, Chains/Neo, Chains/Harmony, Chains/Starcoin,
--   Chains/Switcheo, Chains/Bridge           the clients of the packages of these names, with their
--                       functions that read replies, and their `SDK` made from Chains/Package
--   Chains/Starcoin/Event                    chains/starcoin/msg.go
--   Chains/Harmony/Header, Chains/Eth/Msg    chains/harmony/msg.go, chains/eth/msg.go
--   Metrics             metrics/router.go and metrics/metrics.go, where Metrics/Pipeline has the
--                       goroutines and the two channels between them as a step relation, and
--                       Pipeline/Resting the two loops between one call of `Record` and the next
--   Chains/Bridge/Requests, Chains/Bridge/Messages, Tools/Ding
--                       the HTTP requests of chains/bridge and tools/ding.go
--   Chains/Storage      the native contracts' storage that chains/poly and chains/ont read
--   Util                util/single.go, util/util.go
--   Tools/BlockCounter, Tools/TimedCounter   tools/counter.go; the statements of several calls of `Tick`,
--                       which its lock does not guard (BlockCounter/Race)
--   Tools/Metric, Tools/MetricWriter         tools/metric.go
--   Base                base/base.go, base/mainnet.go, base/testnet.go
--   Log                 log/log.go
--   Tools/Debug         tools/debug/pprof.go
--   Wallet/Gas          wallet/gas.go
--   Wallet/Accounts     wallet/wallet.go: `New`, `AddProvider`, `Init`, `VerifyChainId`, `Select`,
--                       `Account`, `GetAccount`
--   Wallet/Send         wallet/wallet.go `sendWithAccount`, wallet/eth.go `SendWithAccount`: each a
--                       chain of steps that may end the call, with a trace of what it does outside
--   Wallet/Upgraded     `Upgrade` of wallet/wallet.go: the wallet and its copy, which share their maps
--   Wallet/Nonce        wallet/nonce.go; sends one after another over a provider (Nonce/Sequence) and
--                       from a wallet with the providers that `Init` has put into it (Nonce/Rounds)
--   Wallet/KeyStore     wallet/keystore.go
--   Wallet/Signers      wallet/ont.go, wallet/poly.go
--   Wallet/Send/Rounds, Wallet/Neo           `Send` of wallet/wallet.go; wallet/neo.go
--
-- Conventions. A call that holds a lock is one step; in Sdk/Race and BlockCounter/Race each
-- statement is one. What a node, a clock, a ticker, or a signer answers is an argument or an event.
-- A panic is `none` or a constructor of its own. `uint64` and `uint32` arithmetic is written with
-- its wrap, a `big.Int` is an integer, and floating point is a parameter of which nothing is
-- assumed. A map is an association list; where the order in which Go visits one matters, that order
-- is an argument.
--
-- Bounds and fuel. `Select` has as many steps of fuel as there are nodes, since so many steps go
-- once round them. Its cursor is an `int`, here a natural number; Sdk/Race follows the runs in which it
-- stays below 2 ^ 63. `Retry`, `WaitTillHeight` and `poll` run on the list of the events that they
-- see, and return `none` where that list ends before they do. The channel of the metric writer
-- holds 1000 entries, and those of the metrics 1000 and 10, as in the source. The digits of a
-- number have one step of fuel more than the number. Every other function is structural.
--
-- Not modelled: chains/custom, a copy of the rpc package of go-ethereum; abi, generated bindings;
-- chains/client, which does not compile; base/devnet.go, which lacks constants that base/base.go uses;
-- wallet/key.go and wallet/privatekey.go, which are empty; `Fatal`, `Json` and `Verbose` of util/util.go,
-- which end the program or print; `GetBalance`, `GasPrice` and `GasTip` of wallet/wallet.go, which hand
-- on what the node answers.
pub mod Prelude
pub mod Chains
pub mod Util
pub mod Tools
pub mod Base
pub mod Wallet
pub mod Metrics
pub mod Log
