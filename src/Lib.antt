-- ===== src/Lib.antt =====
-- dfinance relay layer: a blockchain node on the Cosmos SDK whose modules keep proof-of-authority
-- validators, run administrative calls by their votes, and match the orders of a decentralised
-- exchange.
--
-- Parts. x/poa keeps the validators. x/multisig stores calls (messages of other modules), collects
-- the validators' confirmations, and at the end of each block executes the calls that have enough
-- and rejects the old ones; app/app.go joins the two. x/ccstorage keeps the currencies, with a
-- copy of each in the virtual machine; x/currencies issues and withdraws their coins. x/vmauth
-- keeps the coins of accounts equal to their balances in the virtual machine. x/markets lists the
-- pairs of currencies that are traded. x/orders stores orders and locks their coins; x/orderbook,
-- at the end of each block, matches the orders of each market at one clearance price and hands the
-- fills back to x/orders. x/oracle collects prices and publishes their medians.
--
-- Files. Base.antt and its children hold lists, association lists and the outcome of a keeper's
-- method (a value, an error or a panic, with the state as it was left). Helpers/Eth.antt is
-- helpers/eth.go, and Helpers/Pages.antt the pagination of helpers/input_parsers.go. Poa/Types,
-- Keeper, Genesis and Messages are x/poa/internal/types, internal/keeper (counter.go, list.go,
-- validator.go), the two genesis.go and ms_handler.go; Poa/Invariant has the proofs.
-- Multisig/Types, Queue, Keeper, Votes, Calls, Handler and EndBlock are
-- x/multisig/internal/types/call.go, internal/keeper/queue.go, call.go, votes.go, handler.go and
-- abci.go; Multisig/Trace puts them together to histories, and Multisig/Invariant has the proofs,
-- where Turns and Decisions follow one call through the end of a block. The rest of the
-- application is a record of operations there (Multisig.Types.Interface), which Wiring.antt fills
-- with x/poa. Ccstorage/Types and Keeper are x/ccstorage/internal/types and internal/keeper
-- (currency.go, res_currency_info.go, genesis.go), and Mirror and Chain their proofs;
-- Ccstorage/Balances is res_balance.go of both, the balances of accounts in the virtual machine,
-- and Synced its proof; Vmauth/Keeper is x/vmauth/internal/keeper/keeper.go, the accounts over
-- them, and Reading its proof; Currencies/Types and Keeper are issue.go, withdraw.go and
-- invariants.go of x/currencies, and Supply their proofs; Markets/Types, Keeper and Genesis are
-- x/markets, and Listed its proofs. Orders/Types, Keeper and Genesis are x/orders/internal/types,
-- internal/keeper, handler.go, abci.go and the two genesis.go; Orders/Cases says how each method
-- can end, and Amounts, Solvency, Trace and Revoking have the proofs. Oracle/Types, Keeper and
-- Prices are x/oracle, and Median, Posting and Blocks its proofs. Orderbook/Sorter, Aggregates,
-- Curves, Clearance, Fills and Matcher are x/orderbook/internal/keeper: order_sorter.go,
-- order_aggs.go, pq_curves.go, matcher.go and matcher_pool.go; Orderbook/Pool is the loop that
-- fills the pool, and Orderbook/History the history and x/orderbook/abci.go, with Orderbook/Squash
-- for its proofs; Orderbook/Depth (the curves) and Orderbook/Volumes (the fills) have the proofs.
-- The Examples files hold concrete instances.
--
-- Correspondence. A Go name like getBidOrderFills is written get_bid_order_fills here. A store is
-- a record of association lists, one for each key prefix, in the order of the keys, which for
-- markets is that of the decimal texts of their ids; the queue of calls is a list in the order of
-- its keys. Addresses, denominations and texts that the code only compares are numbers in the
-- order of the texts, 0 being the empty one. uint16 counters keep their wrap-around. sdk.Uint is a
-- natural number, sdk.Dec a natural number of 10^-18 units; Mul, Quo, Ceil, RoundInt, TruncateInt
-- and NewDecFromIntWithPrec belong to the SDK and are parameters with their documented rounding as
-- laws (Sdk.antt), and so are the accounts of the bank (Sdk/Bank.antt) and the unstable sort.Slice
-- of Go. Loops over slices and iterators are structural recursion, so that no fuel is used.
--
-- The multi-signature router of Wiring.antt knows the one route of x/poa; the routes of
-- x/currencies are left out.
--
-- Not modelled: events, logging, gas, permissions, queries, the command line and REST clients, the
-- virtual machine, the module x/vm, the unstaking of x/currencies and the squashes of x/ccstorage
-- and x/vmauth at a restart. The bytes of a resource stand for its value. The reversal of an
-- oracle's price, the spelling of an asset code and the checks of a denom's characters are
-- parameters. An iterator of the end of a block reads the queue, or the orders, as they were when
-- the iterator was made.
pub mod Base
pub mod Helpers
pub mod Poa
pub mod Multisig
pub mod Wiring
pub mod Sdk
pub mod Ccstorage
pub mod Vmauth
pub mod Currencies
pub mod Markets
pub mod Oracle
pub mod Orders
pub mod Orderbook
