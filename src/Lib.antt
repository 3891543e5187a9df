-- ===== src/Lib.antt =====
-- The Tendermint protocol by which the validators of Albatross agree on macro blocks; its
-- accounts, the staking contract with its coins, slots and block schedule, basic accounts, vesting
-- and hashed time-locked contracts, and what a block does to all of them; and the segment tree of
-- its collections.
--
-- The validators exchange proposals, prevotes and precommits in rounds, each as a state machine
-- that waits for its network; what every run of one machine keeps, and when two machines agree, is
-- under Results.
--
-- Coins move between a staker, the validators and the contract in several steps that live in
-- different crates, and every step has a reversal for when a block is reverted. This development
-- models the accounts as the program writes them: which step keeps the books of the contract, and
-- which reversal restores its state, is under Results.
--
-- Parts, with paths from the root of the repository:
--   Base        names of the libraries, Boolean tests on numbers, case splits, lists.
--   Collections maps and sets of the standard library: association lists in the order of the keys,
--               with their laws (Order), sums over the entries (Sum) and what holds of all (Entries);
--               collections/src/segment_tree.rs (SegmentTree), with building it (Build), and what it
--               finds (Lookup) against a list (Reference).
--   Primitives  primitives/src/coin.rs (Coin), primitives/src/policy.rs (Policy),
--               primitives/src/slot.rs (Slot), machine words (Word), doubles (Float).
--   Tendermint/ tendermint/src:
--     Utils, Deps        utils.rs and state.rs, outside_deps.rs and tendermint.rs: the state, the steps,
--                        the trait of the surroundings.
--     Network, Protocol  network.rs and protocol.rs: one function per method.
--     Stream             stream.rs: new, next, start, run, and expect_block.
--     Trace, Sim, Recorded   the surroundings with a record of what they were asked, and without.
--     Rules              which votes are allowed, and which order, told by the record alone.
--     Votes, Justify, Turns, Start, Safety   the invariant of a run: its votes and their reasons.
--     Items, Order, Rounds, Liveness  the items returned, rounds and steps, the rounds that decide.
--     Casts, Agreement, Consensus  quorums of votes, and agreement between the validators.
--   Account     primitives/account/src/lib.rs: errors (Outcome), balances (Balance);
--               basic_account.rs (Basic), vesting_contract.rs (Vesting),
--               htlc_contract.rs (Htlc) with its verifier in primitives/transaction/src/account
--               (Htlc/Verifier), and the dispatch over the kinds of accounts (Dispatch).
--   Accounts    accounts/src/accounts.rs: a block on the accounts of all addresses, step by step
--               (Ledger) and as a whole (Block), over a store (Tree).
--   Account/Staking  primitives/account/src/staking_contract:
--     State, Contract    mod.rs: the state, looking up, taking out and putting back a validator.
--     Entry              validator.rs: Validator::add_stake, sub_stake, ValidatorEntry.
--     Staker, Lifecycle  actions/staker.rs and actions/validator.rs: every method and its reversal.
--     Wire               what is read from byte strings: structs.rs of the crate transaction, receipts.
--     Transactions       actions/mod.rs: transactions to the contract (Incoming) and from it (Outgoing):
--                        check, commit and revert.
--     Inherents          actions/mod.rs: slashing, its reversal, the end of a batch or an epoch.
--     Results, Invariant, Conservation  what the operations return, what they keep, what they move.
--     Sorted             the sorted set of active validators against their map.
--     Reversal           operations followed by their reversals.
--
-- A block commits its transactions and inherents to the accounts by Accounts, which finds each
-- account in the store, passes the call on by Dispatch, and puts it back. A transaction of the
-- staking contract is checked and committed by Transactions, which calls the methods of Staker and
-- Lifecycle; these take a validator out of the state by Contract, change it by Entry, and put it
-- back.
--
-- A poll of the stream of Tendermint runs one method at the checkpoint of the state and stores the
-- state; the surroundings are a record of functions on a state of their own, which answer as they
-- please, errors included, so that delays and faults of the network are choices of theirs.
-- expect_block n is the items of the first n polls, for every n: no bound on the rounds is
-- assumed. Hashes of proposals are numbers. What the surroundings promise is a hypothesis where a
-- theorem needs it: the same proposal has the same hash (same_hash), a call comes after the state
-- of its round (CallsLater), a round is supported (Supported), answers are backed by signed
-- votes (Sound), and fewer than a third of the slots are faulty (LessThanThird).
--
-- A method of an account is a function from the contract to an outcome and the contract after it;
-- the outcome is a value, an error or a panic, and what was written before an error stays written,
-- as in the code. The two containers of active validators are both kept; a validator that the code
-- shares between them is the same value in both. Integers of 16, 32 and 64 bits wrap where the
-- code uses the plain operators. Addresses and keys are numbers; only their order and equality
-- matter here.
--
-- Byte strings, their decoders and the codecs of receipts are the parameters Wire, Decoders and
-- Codecs; of a codec the round trip is assumed, of a decoder, a hash function or a signature
-- nothing. The store of the accounts is a database tree; of it the laws of get and put_batch are
-- assumed. Signatures are checked before an account sees a transaction; this is modelled for
-- hashed time-locked contracts only. Selecting validators, the random functions, floating-point
-- supply, the tree of the accounts with its hashes, and every encoding but that of slots are left
-- out, and so is the rest of the node.
--
-- The cap of a hashed time-locked contract is computed in doubles: Float rounds as they do. Its
-- fuel of 128 doublings is more than the 60 that a quotient of two u8 or a product with it can
-- need.
--
-- Loops are structural over the lists, maps and trees they iterate. The fuel of build_tree is the
-- number of entries: each half has fewer of them. Debug assertions are an argument of
-- new_segment_tree, whose result none is a panic.
pub mod Base
pub mod Collections
pub mod Primitives
pub mod Account
pub mod Tendermint
pub mod Accounts
