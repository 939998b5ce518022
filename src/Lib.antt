-- ===== src/Lib.antt =====
-- Verification of the Cerulea chain: the logic of its pallets, as functions and theorems.
--
-- The program is a chain whose validators stake funds (cerulea-pallets/pallet-cerulea-pos), vote on
-- checkpoint blocks until the weight of the votes reaches a threshold, and join and leave the
-- validator set (cerulea-pallets/pallet-cerulea-dvf). The node spreads votes on the network and
-- keeps them in a pool (cerulea-node/src/cerulea-consensus/src/dvf_gossip.rs), from which it builds
-- justifications that it sends to the finality pallet. The finality pallet
-- implements the handler that the staking pallet calls on stake changes, rewards, slashes and
-- ejections, and reads and writes the staking pallet's stake records itself when validators join and
-- leave. The coordination pallet (cerulea-pallets/pallet-cerulea-dcf) bounds trust scores, draws the
-- block authors of an epoch, limits how often calls are made, and lets accounts submit, vote on and
-- execute proposals that slash, reward, add and eject validators; in the private chain mode the
-- validators come from an allowlist. It reads and writes the validator set through the registry of the
-- finality pallet. The inference pallet (cerulea-pallets/pallet-cerulea-poi) takes the results that
-- validators submit and the challenges of others, and its off-chain worker computes scores from them.
-- A small pallet keeps todo items (cerulea-pallets/pallet-todo).
--
-- The files:
--   Common      shared names, Boolean tests, lists, maps and the machine integers of Rust
--   Frame       dispatch errors, calls as state passing with errors, origins, the currency
--   Pos         pallet-cerulea-pos/src/lib.rs. State: storage, constants, events, the handler trait.
--               Registry: registration, scores, slashing counts, bonds. Stake: calls that reserve
--               and unreserve. Rewards: rewards and slashes with the totals of an epoch.
--               Distribute: the three reward pools.
--   Dvf         pallet-cerulea-dvf/src/lib.rs. State: storage of the finality part. Finality: votes,
--               justifications, finalization, finality info. Weights: freeze_epoch_weights.
--               Registry: the validator registry, its calls and hooks.
--   Justify     cerulea-node/src/cerulea-consensus/src/justification_builder.rs: justifications from
--               the votes of the pool. OnChain and Aggregate: vote_aggregator.rs beside it, which
--               chooses the block and sends the justification to the pallet.
--   Gossip      cerulea-node/src/cerulea-consensus/src/dvf_gossip.rs. Pool: the pool of votes, its
--               pruning and its size. Validate: the checks of incoming messages.
--   Dcf         pallet-cerulea-dcf/src/lib.rs. Trust: the bounds on trust scores and the integer
--               square root. Authors: the author sequence of an epoch. Limits: the rate limits.
--               State: storage of governance, beside the worlds of Pos and Dvf. Governance: the
--               calls on proposals, and the epoch hook that executes some of them. Private: pallet-cerulea-dcf/src/private_chain.rs.
--   Poi         pallet-cerulea-poi/src/lib.rs. State: storage, constants, events, the interfaces to the
--               other pallets. Calls: genesis, the calls and the handling of inferences. Offchain: the
--               off-chain worker and its storage. OnChain: the interface to Pos that
--               cerulea-runtime/src/configs/mod.rs sets.
--   Todo        pallet-todo/src/lib.rs: the four calls on todo items.
--
-- Functions have the names of the source. A call is a function from the storage to a result and the
-- new storage; an error keeps what was written before it, since rolling back is the framework's part.
-- Accounts, hashes and block numbers are numbers, storage maps are association lists in the order in
-- which they are iterated, and events are a log with the newest first. Saturating and checked
-- arithmetic takes the largest value of its type. Loops run over lists; the binary search of
-- integer_sqrt runs on fuel n, which is the length of the interval that it starts with, and each
-- round shortens the interval.
--
-- The currency behind T::Currency is a parameter (Frame.Currency) with its documented laws, and
-- Frame.Bank is one that satisfies them. The signature check and the multiplication of Perbill are
-- parameters of the finality part; the decoding of messages, their hash, the check of their
-- signature and the answers of the runtime are parameters of the gossip part. The hash function
-- blake2_256 of the host is a parameter of the author sequence and of the off-chain worker, whose
-- other parameters are the clock, the encoding of an account, and the interfaces through which
-- pallet-cerulea-poi calls the other pallets. The score of that pallet is a parameter of the proposals
-- that add a validator. The local storage of the off-chain worker is part of the state; that a host
-- refuses to read it in a call is not modelled.
--
-- Not modelled: weights of calls, genesis but that of pallet-cerulea-poi, reads for other components,
-- the rest of pallet-cerulea-dcf, the rest of the node's networking, import queue and services, the rest
-- of the runtime's wiring, and the web platform.
pub mod Common
pub mod Frame
pub mod Pos
pub mod Dvf
pub mod Gossip
pub mod Justify
pub mod Dcf
pub mod Poi
pub mod Todo
