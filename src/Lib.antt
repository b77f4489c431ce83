-- ===== src/Lib.antt =====
-- DeckxCoin: the consensus core of chain/src, the pool and the persistent chain of a node (chain/src/node,
-- chain/src/store), and the payment channels of chain/src/volt.
--
-- The program. A block carries transactions; `Blockchain.addBlock` (chain/src/chain.ts) checks its header
-- (chain/src/block.ts, with the transaction tree of chain/src/merkle.ts), runs `applyTx` on each
-- transaction over the world state (chain/src/state.ts), and on the coinbase last, and keeps the block if
-- the state root agrees. `applyTx` resolves the inputs, calls `checkTx` (chain/src/tx.ts), tests the time
-- locks, runs the contract of a deploy or a call on the machine (chain/src/vm.ts), and moves the coins.
-- A node keeps its blocks and an undo record of each in a store (chain/src/store/sqlite.ts); its
-- `ChainState` (chain/src/node/chainstate.ts) extends the tip, or leaves it for a branch with more work,
-- through the same `applyTx`. Its `Mempool` (chain/src/node/mempool.ts) admits what applies to the tip,
-- and offers it for a block. A channel (chain/src/volt/channel.ts) lives on one output of two keys; its
-- commitments are transactions of the chain, and its secrets (chain/src/volt/secrets.ts) make the old
-- ones punishable.
--
-- Files. A file models the part of the program that its first line names, and the files in its folder
-- hold its parts or the proofs about it.
--   Prelude       numbers, doubles, lists, JavaScript's `===`, and `Map` as a list of pairs in insertion
--                 order
--   Block         Subsidy (`blockSubsidy`, `cumulativeIssuance`, `terminalHeight`), Target
--                 (`bitsToTarget`, `targetToBits`, `nextBits`, `blockWork`), Header (`checkHeader`),
--                 Mine (`mine`)
--   Merkle        `merkleRoot`, `merkleProof`, `verifyMerkleProof`, over any type of node
--   Vm            Words (wrap-around, `modPow`), Opcodes (the table, `scanJumpdests`), Exec (the machine
--                 and its monad), Step (one opcode), Run (`execute`); Ensures proves the invariant
--   Tx            the data; Check (`checkTx`), Build (`transferTx`, `signInput`, `cosignInput`), Serialize
--                 (`serializeTx`)
--   State         `WorldState`
--   Chain         Attempt (the results), Contract and Apply (`applyTx`), Blockchain (`addBlock`, `create`,
--                 `auditSupply`)
--   Node          Store (`ChainStore`, its tables as maps), Mempool (`add`, `remove`, `revalidate`, and
--                 `forBlock` in Template), Draft and ChainState (`#connect` and `#disconnect`), with
--                 ChainState.Reorg (`#reorgTo`, `#restoreTo`), Accept (`acceptBlock`, `mineBlock`) and
--                 Locator (the locators of a peer)
--   Volt          Secrets (`SecretChain`), Channel (`VoltChannel`)
--   Tests         runs at concrete inputs
--
-- State and errors. A method that changes its object takes it and returns it. `Checked` and `Attempt` are
-- the results of `checkTx` and `applyTx`: a value, a refusal with its reason, or an exception that leaves
-- the function. `applyTx` writes only after its last refusal, so a refusal carries no state. A channel
-- method throws with the channel as it then is (`Left`), because `pay` and its kin change the channel
-- before `commit` may throw. `Move`, `Reorg` and `Accepted` are the results of the persistent chain, each
-- with the chain as it then is; the store's transactions make `#connect` and `#disconnect` one step each.
-- The newest block is the head of the list of blocks of `Blockchain`.
--
-- Numbers are natural; a 256-bit word keeps its wrap-around. A text that the source reads with `BigInt` is
-- the integer in it, or `none` where `BigInt` throws. The constructor of a channel accepts a balance
-- below zero; the channels modelled are those opened with none, whose balances are natural numbers, and
-- a difference that only falls below zero in other channels is zero. A fee
-- rate is a double, written as a multiple of 2^-1074 and rounded as IEEE 754 says.
--
-- Fuel. `execute` has one round more than its gas limit, and every round costs gas or ends the run. The
-- loop of `merkleRoot` has the length of the level, which each round halves. `mine` has the number of
-- attempts of the source. In a reorganisation the walk back has one round for each height from the target
-- down, and the disconnecting one for each height from the tip down; both go down by a height in each
-- round. `visit` of `forBlock` counts down from 26, the calls that the source's test of the depth lets
-- through.
--
-- Parameters. The hash and curve functions of chain/src/crypto.ts, the digests over serialised
-- transactions and headers, the state root, the revocation keys, and the texts of UTF-8, JSON and hex are
-- fields of `Oracle`, `Hashes`, `Keys` and `Encoder`. A theorem that needs something of them has it as a
-- hypothesis.
--
-- Not modelled: the digests, the address codecs, the assembler, the state trie, `Blockchain.mineBlock`,
-- the fee estimator, `ChainState.open` and the tables of peers and of watchtower blobs in the store, and
-- the rest around the core (relay and peers, routing, towers, faucet, wallet, command lines, web client).
pub mod Prelude
pub mod Block
pub mod Vm
pub mod Tx
pub mod Merkle
pub mod State
pub mod Chain
pub mod Volt
pub mod Node
pub mod Tests
