-- ===== src/Lib.antt =====
-- A model of monadbft-go, a Go implementation of the MonadBFT consensus protocol, and its theorems.
--
-- Parts. A validator runs one consensus state. Proposals enter its block tree, which links blocks by
-- the certificates they carry and, at a commit, prunes itself to a new root. Before each signature the
-- safety state is asked; its watermarks only move forward and survive restarts through a snapshot.
-- The pacemaker moves from round to round on certificates and signs a timeout through the safety
-- state. The validator set turns lists of signers into stake and decides when a certificate stands.
--
-- Files. Types (types/types.go): identifiers, epochs of sequence numbers, sums. Cstypes
-- (cstypes/): Certs holds certificates, tips, timeouts and blocks as records, Rank the order in which
-- timeouts prefer what to extend. Consensus.Safety (consensus/safety.go): the record `Safety` and one
-- function per method, where a panic is `none`; Watermarks, History, Proposals and Restart prove its
-- properties, the last with the merge at a restart (monadstate/state.go). Consensus.VoteState
-- (consensus/vote_state.go) and Consensus.NeState (consensus/ne_state.go): votes and refusals to endorse by
-- round, and the certificates that they form; the loop over invalid signatures that both share is
-- Consensus.Tally. Sigcol (sigcol/sigcol.go): New and Verify of signature collections. Crypto.Domain
-- (crypto/domain.go): the prefixes of what is signed. Validator.ValidatorSet and Validator.Mapping
-- (validator/validator.go): creation, sums of stake, thresholds, positions, keys. Validator.EpochManager and
-- Validator.EpochMapping (validator/epoch.go, validator/epochmap.go): epoch starts and the validators
-- of an epoch. Consensus.Pacemaker (consensus/pacemaker.go): rounds and local timeouts over the safety
-- state, and in its child Remote the timeouts of others, whose certificate Cstypes.NewTimeout makes
-- (cstypes/timeout.go). BlockTree (blocktree/blocktree.go): the tree as an association list, Walk the paths to the
-- root, Commit the pruning, Wiring the lists of children and the index of bodies, Queries what is read of
-- it. Rlp (rlp/rlp.go): the encoder and the stream
-- decoder on lists of bytes. Consensusstate.Timestamp (consensusstate/timestamp.go): the clock that
-- proposals are checked against. Consensusstate.State, Voting, Leaders and Requests
-- (consensusstate/state.go, consensusstate/command.go): the state that the handlers share, its commands,
-- voting with its timer, the leaders to come, requests for missing blocks and the round's timer.
-- Consensusstate.VoteDelay (consensusstate/vote_delay.go): the window of vote delays.
-- Cstypes.Codec (types/types.go, cstypes/vote.go, cstypes/noendorse.go, cstypes/timeout.go): what votes,
-- refusals to endorse and timeouts sign, as bytes, and its decoders; Sigcol.Codec (sigcol/sigcol.go) the same
-- for maps of signers. Base holds lists, tables, sorting and
-- `Outcome`, which is Go's (value, error) pair or a panic.
--
-- Numbers. Rounds, epochs, sequence numbers are native natural numbers, with 64-bit wrap-around
-- written out where the code adds; stakes wrap at 2 ^ 256. Node ids, hashes and signatures are numbers:
-- their bytes read big-endian, which keeps the order of the code's comparisons.
--
-- Parameters. The hash that makes a block's id is a parameter `get_id` of the block tree; the chain
-- configuration's pace of votes is a function in the pacemaker's state and a parameter of voting, as is the
-- election of leaders. The pairing library behind crypto/bls.go is a record `Bls` of operations on numbers
-- that spell compressed points; `IsBls` states what is relied on: keys form a commutative monoid, sums of
-- signatures are points, the identity never verifies, and signatures that verify on one message verify as
-- a sum unless their keys cancel out. Go ranges over maps in no fixed order; the model takes the order of
-- insertion.
--
-- Fuel. Loops that follow parent links take one more than the round of the block where they start:
-- rounds fall along the links of a well-formed tree. The binary search takes one more than the length
-- of the list; the bytes of a length are at most eight. The loops over invalid signatures take one more
-- than the signers, since each round but the last drops one. The breadth-first search for a tip takes its
-- fuel as an argument.
--
-- Not modelled: the handlers of consensusstate that process messages and certificates, commit and
-- propose, block sync, the RLP methods of messages and certificates but for those of identifiers, votes,
-- refusals to endorse, the contents of timeouts and maps of signers, networking, disk, cryptography but for its domains,
-- counters of metrics, the simulator and the bridge.
mod Base
pub mod Types
pub mod Cstypes
pub mod Consensus
pub mod Validator
pub mod BlockTree
pub mod Rlp
pub mod Crypto
pub mod Sigcol
pub mod Consensusstate
