-- ===== src/Lib.antt =====
-- p2pool-go-VTC: the share chain, the payouts and the peers of a decentralized Vertcoin mining pool.
--
-- Miners find shares: block headers whose proof of work meets a target below the network's. Each share
-- names its parent, and every node holds the tree of shares that it knows. The coinbase of a share
-- must pay the owners of the recent shares on its chain (PPLNS, pay per last N shares), so that
-- whichever share is a block pays all. Nodes gossip shares, ask each other for missing ones and
-- disconnect peers that send bad ones.
--
-- The files, and the code that each is about:
--   Merkle: the merkle branches and roots of work/util.go, work/transaction.go and util/util.go
--     (`CalculateMerkleLink`, `CalculateMerkleLinkFromHashes`, `calculateMerkleRootFromHashes`,
--     `ComputeMerkleRootFromLink`, `CalculateWitnessCommitment`);
--   Script, Address: `ScriptBuilder` and the address functions of work/coinbase.go;
--   Share: the share of work/share.go, with its difficulties (work/util.go); Share/Metadata is the
--     commitment of work/coinbase.go, Share/Check are the share's own checks (`IsValid`,
--     `CheckShareTime`, `FullBlockHeader`, `CalculateHashes`), Share/Owner is `DecodeShareAddress`;
--   Chain: `ShareChain` of work/sharechain.go and its reads along one chain; Chain/Window are
--     `GetSharesForPayout` and `hasCompletePPLNSWindow`; Chain/Index is the children index and the
--     cumulative work (`updateWorkLocked`, `unlinkShareLocked`), Chain/Work the tip (`selectTipLocked`,
--     `considerTipLocked`) and the operations that keep them together, Chain/Work/Prune
--     `pruneLocked`, Chain/Work/Whole what they keep; Chain/Sync is what a node asks
--     for and replies (`GetMissingParentHashes`, `GetStopHashes`, `GetSharesByHashWithParents`);
--   Consensus: how a share is stored and verified (`AddSharesOutcomes`, `verifyPending`,
--     `checkConsensus`);
--   Store: the database of work/sharestore.go: `Commit`, `load`, and `loadTrusted` of work/sharechain.go;
--   Template: the templates that peers send to a light node (`ApplyRemoteTemplateJSON` of
--     work/manager.go): Template/Headers checks the previous block (`verifyHeader80`,
--     `verifyTemplatePrevHeader`), Template/Apply counts the votes and takes over a template (whole in
--     Template/Light),
--     Template/Blocks settles the pool's own blocks when one comes;
--   Payout: `CalculatePPLNSOutputsAtTip` of work/coinbase.go; Payout/Verify are the outputs that
--     `buildCoinbaseMsgTxAtTip` makes and `VerifyShareCoinbase`;
--   Peer: Peer/Score is p2p/score.go, Peer/Download is `shareDownloader.step` of p2p/download.go;
--   Env: what the source uses of other code, as parameters: float64 with no laws but those that a
--     theorem names, the codecs of btcutil, the transactions of btcd's wire, the header hashes. SHA-256
--     is a function argument;
--   Prelude: shared lists, integers, strings and maps; Sample: data for the tests in the Tests files.
--
-- A hash is the number that its hex digits write, a Go map is an association list whose order stands
-- for the order of `range`, a nil pointer or an error is `none`. int64 sums wrap (`add64`), int32
-- conversions too; a big.Int is a number or a ℤ. Locks are left out: a function here is what runs under
-- one lock, and Store/Commits has the steps that fall between the parts of a commit. A pass of `verifyPending` is taken
-- with nothing between its turns, where the source lets the mutex go. Caches in a share are fields of the model; Chain/Caches is about the reads that fill
-- them.
--
-- Loops run on fuel where the source bounds them by a count or a set of visited shares: a walk down the
-- chain has one step for each share held and one more, which is `maxSteps` in the source, and the
-- merkle loops have as many steps as there are hashes, since each level is shorter than the one before.
-- The queues of `updateWorkLocked` have a step for each share given, or found, and each entry of the
-- children index.
-- The walk to a missing parent has two steps more than there are shares; the source stops it earlier.
--
-- In Template, a Verthash is at hand, a message is a `BlockTemplate` (its JSON is read elsewhere), and
-- the time of a call is one argument, where the source reads the clock more than once. The function
-- `verify` of Template/Apply is `verifyTemplatePrevHeader` in Template/Light, where the two are one. Writes of
-- the list of blocks and the message on `NewBlockChan` are left out.
--
-- Not modelled: the pruning of unverified shares, the statistics, the wire format of the coinbase transaction, block templates
-- but for those that peers send, the stratum server, RPC, the dashboard, the libp2p node (all I/O
-- around the modelled parts, or not reached yet), and the copies of SHA-256 and Verthash that the
-- repository holds.
pub mod Prelude
pub mod Env
pub mod Merkle
pub mod Script
pub mod Address
pub mod Share
pub mod Chain
pub mod Payout
pub mod Peer
pub mod Consensus
pub mod Store
pub mod Template
pub mod Sample
