-- ===== src/Peer.antt =====
-- The peers' part in the share chain: p2p/score.go and p2p/download.go. A `peer.ID` is its bytes.
pub mod Score
pub mod Download
mod Tests
