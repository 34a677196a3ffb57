-- ===== src/Consensus/AddShares.antt =====
-- `AddSharesOutcomes` of work/sharechain.go as a whole, with nothing beside it.
use p2pool_go_vtc.Prelude.{ℕ, Bool, true, false, Option, none, some, List, [], ◌∷◌, map, ◌>>=◌}
use p2pool_go_vtc.Prelude.Int.{ℤ}
use p2pool_go_vtc.Prelude.Bytes.{Bytes}
use p2pool_go_vtc.Prelude.Eq.{nat_Eq}
use p2pool_go_vtc.Env.{Float64, Codec, Wire, HeaderHash}
use p2pool_go_vtc.Share.{Share}
use p2pool_go_vtc.Chain.{ShareChain}
use p2pool_go_vtc.Chain.Index.{is_verified}
use p2pool_go_vtc.Chain.Sync.{in_set}
use p2pool_go_vtc.Chain.Work.{add_work}
use p2pool_go_vtc.Consensus.{Outcome, invalid, accepted, receive, verify_pending}

module _ (fl : Float64) (codec : Codec) (testnet : Bool) (compact_to_big : ℕ → ℤ)
    (sha256 : Bytes → Bytes) (wire : Wire) where
  open fl use {F}

  -- What is known of each share: its outcome, and its hash if it was added.
  abbrev pub Result : Type 0
  Result = Outcome fl codec testnet compact_to_big sha256 wire × Option ℕ

  module _ (hashes : HeaderHash) where
    -- The results, `workHashes` and the chain.
    abbrev pub Received : Type 0
    Received = List Result × List ℕ × ShareChain F

    -- The result of one share in front of those of the others.
    unfoldable pub note_result : Result → Received → Received
    note_result (o, none) rest = ((o, none) ∷ rest.0, rest.1, rest.2)
    note_result (o, some h) rest = ((o, some h) ∷ rest.0, h ∷ rest.1, rest.2)

    -- The first loop.
    unfoldable pub receive_all : ℤ → ℤ → List (Share F) → ShareChain F → Received
    receive_all now now_ns [] sc = ([], [], sc)
    receive_all now now_ns (s ∷ ss) sc =
        let r = receive fl codec testnet compact_to_big sha256 wire hashes now now_ns s sc in
        note_result (r.0, r.1) (receive_all now now_ns ss (r.2))

    -- One turn of the last loop.
    unfoldable pub outcome_of :
        List ℕ → ShareChain F → Result → Outcome fl codec testnet compact_to_big sha256 wire
    outcome_of rejected sc (o, none) = o
    outcome_of rejected sc (o, some h) = elim (in_set h rejected) [
      | true ↦ invalid
      | false ↦ elim (is_verified sc h) [ true ↦ accepted | false ↦ o ]
    ]

    -- `AddSharesOutcomes`: the outcomes, how many shares were verified, and the chain.
    unfoldable pub add_shares_outcomes :
        ℤ
        → ℤ
        → List (Share F)
        → ShareChain F
        → Option (List (Outcome fl codec testnet compact_to_big sha256 wire) × ℕ × ShareChain F)
    add_shares_outcomes now now_ns new sc =
        let r = receive_all now now_ns new sc in
        add_work fl (r.1) (r.2) >>= λ sc1.
        verify_pending fl codec testnet compact_to_big sha256 wire sc1 >>= λ p.
        some (map (λ o. outcome_of (p.1) (p.0) o) (r.0), p.2, p.0)
