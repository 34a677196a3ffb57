-- ===== src/Template/Blocks.antt =====
-- The blocks that the pool found, as a light node settles them when a template comes: the end of
-- `ApplyRemoteTemplateJSON` of work/manager.go.
use p2pool_go_vtc.Prelude.{
  ℕ, ◌≡◌, ◌≢◌, Bool, true, false, ◌&&◌, ◌||◌, not, Option, none, some, if◌then◌else◌, arith,
}
use p2pool_go_vtc.Prelude.Int.{ℤ, pos, leb_ℤ, ltb_ℤ, ◌-ℤ◌}

pub data BlockState : Type 0 where
  state_pending state_mature state_paid state_orphan : BlockState

-- `PayoutBlock`
pub record PayoutBlock : Type 0 where
  pub block_hash : Option ℕ
  pub block_height : ℤ  -- int32
  pub state : BlockState
  pub confirmed : Bool

abbrev pub is_pending : PayoutBlock → Bool
is_pending pb = elim pb.state [
  | state_pending ↦ true
  | state_mature ↦ false
  | state_paid ↦ false
  | state_orphan ↦ false
]

-- Is the block so far below a template? A height is not negative, so the difference of an int64 and
-- an int32 does not wrap.
abbrev pub is_deep : ℕ → ℤ → PayoutBlock → Bool
is_deep n height pb = leb_ℤ (pos n) (height -ℤ pb.block_height)

-- A pending block as old as its depth and its confirmation say.
unfoldable pub settle_pending : ℤ → PayoutBlock → PayoutBlock
settle_pending height pb =
    if is_deep 100 height pb
    then record pb { state = if pb.confirmed then state_paid else state_orphan }
    else if not pb.confirmed && is_deep 6 height pb
    then record pb { state = state_orphan }
    else pb

-- One turn of the loop over `PendingBlocks`, at a template's height: is the block the template's parent
-- or one that a share builds on, and can peers be asked? The block, and whether they are to be asked.
unfoldable pub settle_block : ℤ → Bool → Bool → PayoutBlock → PayoutBlock × Bool
settle_block height found can_query pb = elim pb.block_hash [
  | none ↦ (pb, false)
  | some h ↦
      let seen = record pb { confirmed = pb.confirmed || found } in
      if is_pending seen && not seen.confirmed && is_deep 1 height seen && can_query
      then (seen, true)
      else if is_pending seen
      then (settle_pending height seen, false)
      else (seen, false)
]

-- Do the peers count confirmations?
abbrev pub has_confirmations : Option ℤ → Bool
has_confirmations answer = elim answer [ none ↦ false | some n ↦ ltb_ℤ (pos 0) n ]

-- One turn of the loop when the peers' answers are in: the confirmations of the block, if it was asked
-- for.
unfoldable pub settle_queried : ℤ → Option ℤ → PayoutBlock → PayoutBlock
settle_queried height answer pb = elim pb.block_hash [
  | none ↦ pb
  | some h ↦
      if is_pending pb
      then (settle_pending height
          (record pb { confirmed = pb.confirmed || has_confirmations answer }))
      else pb
]

-- What may become of a block at a height, when the template or a share stands on it or not, and with
-- the peers' answer.
pub record Settles (height : ℤ) (found : Bool) (answer : Option ℤ) (pb pb' : PayoutBlock)
    : Type 0 where
  pub same : (pb'.block_hash ≡ pb.block_hash) × (pb'.block_height ≡ pb.block_height)
  pub final : is_pending pb ≡ false → pb'.state ≡ pb.state
  pub confirmed : pb.confirmed ≡ true → pb'.confirmed ≡ true
  pub seen :
      pb.confirmed ≡ false
      → pb'.confirmed ≡ true
      → (found || (is_pending pb && has_confirmations answer)) ≡ true
  pub paid :
      is_pending pb ≡ true
      → pb'.state ≡ state_paid
      → (pb'.confirmed ≡ true) × (is_deep 100 height pb ≡ true)
  pub orphan :
      is_pending pb ≡ true
      → pb'.state ≡ state_orphan
      → (pb'.confirmed ≡ false) × (is_deep 6 height pb ≡ true)
  pub mature : is_pending pb ≡ true → pb'.state ≢ state_mature
  pub open' : is_pending pb' ≡ true → pb.block_hash ≢ none → is_deep 100 height pb ≡ false

-- Both loops over a block, at one height.
unfoldable pub settle : ℤ → Bool → Bool → Option ℤ → PayoutBlock → PayoutBlock
settle height found can_query answer pb =
    settle_queried height answer (settle_block height found can_query pb).0

-- At one template's height, both loops together: a block keeps its hash and its height, and the state
-- of one that is not pending does not change. A confirmation is never taken back, and a block becomes
-- confirmed only where the template or a share stands on it, or where it is pending and the peers
-- answer with a positive number of confirmations. A pending block becomes paid only where it is
-- confirmed and 100 blocks deep, is given up only where it is not confirmed and six blocks deep, and
-- never becomes mature; one with a hash stays pending only where it is less than 100 blocks deep.
pub settle-Settles :
    (height : ℤ) (found can_query : Bool) (answer : Option ℤ) (pb : PayoutBlock)
    → Settles height found answer pb (settle height found can_query answer pb)
unfolding settle settle_block settle_queried settle_pending
settle-Settles height found can_query answer pb = record {
  same = (ground arith, ground arith);
  final = λ e. ground (arith, e);
  confirmed = λ e. ground (arith, e);
  seen = λ e f. ground (arith, e, f);
  paid = λ e f. (ground (arith, e, f), ground (arith, e, f));
  orphan = λ e f. (ground (arith, e, f), ground (arith, e, f));
  mature = λ e f. ground (arith, e, f);
  open' = λ e f. ground (arith, e, f);
}
