-- ===== src/Payout.antt =====
-- The coinbase's PPLNS outputs: `CalculatePPLNSOutputsAtTip` of work/coinbase.go. An address is its
-- bytes, compared as `sort.Strings` compares strings; weights are `big.Int`s that never go negative.
pub mod Sorting
pub mod Weights
pub mod Split
pub mod Conservation
pub mod Fairness
pub mod Verify
mod Tests
use p2pool_go_vtc.Prelude.{
  ℕ, zero, suc, ◌+◌, ◌*◌, ◌-◌, ◌/◌, Bool, true, false, ◌&&◌, ◌||◌, not, Option, none, some, List,
  [], ◌∷◌, map, length, ltb, leb, ◌==◌, if◌then◌else◌,
}
use p2pool_go_vtc.Prelude.Int.{ℤ, pos, negsuc}
use p2pool_go_vtc.Prelude.Bytes.{Bytes, bytes_lt}
use p2pool_go_vtc.Prelude.Eq.{bytes_Eq}
use p2pool_go_vtc.Prelude.Dict.{Dict, lookup, get_or, insert, keys}
use p2pool_go_vtc.Env.{Float64, Codec}
use p2pool_go_vtc.Share.{Share, no_target}
use p2pool_go_vtc.Share.Check.{share_has_standard_payout}
use p2pool_go_vtc.Share.Owner.{decode_share_address}
use p2pool_go_vtc.Chain.{ShareChain, default_pplns_window, get_effective_share_diff}
use p2pool_go_vtc.Chain.Window.{get_shares_for_payout}

pub record PayoutOutput : Type 0 where
  pub address : Bytes
  pub amount : ℕ  -- int64, here never negative

-- `sort.Strings`
insert_sorted : Bytes → List Bytes → List Bytes
insert_sorted a [] = a ∷ []
insert_sorted a (b ∷ bs) = if bytes_lt b a then b ∷ insert_sorted a bs else a ∷ b ∷ bs

pub sort_strings : List Bytes → List Bytes
unfolding insert_sorted
sort_strings [] = []
sort_strings (a ∷ as') = insert_sorted a (sort_strings as')

-- `m[addr] += n`, for the weights and the amounts.
abbrev pub add_to : Bytes → ℕ → Dict Bytes ℕ → Dict Bytes ℕ
add_to addr n m = insert addr (get_or 0 addr m + n) m

abbrev pub weight_of : Dict Bytes ℕ → Bytes → ℕ
weight_of weights addr = get_or 0 addr weights

-- The loop over the sorted addresses: the last takes what is left, each other its share, rounded
-- down. `distributable - allocated` is 0 here where the source has a negative int64; both fail the
-- test `rem > 0`.
pub allocate : Dict Bytes ℕ → ℕ → ℕ → ℕ → List Bytes → Dict Bytes ℕ → Dict Bytes ℕ
allocate weights total distributable allocated [] amounts = amounts
allocate weights total distributable allocated (a ∷ []) amounts =
    let rem = distributable - allocated in if ltb 0 rem then add_to a rem amounts else amounts
allocate weights total distributable allocated (a ∷ b ∷ rest) amounts =
    let amt = distributable * weight_of weights a / total in
    allocate weights total distributable (if ltb 0 amt then allocated + amt else allocated)
      (b ∷ rest) (if ltb 0 amt then add_to a amt amounts else amounts)

-- The outputs of the positive amounts, in the order given.
pub outputs_of : Dict Bytes ℕ → List Bytes → List PayoutOutput
outputs_of amounts [] = []
outputs_of amounts (a ∷ rest) =
    let outs = outputs_of amounts rest in
    if ltb 0 (get_or 0 a amounts)
    then record { address = a; amount = get_or 0 a amounts } ∷ outs
    else outs

-- From the weights to the outputs.
pub split_reward : ℕ → Bytes → Dict Bytes ℕ → ℕ → List PayoutOutput
split_reward reward default_addr weights total =
    let amounts =
      if ltb 0 total && ltb 0 (length weights)
      then allocate weights total reward 0 (sort_strings (keys weights)) []
      else insert default_addr reward [] in
    outputs_of amounts (sort_strings (keys amounts))

module _ (fl : Float64) where
  open fl use {F}

  anchor_or_tip : ShareChain F → Option ℕ → Option ℕ
  anchor_or_tip c none = c.tip_hash
  anchor_or_tip c (some h) = some h

  -- The shares to pay; there are none without a chain or a tip.
  pub paid_shares : (ℕ → ℤ) → Option (ShareChain F) → Option ℕ → List (Share F)
  unfolding anchor_or_tip
  paid_shares compact_to_big none anchor = []
  paid_shares compact_to_big (some c) anchor = elim (anchor_or_tip c anchor) [
    | none ↦ []
    | some tip ↦ get_shares_for_payout fl compact_to_big c (some tip) default_pplns_window
  ]

module _ (fl : Float64) (codec : Codec) (testnet : Bool) where
  open fl use {F, flt, fle, fmul, lit, to_int64}

  -- `int64(creditedDiff * 1000000.0)`, and at least 1.
  pub weight : F → ℕ
  weight credit = elim (to_int64 (fmul credit (lit 1000000 1))) [
    | negsuc n ↦ 1
    | pos n ↦ if n == 0 then 1 else n
  ]

  -- The loop over the selected shares.
  pub add_weights : List (Share F) → Dict Bytes ℕ × ℕ → Dict Bytes ℕ × ℕ
  unfolding weight
  add_weights [] acc = acc
  add_weights (s ∷ ss) (weights, total) =
      let addr = (decode_share_address codec testnet s).0 in
      let credit = (get_effective_share_diff fl s).0 in
      add_weights ss (
        if not (share_has_standard_payout s)
          || no_target fl s
          || (length addr == 0)
          || fle credit (lit 0 1)
        then (weights, total)
        else (add_to addr (weight credit) weights, total + weight credit))

  -- `CalculatePPLNSOutputsAtTip`. `sc` and `anchor` may be nil.
  pub calculate_pplns_outputs_at_tip :
      (ℕ → ℤ) → ℤ → Bytes → Option (ShareChain F) → Option ℕ → List PayoutOutput
  unfolding add_weights split_reward paid_shares
  calculate_pplns_outputs_at_tip compact_to_big (negsuc n) default_addr sc anchor = []
  calculate_pplns_outputs_at_tip compact_to_big (pos zero) default_addr sc anchor = []
  calculate_pplns_outputs_at_tip compact_to_big (pos (suc r)) default_addr sc anchor =
      let acc = add_weights (paid_shares fl compact_to_big sc anchor) ([], 0) in
      split_reward (suc r) default_addr acc.0 acc.1
