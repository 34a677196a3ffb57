-- ===== src/Payout/Conservation.antt =====
-- What the outputs of `CalculatePPLNSOutputsAtTip` sum to, and their order.
use p2pool_go_vtc.Prelude.{
  ℕ, zero, suc, ◌+◌, ◌-◌, ◌<◌, ◌≡◌, refl, inl, inr, Bool, true, false, ◌&&◌, Option, List, [], ◌∷◌,
  length, ltb, if◌then◌else◌, arith, Bool-cases, All, ◌∙◌, map,
}
use p2pool_go_vtc.Prelude.Int.{ℤ, pos, negsuc}
use p2pool_go_vtc.Prelude.Bytes.{Bytes, bytes_lt}
use p2pool_go_vtc.Prelude.Eq.{bytes_Eq}
use p2pool_go_vtc.Prelude.Dict.{Dict, get_or, insert, keys, insert-Distinct, Distinct}
use p2pool_go_vtc.Env.{Float64, Codec}
use p2pool_go_vtc.Chain.{ShareChain}
use p2pool_go_vtc.Payout.{
  PayoutOutput, sort_strings, weight_of, allocate, outputs_of, split_reward, add_weights,
  paid_shares, calculate_pplns_outputs_at_tip,
}
use p2pool_go_vtc.Payout.Sorting.{
  sum_over, sum_over-sort_strings, length-sort_strings, Ascending, sort_strings-Ascending,
}
use p2pool_go_vtc.Payout.Split.{sum_values, sum_values-allocate}
use p2pool_go_vtc.Payout.Weights.{keys-Differing, sum_over-keys, length-keys, add_weights-Tallied}

abbrev pub total_of : List PayoutOutput → ℕ
total_of [] = 0
total_of (o ∷ os) = o.amount + total_of os

total_of-outputs_of :
    (amounts : Dict Bytes ℕ) (ks : List Bytes)
    → total_of (outputs_of amounts ks) ≡ sum_over (λ a. get_or 0 a amounts) ks
unfolding outputs_of
total_of-outputs_of amounts [] = refl
total_of-outputs_of amounts (k ∷ ks) = ground (arith, total_of-outputs_of amounts ks)

-- The outputs of all keys pay all values.
outputs_of-all :
    (amounts : Dict Bytes ℕ)
    → Distinct amounts
    → total_of (outputs_of amounts (sort_strings (keys amounts))) ≡ sum_values amounts
outputs_of-all amounts d =
    total_of-outputs_of amounts (sort_strings (keys amounts))
    ∙ sum_over-sort_strings (λ a. get_or 0 a amounts) (keys amounts)
    ∙ sum_over-keys amounts d

pub allocate-Distinct :
    (weights : Dict Bytes ℕ) (t d : ℕ) (as' : List Bytes) (allocated : ℕ) (amounts : Dict Bytes ℕ)
    → Distinct amounts
    → Distinct (allocate weights t d allocated as' amounts)
unfolding allocate
allocate-Distinct weights t d [] allocated amounts h = h
allocate-Distinct weights t d (a ∷ []) allocated amounts h =
    elim (Bool-cases (ltb 0 (d - allocated))) [
      | inl more ↦ rw more (insert-Distinct a _ amounts h)
      | inr full ↦ rw full h
    ]
allocate-Distinct weights t d (a ∷ b ∷ rest) allocated amounts h =
    allocate-Distinct weights t d (b ∷ rest) _ _ (kept _ _ (insert-Distinct a _ amounts h))
  where
    kept :
        (positive : Bool) (m : Dict Bytes ℕ)
        → Distinct m
        → Distinct (if positive then m else amounts)
    kept true m k = k
    kept false m k = h

split_sorted :
    (reward t : ℕ) (weights : Dict Bytes ℕ) (as' : List Bytes)
    → 0 < length as'
    → 0 < t
    → sum_over (weight_of weights) as' ≡ t
    → sum_values (allocate weights t reward 0 as' []) ≡ reward
split_sorted reward t weights [] some_addr pos_t sums = absurd (omega arith)
split_sorted reward t weights (a ∷ rest) some_addr pos_t sums =
    sum_values-allocate weights t reward 0 0 a rest [] pos_t (omega arith) (omega arith)
      (omega arith)
    ∙ omega arith

split_reward-total :
    (reward : ℕ) (default_addr : Bytes) (weights : Dict Bytes ℕ) (t : ℕ)
    → Distinct weights
    → sum_values weights ≡ t
    → total_of (split_reward reward default_addr weights t) ≡ reward
unfolding split_reward
split_reward-total reward default_addr weights t d sums =
    elim (Bool-cases (ltb 0 t && ltb 0 (length weights))) [
      | inl weighted ↦ rw weighted (
          outputs_of-all _ (allocate-Distinct weights t reward _ 0 [] tt)
          ∙ split_sorted reward t weights (sort_strings (keys weights))
              (rw (length-sort_strings (keys weights), length-keys weights) (ground arith))
              (ground arith)
              (sum_over-sort_strings (weight_of weights) (keys weights)
                ∙ sum_over-keys weights d
                ∙ sums))
      | inr alone ↦
          rw alone (outputs_of-all (insert default_addr reward []) (refl, tt) ∙ omega arith)
    ]

outputs_of-above :
    (amounts : Dict Bytes ℕ) (a : Bytes) (ks : List Bytes)
    → All (λ b. bytes_lt a b ≡ true) ks
    → All (λ b. bytes_lt a b ≡ true) (map (λ o. o.address) (outputs_of amounts ks))
unfolding outputs_of
outputs_of-above amounts a [] all = tt
outputs_of-above amounts a (k ∷ ks) all = elim (Bool-cases (ltb 0 (get_or 0 k amounts))) [
  | inl some_amount ↦ rw (some_amount, outputs_of) (all.0, outputs_of-above amounts a ks all.1)
  | inr nothing ↦ rw (nothing, outputs_of) (outputs_of-above amounts a ks all.1)
]

-- Positive amounts, to addresses in strictly ascending order.
abbrev pub WellFormed : List PayoutOutput → Type 0
WellFormed os = All (λ o. 0 < o.amount) os × Ascending (map (λ o. o.address) os)

outputs_of-WellFormed :
    (amounts : Dict Bytes ℕ) (ks : List Bytes) → Ascending ks → WellFormed (outputs_of amounts ks)
unfolding outputs_of
outputs_of-WellFormed amounts [] up = (tt, tt)
outputs_of-WellFormed amounts (k ∷ ks) up =
    let (positive, ascending) = outputs_of-WellFormed amounts ks up.1 in
    elim (Bool-cases (ltb 0 (get_or 0 k amounts))) [
      | inl some_amount ↦
          rw (some_amount, outputs_of)
            ((ground arith, positive), (outputs_of-above amounts k ks up.0, ascending))
      | inr nothing ↦ rw (nothing, outputs_of) (positive, ascending)
    ]

amounts-Distinct :
    (weighted : Bool) (reward : ℕ) (default_addr : Bytes) (weights : Dict Bytes ℕ) (t : ℕ)
    → Distinct (
        if weighted
        then allocate weights t reward 0 (sort_strings (keys weights)) []
        else insert default_addr reward [])
amounts-Distinct true reward default_addr weights t = allocate-Distinct weights t reward _ 0 [] tt
amounts-Distinct false reward default_addr weights t = (refl, tt)

split_reward-WellFormed :
    (reward : ℕ) (default_addr : Bytes) (weights : Dict Bytes ℕ) (t : ℕ)
    → WellFormed (split_reward reward default_addr weights t)
unfolding split_reward
split_reward-WellFormed reward default_addr weights t =
    let weighted = ltb 0 t && ltb 0 (length weights) in
    let amounts : Dict Bytes ℕ =
      if weighted
      then allocate weights t reward 0 (sort_strings (keys weights)) []
      else insert default_addr reward [] in
    outputs_of-WellFormed amounts (sort_strings (keys amounts)) (
      sort_strings-Ascending (keys amounts)
        (keys-Differing amounts (amounts-Distinct weighted reward default_addr weights t)))

module _ (fl : Float64) (codec : Codec) (testnet : Bool) (compact_to_big : ℕ → ℤ) where
  open fl use {F}

  -- For a positive reward the outputs sum to exactly the reward, whatever the chain holds: rounding
  -- loses nothing, and the floats decide only the weights.
  pub calculate_pplns_outputs_at_tip-total :
      (reward : ℕ) (default_addr : Bytes) (sc : Option (ShareChain F)) (anchor : Option ℕ)
      → total_of (
          calculate_pplns_outputs_at_tip fl codec testnet compact_to_big
            (pos reward)
            default_addr
            sc
            anchor)
        ≡ reward
  unfolding calculate_pplns_outputs_at_tip
  calculate_pplns_outputs_at_tip-total zero default_addr sc anchor = refl
  calculate_pplns_outputs_at_tip-total (suc r) default_addr sc anchor =
      let acc = add_weights fl codec testnet (paid_shares fl compact_to_big sc anchor) ([], 0) in
      let tallied =
        add_weights-Tallied fl codec testnet (paid_shares fl compact_to_big sc anchor) ([], 0)
          (record { distinct = tt; total = refl }) in
      split_reward-total (suc r) default_addr acc.0 acc.1 tallied.distinct tallied.total

  -- Every output pays a positive amount, and the addresses stand in strictly ascending order.
  pub calculate_pplns_outputs_at_tip-WellFormed :
      (reward : ℤ) (default_addr : Bytes) (sc : Option (ShareChain F)) (anchor : Option ℕ)
      → WellFormed (
          calculate_pplns_outputs_at_tip fl codec testnet compact_to_big reward default_addr sc
            anchor)
  unfolding calculate_pplns_outputs_at_tip
  calculate_pplns_outputs_at_tip-WellFormed (negsuc n) default_addr sc anchor = (tt, tt)
  calculate_pplns_outputs_at_tip-WellFormed (pos zero) default_addr sc anchor = (tt, tt)
  calculate_pplns_outputs_at_tip-WellFormed (pos (suc r)) default_addr sc anchor =
      let acc = add_weights fl codec testnet (paid_shares fl compact_to_big sc anchor) ([], 0) in
      split_reward-WellFormed (suc r) default_addr acc.0 acc.1
