-- ===== src/Payout/Fairness.antt =====
-- What each address is paid by `CalculatePPLNSOutputsAtTip` of work/coinbase.go.

use p2pool_go_vtc.Prelude.{
  ℕ, zero, suc, ◌+◌, ◌*◌, ◌-◌, ◌/◌, ◌≤◌, ◌<◌, ◌≡◌, refl, Bool, true, false, ◌&&◌, Option, some,
  List, [], ◌∷◌, length, get_elem?, get_elem?-lt, ltb, if◌then◌else◌, arith, All, ◌∙◌, subst,
}
use p2pool_go_vtc.Prelude.Int.{ℤ, pos}
use p2pool_go_vtc.Prelude.Bytes.{Bytes, bytes_eq, bytes_eq_sym_false}
use p2pool_go_vtc.Prelude.Eq.{bytes_Eq, bytes_eq_iff}
use p2pool_go_vtc.Prelude.Dict.{Dict, get_or, keys, lookup-insert, Distinct}
use p2pool_go_vtc.Env.{Float64, Codec}
use p2pool_go_vtc.Chain.{ShareChain}
use p2pool_go_vtc.Payout.{
  PayoutOutput, sort_strings, add_to, weight_of, allocate, outputs_of, split_reward, add_weights,
  paid_shares, calculate_pplns_outputs_at_tip,
}
use p2pool_go_vtc.Payout.Sorting.{
  sum_over, sum_over-sort_strings, length-sort_strings, Differing, sort_strings-Differing,
}
use p2pool_go_vtc.Payout.Split.{sum_values, fair_step}
use p2pool_go_vtc.Payout.Weights.{
  lacking, keys-Differing, sum_over-keys, length-keys, Tallied, add_weights-Tallied,
}
use p2pool_go_vtc.Payout.Conservation.{allocate-Distinct}

-- What a list of outputs pays to an address.
abbrev pub paid_to : Bytes → List PayoutOutput → ℕ
paid_to a [] = 0
paid_to a (o ∷ os) = (if bytes_eq a o.address then o.amount else 0) + paid_to a os

abbrev at_key : Bytes → Dict Bytes ℕ → Bytes → ℕ
at_key a m b = if bytes_eq a b then get_or 0 b m else 0

paid_to-outputs_of :
    (a : Bytes) (m : Dict Bytes ℕ) (ks : List Bytes)
    → paid_to a (outputs_of m ks) ≡ sum_over (at_key a m) ks
unfolding outputs_of
paid_to-outputs_of a m [] = refl
paid_to-outputs_of a m (k ∷ ks) = ground (arith, paid_to-outputs_of a m ks)

at_key-other :
    (a : Bytes) (m : Dict Bytes ℕ) (ks : List Bytes)
    → All (λ b. bytes_eq a b ≡ false) ks
    → sum_over (at_key a m) ks ≡ 0
at_key-other a m [] all = refl
at_key-other a m (k ∷ ks) all = ground (arith, at_key-other a m ks all.1)

at_key-behind :
    (a : Bytes) (e : Bytes × ℕ) (m : Dict Bytes ℕ) (ks : List Bytes)
    → All (λ b. bytes_eq e.0 b ≡ false) ks
    → sum_over (at_key a (e ∷ m)) ks ≡ sum_over (at_key a m) ks
at_key-behind a e m [] all = refl
at_key-behind a e m (k ∷ ks) all = ground (arith, at_key-behind a e m ks all.1)

at_key-keys :
    (a : Bytes) (m : Dict Bytes ℕ) → Distinct m → sum_over (at_key a m) (keys m) ≡ get_or 0 a m
at_key-keys a [] d = refl
at_key-keys a (e ∷ m) d = ground (
  arith,
  bytes_eq_iff e.0 e.0,
  bytes_eq_iff a e.0,
  bytes_eq_iff e.0 a,
  at_key-behind a e m (keys m) (lacking e.0 m d.0),
  at_key-keys a m d.1,
)

-- The outputs pay each address its amount.
paid_to-all :
    (a : Bytes) (m : Dict Bytes ℕ)
    → Distinct m
    → paid_to a (outputs_of m (sort_strings (keys m))) ≡ get_or 0 a m
paid_to-all a m d =
    paid_to-outputs_of a m (sort_strings (keys m))
    ∙ sum_over-sort_strings (at_key a m) (keys m)
    ∙ at_key-keys a m d

get_or-add_to :
    (a b : Bytes) (n : ℕ) (m : Dict Bytes ℕ)
    → get_or 0 b (add_to a n m) ≡ (if bytes_eq a b then get_or 0 a m + n else get_or 0 b m)
get_or-add_to a b n m = ground (arith, lookup-insert a b (get_or 0 a m + n) m)

-- The loop leaves the addresses that it does not visit alone.
allocate-other :
    (weights : Dict Bytes ℕ) (t d : ℕ) (b : Bytes) (as' : List Bytes) (allocated : ℕ)
    (m : Dict Bytes ℕ)
    → All (λ a. bytes_eq b a ≡ false) as'
    → get_or 0 b (allocate weights t d allocated as' m) ≡ get_or 0 b m
unfolding allocate
allocate-other weights t d b [] allocated m all = refl
allocate-other weights t d b (a ∷ []) allocated m all =
    ground (arith, get_or-add_to a b (d - allocated) m, bytes_eq_sym_false b a all.0)
allocate-other weights t d b (a ∷ c ∷ rest) allocated m all =
    let amt = d * weight_of weights a / t in
    allocate-other weights t d b (c ∷ rest) (if ltb 0 amt then allocated + amt else allocated)
      (if ltb 0 amt then add_to a amt m else m) all.1
    ∙ ground (arith, get_or-add_to a b amt m, bytes_eq_sym_false b a all.0)

last_share :
    (weights : Dict Bytes ℕ) (t d done allocated : ℕ) (x : Bytes) (m : Dict Bytes ℕ)
    → 0 < t
    → done + (weight_of weights x + 0) ≡ t
    → allocated * t ≤ d * done
    → get_or 0 x m ≡ 0
    → d * weight_of weights x / t ≤ get_or 0 x (allocate weights t d allocated (x ∷ []) m)
unfolding allocate
last_share weights t d done allocated x m pos_t sums fair fresh =
    let (_, within) =
      fair_step d t (weight_of weights x) done 0 allocated pos_t (omega arith) fair in
    ground (arith, get_or-add_to x x (d - allocated) m, bytes_eq_iff x x)

first_share :
    (weights : Dict Bytes ℕ) (t d allocated : ℕ) (x y : Bytes) (rest : List Bytes)
    (m : Dict Bytes ℕ)
    → All (λ b. bytes_eq x b ≡ false) (y ∷ rest)
    → get_or 0 x m ≡ 0
    → get_or 0 x (allocate weights t d allocated (x ∷ y ∷ rest) m) ≡ d * weight_of weights x / t
unfolding allocate
first_share weights t d allocated x y rest m differ fresh =
    let amt = d * weight_of weights x / t in
    allocate-other weights t d x (y ∷ rest) (if ltb 0 amt then allocated + amt else allocated)
      (if ltb 0 amt then add_to x amt m else m) differ
    ∙ ground (arith, get_or-add_to x x amt m, bytes_eq_iff x x)

still-Fresh :
    (x : Bytes) (n : ℕ) (m : Dict Bytes ℕ) (as' : List Bytes)
    → All (λ b. bytes_eq x b ≡ false) as'
    → All (λ b. get_or 0 b m ≡ 0) as'
    → All (λ b. get_or 0 b (if ltb 0 n then add_to x n m else m) ≡ 0) as'
still-Fresh x n m [] differ fresh = tt
still-Fresh x n m (a ∷ rest) differ fresh =
    (ground (arith, get_or-add_to x a n m), still-Fresh x n m rest differ.1 fresh.1)

-- An address that is not the last gets its share rounded down; the last gets at least that.
allocate-share :
    (weights : Dict Bytes ℕ) (t d : ℕ) (as' : List Bytes) (done allocated k : ℕ) (m : Dict Bytes ℕ)
    (a : Bytes)
    → 0 < t
    → done + sum_over (weight_of weights) as' ≡ t
    → allocated * t ≤ d * done
    → Differing as'
    → All (λ b. get_or 0 b m ≡ 0) as'
    → get_elem? as' k ≡ some a
    → (d * weight_of weights a / t ≤ get_or 0 a (allocate weights t d allocated as' m))
      × (suc k < length as'
          → get_or 0 a (allocate weights t d allocated as' m) ≡ d * weight_of weights a / t)
unfolding allocate
allocate-share weights t d [] done allocated k m a pos_t sums fair differ fresh e = cc
allocate-share weights t d (x ∷ []) done allocated (suc k) m a pos_t sums fair differ fresh e = cc
allocate-share weights t d (x ∷ []) done allocated zero m a pos_t sums fair differ fresh e =
    let same : x ≡ a = cc in
    rw (← same) (
      last_share weights t d done allocated x m pos_t sums fair fresh.0,
      λ lt. absurd (omega arith),
    )
allocate-share weights t d (x ∷ y ∷ rest) done allocated zero m a pos_t sums fair differ fresh e =
    let same : x ≡ a = cc in
    let exact = first_share weights t d allocated x y rest m differ.0 fresh.0 in
    rw (← same) (omega (arith, exact), λ lt. exact)
allocate-share weights t d (x ∷ y ∷ rest) done allocated (suc k) m a pos_t sums fair differ fresh
      e =
    let w = weight_of weights x in
    let amt = d * w / t in
    let fair' =
      fair_step d t w done (sum_over (weight_of weights) (y ∷ rest)) allocated pos_t (omega arith)
        fair in
    let (least, exact) =
      allocate-share weights t d (y ∷ rest) (done + w)
        (if ltb 0 amt then allocated + amt else allocated) k
        (if ltb 0 amt then add_to x amt m else m) a pos_t (omega arith) (next_fair _ fair'.0)
        differ.1 (still-Fresh x amt m (y ∷ rest) differ.0 fresh.1) e in
    (least, λ lt. exact (omega arith))
  where
    next_fair :
        (amt : ℕ)
        → (allocated + amt) * t ≤ d * (done + weight_of weights x)
        → (if ltb 0 amt then allocated + amt else allocated) * t ≤ d * (done + weight_of weights x)
    next_fair amt h = ground arith

split_reward-share :
    (d : ℕ) (default_addr : Bytes) (weights : Dict Bytes ℕ) (t k : ℕ) (a : Bytes)
    → Distinct weights
    → sum_values weights ≡ t
    → 0 < t
    → get_elem? (sort_strings (keys weights)) k ≡ some a
    → (d * weight_of weights a / t ≤ paid_to a (split_reward d default_addr weights t))
      × (suc k < length weights
          → paid_to a (split_reward d default_addr weights t) ≡ d * weight_of weights a / t)
unfolding split_reward
split_reward-share d default_addr weights t k a distinct sums pos_t e =
    let ks = sort_strings (keys weights) in
    let n : length ks ≡ length weights = length-sort_strings (keys weights) ∙ length-keys weights in
    let weighted : (ltb 0 t && ltb 0 (length weights)) ≡ true =
      ground (arith, get_elem?-lt ks k e) in
    let (least, exact) =
      allocate-share weights t d ks 0 0 k [] a pos_t
        (omega (
          arith,
          sum_over-sort_strings (weight_of weights) (keys weights)
              ∙ sum_over-keys weights distinct
              ∙ sums,
        ))
        (omega arith) (sort_strings-Differing (keys weights) (keys-Differing weights distinct))
        (all_zero ks) e in
    let paid =
      paid_to-all a (allocate weights t d 0 ks []) (allocate-Distinct weights t d ks 0 [] tt) in
    rw (weighted, paid) (least, λ lt. exact (omega arith))
  where
    all_zero : (ks : List Bytes) → All (λ b. get_or {K = Bytes} {V = ℕ} 0 b [] ≡ 0) ks
    all_zero [] = tt
    all_zero (x ∷ ks) = (refl, all_zero ks)

module _ (fl : Float64) (codec : Codec) (testnet : Bool) (compact_to_big : ℕ → ℤ) where
  open fl use {F}

  -- Where the selected shares weigh `t` in all, the k-th address of the sorted ones is paid at least
  -- its part of the reward, rounded down, and exactly that unless it is the last.
  pub calculate_pplns_outputs_at_tip-share :
      (r : ℕ) (default_addr : Bytes) (sc : Option (ShareChain F)) (anchor : Option ℕ)
      (weights : Dict Bytes ℕ) (t k : ℕ) (a : Bytes)
      → add_weights fl codec testnet (paid_shares fl compact_to_big sc anchor) ([], 0)
        ≡ (weights, t)
      → 0 < t
      → get_elem? (sort_strings (keys weights)) k ≡ some a
      → let paid = paid_to a (
          calculate_pplns_outputs_at_tip fl codec testnet compact_to_big
            (pos (suc r))
            default_addr
            sc
            anchor) in
        (suc r * weight_of weights a / t ≤ paid)
        × (suc k < length weights → paid ≡ suc r * weight_of weights a / t)
  unfolding calculate_pplns_outputs_at_tip
  calculate_pplns_outputs_at_tip-share r default_addr sc anchor weights t k a tally pos_t e =
      let start : Tallied fl codec testnet ([], 0) = record { distinct = tt; total = refl } in
      let tallied = subst (Tallied fl codec testnet) tally (
        add_weights-Tallied fl codec testnet (paid_shares fl compact_to_big sc anchor) ([], 0)
          start) in
      rw tally (
        split_reward-share (suc r) default_addr weights t k a tallied.distinct tallied.total pos_t
          e)
