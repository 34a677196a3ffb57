-- ===== src/Payout/Split.antt =====
-- The sums in the division of the reward.
use native.Mathlib.Nat.{div-mul-le_self, le_of_mul-le-mul_right, mul-le-mul_left}
use p2pool_go_vtc.Prelude.{
  ℕ, ◌+◌, ◌*◌, ◌-◌, ◌/◌, ◌≤◌, ◌<◌, ◌≡◌, inl, inr, List, [], ◌∷◌, ltb, arith, Bool-cases, ◌∙◌,
}
use p2pool_go_vtc.Prelude.Bytes.{Bytes}
use p2pool_go_vtc.Prelude.Eq.{bytes_Eq}
use p2pool_go_vtc.Prelude.Dict.{Dict}
use p2pool_go_vtc.Payout.{weight_of, add_to, allocate}
use p2pool_go_vtc.Payout.Sorting.{sum_over}

-- The sum of the values of a map.
abbrev pub sum_values : Dict Bytes ℕ → ℕ
sum_values [] = 0
sum_values (e ∷ m) = e.1 + sum_values m

pub sum_values-add_to :
    (a : Bytes) (n : ℕ) (m : Dict Bytes ℕ) → sum_values (add_to a n m) ≡ sum_values m + n
sum_values-add_to a n [] = omega arith
sum_values-add_to a n (e ∷ m) = ground (arith, sum_values-add_to a n m)

-- One share, rounded down, keeps the total within what the weights so far allow.
pub fair_step :
    (d t w done rest allocated : ℕ)
    → 0 < t
    → done + (w + rest) ≤ t
    → allocated * t ≤ d * done
    → ((allocated + d * w / t) * t ≤ d * (done + w)) × (allocated + d * w / t ≤ d)
fair_step d t w done rest allocated pos_t bound h =
    let first : (allocated + d * w / t) * t ≤ d * (done + w) =
      omega (arith, div-mul-le_self (d * w) t) in
    let cap : d * (done + w) ≤ d * t = mul-le-mul_left d (omega arith) in
    (first, le_of_mul-le-mul_right {k = t} (omega arith) pos_t)

-- Whatever the weights, the amounts sum to the whole reward.
pub sum_values-allocate :
    (weights : Dict Bytes ℕ) (t d done allocated : ℕ) (a : Bytes) (rest : List Bytes)
    (amounts : Dict Bytes ℕ)
    → 0 < t
    → done + sum_over (weight_of weights) (a ∷ rest) ≤ t
    → allocated * t ≤ d * done
    → allocated ≤ d
    → sum_values (allocate weights t d allocated (a ∷ rest) amounts)
      ≡ sum_values amounts + (d - allocated)
unfolding allocate
sum_values-allocate weights t d done allocated a [] amounts pos_t bound fair le =
    ground (arith, sum_values-add_to a (d - allocated) amounts)
sum_values-allocate weights t d done allocated a (b ∷ rest) amounts pos_t bound fair le =
    let w = weight_of weights a in
    let amt = d * w / t in
    let (fair', le') =
      fair_step d t w done (sum_over (weight_of weights) (b ∷ rest)) allocated pos_t bound fair in
    elim (Bool-cases (ltb 0 amt)) [
      | inl some_amount ↦ rw some_amount (
          sum_values-allocate weights t d (done + w) (allocated + amt) b rest (add_to a amt amounts)
            pos_t (omega arith) fair' le'
          ∙ omega (arith, sum_values-add_to a amt amounts))
      | inr no_amount ↦ rw no_amount (
          sum_values-allocate weights t d (done + w) allocated b rest amounts pos_t (omega arith)
            (omega arith) le)
    ]
