-- ===== src/Payout/Weights.antt =====
-- The weights of the addresses and their total, and the keys of such maps.
use p2pool_go_vtc.Prelude.{
  ℕ, suc, ◌+◌, ◌≡◌, refl, Bool, true, false, none, List, [], ◌∷◌, length, if◌then◌else◌, arith, All,
  ◌∙◌, ap,
}
use p2pool_go_vtc.Prelude.Bytes.{Bytes, bytes_eq}
use p2pool_go_vtc.Prelude.Eq.{bytes_Eq, bytes_eq_iff}
use p2pool_go_vtc.Prelude.Dict.{Dict, lookup, get_or, keys, insert-Distinct, Distinct}
use p2pool_go_vtc.Env.{Float64, Codec}
use p2pool_go_vtc.Share.{Share}
use p2pool_go_vtc.Payout.{add_to, add_weights}
use p2pool_go_vtc.Payout.Sorting.{sum_over, Differing}
use p2pool_go_vtc.Payout.Split.{sum_values, sum_values-add_to}

-- A key that a map lacks differs from all its keys.
pub lacking :
    (k : Bytes) (m : Dict Bytes ℕ) → lookup k m ≡ none → All (λ b. bytes_eq k b ≡ false) (keys m)
lacking k [] h = tt
lacking k (e ∷ m) h =
    (ground (arith, bytes_eq_iff e.0 k, bytes_eq_iff k e.0), lacking k m (ground arith))

pub keys-Differing : (m : Dict Bytes ℕ) → Distinct m → Differing (keys m)
keys-Differing [] d = tt
keys-Differing (e ∷ m) d = (lacking e.0 m d.0, keys-Differing m d.1)

-- An entry in front does not change the reads of the keys behind it.
reads_behind :
    (e : Bytes × ℕ) (m : Dict Bytes ℕ) (ks : List Bytes)
    → All (λ b. bytes_eq e.0 b ≡ false) ks
    → sum_over (λ a. get_or 0 a (e ∷ m)) ks ≡ sum_over (λ a. get_or 0 a m) ks
reads_behind e m [] all = refl
reads_behind e m (k ∷ ks) all = ground (arith, reads_behind e m ks all.1)

-- Reading every key gives every value.
pub sum_over-keys :
    (m : Dict Bytes ℕ) → Distinct m → sum_over (λ a. get_or 0 a m) (keys m) ≡ sum_values m
sum_over-keys [] d = refl
sum_over-keys (e ∷ m) d = ground (
  arith,
  bytes_eq_iff e.0 e.0,
  reads_behind e m (keys m) (lacking e.0 m d.0),
  sum_over-keys m d.1,
)

pub length-keys : (m : Dict Bytes ℕ) → length (keys m) ≡ length m
length-keys [] = refl
length-keys (e ∷ m) = ap suc (length-keys m)

module _ (fl : Float64) (codec : Codec) (testnet : Bool) where
  open fl use {F}

  -- The total is the sum of the weights, and no address is counted apart from itself.
  pub record Tallied (acc : Dict Bytes ℕ × ℕ) : Type 0 where
    pub distinct : Distinct acc.0
    pub total : sum_values acc.0 ≡ acc.1

  add_to-Tallied :
      (a : Bytes) (n : ℕ) (acc : Dict Bytes ℕ × ℕ)
      → Tallied acc
      → Tallied (add_to a n acc.0, acc.1 + n)
  add_to-Tallied a n acc t = record {
    distinct = insert-Distinct a _ acc.0 t.distinct;
    total = sum_values-add_to a n acc.0 ∙ ap (λ s. s + n) t.total;
  }

  pub add_weights-Tallied :
      (ss : List (Share F)) (acc : Dict Bytes ℕ × ℕ)
      → Tallied acc
      → Tallied (add_weights fl codec testnet ss acc)
  unfolding add_weights
  add_weights-Tallied [] acc t = t
  add_weights-Tallied (s ∷ ss) (weights, total) t =
      add_weights-Tallied ss _ (kept _ (add_to-Tallied _ _ (weights, total) t))
    where
      kept :
          (skip : Bool) {acc' : Dict Bytes ℕ × ℕ}
          → Tallied acc'
          → Tallied (if skip then (weights, total) else acc')
      kept true t' = t
      kept false t' = t'
