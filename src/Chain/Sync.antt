-- ===== src/Chain/Sync.antt =====
-- What a node asks its peers for and what it sends them: `headsLocked`, `missingTailLocked`,
-- `GetMissingParentHashes`, `GetStopHashes` and `GetSharesByHashWithParents` of work/sharechain.go.
pub mod Replies
pub mod Wants
pub mod Stops
mod Tests
use p2pool_go_vtc.Prelude.{
  ℕ, zero, suc, ◌+◌, ◌*◌, ◌/◌, Bool, true, false, ◌&&◌, ◌||◌, not, Option, none, some, List, [],
  ◌∷◌, ◌++◌, map, length, ltb, leb, ◌==◌, if◌then◌else◌, any, filter, min,
}
use p2pool_go_vtc.Prelude.Int.{ℤ, pos, negsuc, ltb_ℤ, ◌-ℤ◌}
use p2pool_go_vtc.Prelude.Eq.{nat_Eq}
use p2pool_go_vtc.Prelude.Dict.{Dict, lookup, has, get_or, insert, keys}
use p2pool_go_vtc.Env.{Float64}
use p2pool_go_vtc.Share.{Share, get_prev_key, prev_of, time_of, max_share_age}
use p2pool_go_vtc.Chain.{ShareChain, default_pplns_window, target_lookbehind, is_root, next_key}

abbrev pub max_share_reply : ℕ
max_share_reply = 1000

-- A set of hashes, as the list of what was put in.
abbrev pub in_set : ℕ → List ℕ → Bool
in_set h hs = any (λ g. g == h) hs

-- The parents to add for each of so many hashes.
abbrev pub reply_parents : ℤ → ℕ → ℕ
reply_parents (negsuc n) count = 0
reply_parents (pos n) count = min n (max_share_reply / count)

-- The loop that fills `tails`.
unfoldable pub remember : Option ℕ → List ℕ → Dict ℕ (Option ℕ) → Dict ℕ (Option ℕ)
remember tail [] tails = tails
remember tail (p ∷ path) tails = remember tail path (insert p tail tails)

-- `add` of `GetStopHashes`; `max` is 0 for no limit.
unfoldable pub add_stop : ℕ → ℕ → List ℕ → List ℕ
add_stop max h out =
    if not (in_set h out) && (max == 0 || ltb (length out) max) then out ++ h ∷ [] else out

module _ {F : Type 0} where
  -- The inner loop of `GetSharesByHashWithParents`: `steps` are those left; `seen` are the hashes of
  -- `out`, in its order.
  unfoldable pub reply_walk :
      Dict ℕ (Share F) → List ℕ → ℕ → ℕ → List ℕ × List (Share F) → List ℕ × List (Share F)
  reply_walk shares stops zero cur acc = acc
  reply_walk shares stops (suc steps) cur acc =
      if not (ltb (length acc.1) max_share_reply) || in_set cur acc.0 || in_set cur stops
      then acc
      else elim (lookup cur shares) [
        | none ↦ acc
        | some s ↦ elim (prev_of s) [
          | none ↦ (acc.0 ++ cur ∷ [], acc.1 ++ s ∷ [])
          | some p ↦ elim (is_root (some p)) [
            | true ↦ (acc.0 ++ cur ∷ [], acc.1 ++ s ∷ [])
            | false ↦ reply_walk shares stops steps p (acc.0 ++ cur ∷ [], acc.1 ++ s ∷ [])
          ]
        ]
      ]

  -- The outer loop.
  unfoldable pub reply_all :
      Dict ℕ (Share F) → List ℕ → ℕ → List ℕ → List ℕ × List (Share F) → List ℕ × List (Share F)
  reply_all shares stops parents [] acc = acc
  reply_all shares stops parents (h ∷ hs) acc =
      reply_all shares stops parents hs (reply_walk shares stops (parents + 1) h acc)

  -- `GetSharesByHashWithParents`, with the hashes of the shares.
  unfoldable pub get_shares_by_hash_with_parents :
      ShareChain F → List ℕ → ℤ → List ℕ → List ℕ × List (Share F)
  get_shares_by_hash_with_parents sc hashes parents stops =
      if length hashes == 0
      then ([], [])
      else reply_all sc.shares stops (reply_parents parents (length hashes)) hashes ([], [])

  -- The loop of `missingTailLocked`: `path` are the hashes passed, newest first.
  unfoldable pub tail_loop :
      Dict ℕ (Share F) → Dict ℕ (Option ℕ) → ℕ → List ℕ → ℕ → Option ℕ × List ℕ
  tail_loop shares tails zero path cur = (none, path)
  tail_loop shares tails (suc steps) path cur = elim (lookup cur tails) [
    | some t ↦ (t, path)
    | none ↦ elim (lookup cur shares) [
      | none ↦ (some cur, path)
      | some s ↦
          if is_root (prev_of s) || ltb (length shares) (length path + 1)
          then (none, cur ∷ path)
          else elim (get_prev_key s).0 [
            | none ↦ (none, cur ∷ path)
            | some p ↦ tail_loop shares tails steps (cur ∷ path) p
          ]
    ]
  ]

  -- `missingTailLocked`: the tail, and the memo with it. The path stops one share after it holds as
  -- many as the chain.
  unfoldable pub missing_tail :
      Dict ℕ (Share F) → ℕ → Dict ℕ (Option ℕ) → Option ℕ × Dict ℕ (Option ℕ)
  missing_tail shares h tails =
      let found = tail_loop shares tails (length shares + 2) [] h in
      (found.0, remember found.0 found.1 tails)

  -- Is the head too old, or its chain deep enough?
  unfoldable pub skips_head : ShareChain F → ℤ → ℕ → Bool
  skips_head sc cut h = elim (lookup h sc.shares) [
    | none ↦ true
    | some s ↦
        ltb_ℤ (time_of s) cut
        || leb (default_pplns_window + target_lookbehind) (get_or 0 h sc.chain_len)
  ]

  -- The loop of `GetMissingParentHashes` over the heads; `out` is what `seen` holds.
  unfoldable pub missing_loop : ShareChain F → ℤ → ℕ → List ℕ → Dict ℕ (Option ℕ) → List ℕ → List ℕ
  missing_loop sc cut max [] tails out = out
  missing_loop sc cut max (h ∷ heads) tails out =
      let found = missing_tail sc.shares h tails in
      elim (skips_head sc cut h) [
        | true ↦ missing_loop sc cut max heads tails out
        | false ↦ elim found.0 [
          | none ↦ missing_loop sc cut max heads found.1 out
          | some t ↦ elim (in_set t out) [
            | true ↦ missing_loop sc cut max heads found.1 out
            | false ↦ elim (ltb 0 max && leb max (length out + 1)) [
              | true ↦ out ++ t ∷ []
              | false ↦ missing_loop sc cut max heads found.1 (out ++ t ∷ [])
            ]
          ]
        ]
      ]

  -- The ancestor of a held share at a distance, or the oldest held.
  unfoldable pub ancestor : Dict ℕ (Share F) → ℕ → ℕ → ℕ
  ancestor shares zero anc = anc
  ancestor shares (suc steps) anc = elim (lookup anc shares) [
    | none ↦ anc
    | some s ↦ elim (get_prev_key s).0 [
      | none ↦ anc
      | some p ↦ elim (has p shares) [ true ↦ ancestor shares steps p | false ↦ anc ]
    ]
  ]

  unfoldable pub stop_loop : Dict ℕ (Share F) → ℕ → List ℕ → List ℕ → List ℕ
  stop_loop shares max [] out = out
  stop_loop shares max (h ∷ heads) out = elim (ltb 0 max && leb max (length out)) [
    | true ↦ out
    | false ↦ stop_loop shares max heads (add_stop max (ancestor shares 10 h) (add_stop max h out))
  ]

module _ (fl : Float64) where
  open fl use {F, flt, lit}

  -- Does another share build on the hash?
  abbrev pub has_child : Dict ℕ (Share F) → ℕ → Bool
  has_child shares h =
      any (λ e. elim (get_prev_key e.1).0 [ none ↦ false | some p ↦ p == h ]) shares

  -- The order of `headsLocked`: the most work first, then the larger hash.
  abbrev pub before_head : Dict ℕ F → ℕ → ℕ → Bool
  before_head cum_work g h =
      let wg = get_or (lit 0 1) g cum_work in
      let wh = get_or (lit 0 1) h cum_work in if flt wg wh || flt wh wg then flt wh wg else ltb h g

  pub insert_head : Dict ℕ F → ℕ → List ℕ → List ℕ
  insert_head cum_work h [] = h ∷ []
  insert_head cum_work h (g ∷ gs) =
      let rest = insert_head cum_work h gs in
      if before_head cum_work g h then g ∷ rest else h ∷ g ∷ gs

  pub sort_heads : Dict ℕ F → List ℕ → List ℕ
  unfolding insert_head
  sort_heads cum_work [] = []
  sort_heads cum_work (h ∷ hs) = insert_head cum_work h (sort_heads cum_work hs)

  -- `headsLocked`
  pub heads : ShareChain F → List ℕ
  unfolding sort_heads
  heads sc = sort_heads sc.cum_work (filter (λ h. not (has_child sc.shares h)) (keys sc.shares))

  -- `GetMissingParentHashes`, at a time in seconds; `max` is 0 for no limit.
  pub get_missing_parent_hashes : ShareChain F → ℤ → ℕ → List ℕ
  unfolding heads
  get_missing_parent_hashes sc now max =
      missing_loop sc (now -ℤ pos max_share_age) max (heads sc) [] []

  -- `GetStopHashes`
  pub get_stop_hashes : ShareChain F → ℕ → List ℕ
  unfolding heads
  get_stop_hashes sc max = stop_loop sc.shares max (heads sc) []
