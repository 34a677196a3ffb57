-- ===== src/Chain/Walks.antt =====
-- What a walk down the chain returns, in one store and in a larger one.
use p2pool_go_vtc.Prelude.{
  ℕ, zero, suc, ◌+◌, ◌≤◌, ◌<◌, ◌≡◌, ◌≢◌, refl, inl, inr, false, ◌&&◌, Option, none, some, List, [],
  ◌∷◌, length, get_elem?, take, filter, ltb, leb, ◌==◌, if◌then◌else◌, arith, Option-cases, ap,
}
use p2pool_go_vtc.Prelude.Eq.{nat_Eq}
use p2pool_go_vtc.Prelude.Dict.{Dict, lookup}
use p2pool_go_vtc.Env.{Float64}
use p2pool_go_vtc.Share.{Share, is_live}
use p2pool_go_vtc.Chain.{
  ShareChain, genesis_hash, target_lookbehind, or_tip, next_key, walk_loop, get_ordered_chain_walk,
  difficulty_of_walk, get_expected_share_difficulty, retarget, at_least,
}
use p2pool_go_vtc.Share.Check.{min_pool_share_diff}

module _ {F : Type 0} where
  -- The held shares from a hash down, newest first, for at most so many steps.
  unfoldable pub ancestry : Dict ℕ (Share F) → ℕ → ℕ → List (Share F)
  ancestry shares zero h = []
  ancestry shares (suc steps) h = elim (lookup h shares) [
    | none ↦ []
    | some s ↦ s ∷ elim (next_key s) [ none ↦ [] | some p ↦ ancestry shares steps p ]
  ]

  -- The first of a list, as many as `max` allows once `taken` are there; 0 is no limit.
  unfoldable pub limit : ℕ → ℕ → List (Share F) → List (Share F)
  limit max taken [] = []
  limit max taken (s ∷ ss) =
      let rest = limit max (taken + 1) ss in
      if ltb 0 max && leb max (taken + 1) then s ∷ [] else s ∷ rest

  walk_loop-ancestry :
      (shares : Dict ℕ (Share F)) (steps max taken h : ℕ)
      → walk_loop shares steps max taken h
        ≡ limit max taken (filter is_live (ancestry shares steps h))
  unfolding walk_loop ancestry limit
  walk_loop-ancestry shares zero max taken h = refl
  walk_loop-ancestry shares (suc steps) max taken h = elim (Option-cases (lookup h shares)) [
    | inl missing ↦ ground arith
    | inr (s, held) ↦ elim (Option-cases (next_key s)) [
      | inl last ↦ ground arith
      | inr (p, more) ↦ ground (
        arith,
        walk_loop-ancestry shares steps max taken p,
        walk_loop-ancestry shares steps max (taken + 1) p,
      )
    ]
  ]

  limit-take :
      (max taken room : ℕ) (ss : List (Share F))
      → max ≡ taken + suc room
      → limit max taken ss ≡ take (suc room) ss
  unfolding limit
  limit-take max taken room [] h = refl
  limit-take max taken zero (s ∷ ss) h = ground arith
  limit-take max taken (suc room) (s ∷ ss) h =
      ground (arith, limit-take max (taken + 1) room ss (omega arith))

  limit_none : (taken : ℕ) (ss : List (Share F)) → limit 0 taken ss ≡ ss
  unfolding limit
  limit_none taken [] = refl
  limit_none taken (s ∷ ss) = ground (arith, limit_none (taken + 1) ss)

  -- The live shares on the chain below a hash, or below the tip if the hash is null.
  unfoldable pub live_ancestry : ShareChain F → Option ℕ → List (Share F)
  live_ancestry sc start = elim (or_tip sc start) [
    | none ↦ []
    | some h ↦
        if h == genesis_hash
        then []
        else filter is_live (ancestry sc.shares (length sc.shares + 1) h)
  ]

  -- A walk with a limit returns the first so many live shares of the chain, newest first.
  pub get_ordered_chain_walk-take :
      (sc : ShareChain F) (start : Option ℕ) (m : ℕ)
      → get_ordered_chain_walk sc start (suc m) ≡ take (suc m) (live_ancestry sc start)
  unfolding get_ordered_chain_walk live_ancestry
  get_ordered_chain_walk-take sc start m = elim (Option-cases (or_tip sc start)) [
    | inl missing ↦ ground arith
    | inr (h, at_h) ↦ ground (
      arith,
      walk_loop-ancestry sc.shares (length sc.shares + 1) (suc m) 0 h,
      limit-take (suc m) 0 m (filter is_live (ancestry sc.shares (length sc.shares + 1) h))
          (omega arith),
    )
  ]

  -- Without a limit a walk returns all the live shares of the chain, newest first.
  pub get_ordered_chain_walk-all :
      (sc : ShareChain F) (start : Option ℕ)
      → get_ordered_chain_walk sc start 0 ≡ live_ancestry sc start
  unfolding get_ordered_chain_walk live_ancestry
  get_ordered_chain_walk-all sc start = elim (Option-cases (or_tip sc start)) [
    | inl missing ↦ ground arith
    | inr (h, at_h) ↦ ground (
      arith,
      walk_loop-ancestry sc.shares (length sc.shares + 1) 0 0 h,
      limit_none 0 (filter is_live (ancestry sc.shares (length sc.shares + 1) h)),
    )
  ]

  -- Every share held by the first store is held by the second, unchanged.
  abbrev pub Extends : Dict ℕ (Share F) → Dict ℕ (Share F) → Type 0
  Extends shares shares' =
      (h : ℕ) (s : Share F) → lookup h shares ≡ some s → lookup h shares' ≡ some s

  -- A walk that filled its limit is the same in a store that holds more.
  walk_loop-Extends :
      (shares shares' : Dict ℕ (Share F)) (steps steps' max taken h : ℕ)
      → Extends shares shares'
      → steps ≤ steps'
      → taken < max
      → length (walk_loop shares steps max taken h) + taken ≡ max
      → walk_loop shares' steps' max taken h ≡ walk_loop shares steps max taken h
  unfolding walk_loop
  walk_loop-Extends shares shares' zero steps' max taken h ext le lt full = absurd (omega arith)
  walk_loop-Extends shares shares' (suc steps) zero max taken h ext le lt full =
      absurd (omega arith)
  walk_loop-Extends shares shares' (suc steps) (suc steps') max taken h ext le lt full =
      elim (Option-cases (lookup h shares)) [
        | inl missing ↦ absurd (ground arith)
        | inr (s, held) ↦ elim (Option-cases (next_key s)) [
          | inl last ↦ ground (arith, ext h s held)
          | inr (p, more) ↦ ground (
            arith,
            ext h s held,
            walk_loop-Extends shares shares' steps steps' max taken p ext,
            walk_loop-Extends shares shares' steps steps' max (taken + 1) p ext,
          )
        ]
      ]

  -- The second chain holds all that the first holds.
  pub record Grows (sc sc' : ShareChain F) : Type 0 where
    pub kept : Extends sc.shares sc'.shares
    pub larger : length sc.shares ≤ length sc'.shares

  pub get_ordered_chain_walk-Grows :
      (sc sc' : ShareChain F) (h m : ℕ)
      → Grows sc sc'
      → h ≢ genesis_hash
      → length (get_ordered_chain_walk sc (some h) (suc m)) ≡ suc m
      → get_ordered_chain_walk sc' (some h) (suc m) ≡ get_ordered_chain_walk sc (some h) (suc m)
  unfolding get_ordered_chain_walk
  get_ordered_chain_walk-Grows sc sc' h m grows live full = ground (
    arith,
    walk_loop-Extends sc.shares sc'.shares (length sc.shares + 1) (length sc'.shares + 1) (suc m) 0
        h grows.kept,
    grows.larger,
  )

module _ (fl : Float64) where
  open fl use {F, flt, fle, lit}

  -- The expected difficulty after a share other than genesis that has 200 live shares on its
  -- chain rests on these alone: a store that holds all the shares of another, and more, expects
  -- the same.
  pub get_expected_share_difficulty-Grows :
      (sc sc' : ShareChain F) (h : ℕ)
      → Grows sc sc'
      → h ≢ genesis_hash
      → length (get_ordered_chain_walk sc (some h) target_lookbehind) ≡ target_lookbehind
      → get_expected_share_difficulty fl sc' (some h) ≡ get_expected_share_difficulty fl sc (some h)
  unfolding get_expected_share_difficulty
  get_expected_share_difficulty-Grows sc sc' h grows live full =
      ap (difficulty_of_walk fl) (get_ordered_chain_walk-Grows sc sc' h 199 grows live full)

  module _ (irrefl : (a : F) → flt a a ≡ false) where
    at_least_floor : (floor d : F) → flt (at_least fl floor d) floor ≡ false
    at_least_floor floor d = ground (arith, irrefl floor)

    difficulty_of_walk-floor :
        (w : List (Share F)) → flt (difficulty_of_walk fl w) (min_pool_share_diff fl) ≡ false
    unfolding difficulty_of_walk retarget
    difficulty_of_walk-floor w = elim (Option-cases (get_elem? w 0)) [
      | inl missing ↦ rw (missing, difficulty_of_walk) (irrefl _)
      | inr (newest, e) ↦ elim (Option-cases (get_elem? w 199)) [
        | inl missing ↦ rw (e, difficulty_of_walk, missing) (irrefl _)
        | inr (oldest, e') ↦ rw (e, difficulty_of_walk, e') (at_least_floor _ _)
      ]
    ]

    -- The expected difficulty is never below the pool's minimum, where no float64 is below itself.
    pub get_expected_share_difficulty-floor :
        (sc : ShareChain F) (prev : Option ℕ)
        → flt (get_expected_share_difficulty fl sc prev) (min_pool_share_diff fl) ≡ false
    unfolding get_expected_share_difficulty
    get_expected_share_difficulty-floor sc prev =
        difficulty_of_walk-floor (get_ordered_chain_walk sc prev target_lookbehind)
