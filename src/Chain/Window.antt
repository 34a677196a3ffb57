-- ===== src/Chain/Window.antt =====
-- The PPLNS window: `GetSharesForPayout` and `hasCompletePPLNSWindow` of work/sharechain.go.
-- `compact_to_big` is `blockchain.CompactToBig`.
use p2pool_go_vtc.Prelude.{
  ℕ, zero, suc, ◌+◌, ◌≡◌, refl, ◌⊎◌, inl, inr, Bool, true, false, ◌&&◌, ◌||◌, Option, none, some,
  List, [], ◌∷◌, length, leb, ◌==◌, if◌then◌else◌,
}
use p2pool_go_vtc.Prelude.Int.{ℤ, pos, ltb_ℤ, ◌-ℤ◌}
use p2pool_go_vtc.Prelude.Eq.{nat_Eq}
use p2pool_go_vtc.Prelude.Dict.{Dict, lookup}
use p2pool_go_vtc.Env.{Float64}
use p2pool_go_vtc.Share.{Share, get_prev_key, target_to_diff, prev_of, time_of, is_live}
use p2pool_go_vtc.Chain.{
  ShareChain, genesis_hash, default_pplns_window, max_pplns_window_age_secs, is_root, or_tip,
  next_key, at_least, get_expected_share_difficulty, get_effective_share_diff,
}

module _ (fl : Float64) where
  open fl use {F, fadd, fmul, flt, fle, lit, of_int}

  -- The running state of the loop of `GetSharesForPayout`: the newest share counted, with the work
  -- cap and the oldest time that it sets, the work so far and the shares counted so far.
  pub record PayWindow : Type 0 where
    pub opened : Bool
    pub cap_work : F
    pub cut : ℤ
    pub acc : F
    pub count : ℕ

  unfoldable pub start_window : PayWindow
  start_window = record {
    opened = false;
    cap_work = lit 0 1;
    cut = pos 0;
    acc = lit 0 1;
    count = 0;
  }

  module _ (compact_to_big : ℕ → ℤ) where
    -- `float64(win) * pDiff`, and at most twelve blocks' difficulty.
    pub work_cap : ℕ → F → Share F → F
    work_cap win p_diff first =
        let cap = fmul (of_int (pos win)) p_diff in
        let bd = target_to_diff fl (some (compact_to_big first.min_header.bits)) in
        if first.min_header.bits == 0
        then cap
        else if flt (lit 0 1) bd && flt (fmul bd (lit 12 1)) cap
        then fmul bd (lit 12 1)
        else cap

    -- `if first == nil { … }` and `validCount++`.
    unfoldable pub open_window : ℕ → F → PayWindow → Share F → PayWindow
    unfolding work_cap
    open_window win p_diff w s =
        let w' = if w.opened then w else record w {
          opened = true;
          cap_work = work_cap win p_diff s;
          cut = time_of s -ℤ pos max_pplns_window_age_secs;
        } in
        record w' { count = w'.count + 1 }

    -- What one live share does to the window: is it older than the window allows, is it selected,
    -- and is the window full after it?
    pub data Visit : Type 0 where
      too_old : Visit
      counted : (selected : Bool) (full : Bool) → PayWindow → Visit

    pub Visit-cases :
        (v : Visit)
        → (v ≡ too_old)
          ⊎ ((selected : Bool) × (full : Bool) × (w : PayWindow) × (v ≡ counted selected full w))
    Visit-cases too_old = inl refl
    Visit-cases (counted selected full w) = inr (selected, full, w, refl)

    unfoldable pub visit : ℕ → F → PayWindow → Share F → Visit
    unfolding open_window
    visit win p_diff w s =
        let w' = open_window win p_diff w s in
        let max_d = at_least fl (lit 16 1) (fmul p_diff (lit 4 1)) in
        let d = (get_effective_share_diff fl s).0 in
        if ltb_ℤ (time_of s) w'.cut
        then too_old
        else if flt (lit 0 1) d
        then (let w2 = record w' { acc = fadd w'.acc (if flt max_d d then max_d else d) } in
            counted true (fle w2.cap_work w2.acc || leb win w2.count) w2)
        else counted false (leb win w'.count) w'

    -- The loop of `GetSharesForPayout`.
    unfoldable pub payout_loop : ℕ → F → Dict ℕ (Share F) → ℕ → PayWindow → ℕ → List (Share F)
    payout_loop win p_diff shares zero w h = []
    payout_loop win p_diff shares (suc steps) w h = elim (lookup h shares) [
      | none ↦ []
      | some s ↦
          let below : PayWindow → List (Share F) = λ w'. elim (next_key s) [
            | none ↦ []
            | some p ↦ payout_loop win p_diff shares steps w' p
          ] in
          elim (is_live s) [
            | false ↦ below w
            | true ↦ elim (visit win p_diff w s) [
              | too_old ↦ []
              | counted true true w' ↦ s ∷ []
              | counted true false w' ↦ s ∷ below w'
              | counted false true w' ↦ []
              | counted false false w' ↦ below w'
            ]
          ]
    ]

    -- `GetSharesForPayout`; `win` is the window size, with 0 (or less) for the default.
    unfoldable pub get_shares_for_payout : ShareChain F → Option ℕ → ℕ → List (Share F)
    get_shares_for_payout sc tip win = elim (or_tip sc tip) [
      | none ↦ []
      | some h ↦
          if h == genesis_hash
          then []
          else payout_loop (if win == 0 then default_pplns_window else win)
              (get_expected_share_difficulty fl sc (some h)) sc.shares (length sc.shares + 1)
              start_window h
    ]

    -- The loop of `hasCompletePPLNSWindow`.
    unfoldable pub complete_loop : F → Dict ℕ (Share F) → ℕ → PayWindow → ℕ → Bool
    complete_loop p_diff shares zero w h = false
    complete_loop p_diff shares (suc steps) w h = elim (lookup h shares) [
      | none ↦ false
      | some s ↦
          let below : PayWindow → Bool = λ w'. elim (is_root (prev_of s)) [
            | true ↦ true
            | false ↦ elim (get_prev_key s).0 [
              | none ↦ false
              | some p ↦ complete_loop p_diff shares steps w' p
            ]
          ] in
          elim (is_live s) [
            | false ↦ below w
            | true ↦ elim (visit default_pplns_window p_diff w s) [
              | too_old ↦ true
              | counted _ true w' ↦ true
              | counted _ false w' ↦ below w'
            ]
          ]
    ]

    -- `hasCompletePPLNSWindow`
    unfoldable pub has_complete_pplns_window : ShareChain F → Option ℕ → Bool
    has_complete_pplns_window sc prev = elim prev [
      | none ↦ true
      | some h ↦
          if h == genesis_hash
          then true
          else complete_loop (get_expected_share_difficulty fl sc (some h)) sc.shares
              (length sc.shares + 1) start_window h
    ]
