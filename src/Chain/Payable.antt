-- ===== src/Chain/Payable.antt =====
-- What `GetSharesForPayout` selects in two stores that both have the window complete.
use p2pool_go_vtc.Prelude.{
  ℕ, zero, suc, ◌+◌, ◌≤◌, ◌≡◌, ◌≢◌, inl, inr, true, some, length, arith, Option-cases,
}
use p2pool_go_vtc.Prelude.Int.{ℤ}
use p2pool_go_vtc.Prelude.Eq.{nat_Eq}
use p2pool_go_vtc.Prelude.Dict.{Dict, lookup}
use p2pool_go_vtc.Env.{Float64}
use p2pool_go_vtc.Share.{Share}
use p2pool_go_vtc.Chain.{
  ShareChain, genesis_hash, default_pplns_window, next_key, get_expected_share_difficulty,
}
use p2pool_go_vtc.Chain.Walks.{Extends, Grows}
use p2pool_go_vtc.Chain.Window.{
  PayWindow, start_window, Visit-cases, visit, payout_loop, get_shares_for_payout, complete_loop,
  has_complete_pplns_window,
}

module _ (fl : Float64) (compact_to_big : ℕ → ℤ) where
  open fl use {F, flt, fle, lit}

  -- A window that is complete in one store selects the same shares in a larger one.
  payout_loop-Extends :
      (p_diff : F) (shares shares' : Dict ℕ (Share F)) (steps steps' : ℕ) (w : PayWindow fl) (h : ℕ)
      → Extends shares shares'
      → steps ≤ steps'
      → complete_loop fl compact_to_big p_diff shares steps w h ≡ true
      → payout_loop fl compact_to_big default_pplns_window p_diff shares' steps' w h
        ≡ payout_loop fl compact_to_big default_pplns_window p_diff shares steps w h
  unfolding payout_loop complete_loop
  payout_loop-Extends p_diff shares shares' zero steps' w h ext le done = cc
  payout_loop-Extends p_diff shares shares' (suc steps) zero w h ext le done = absurd (omega arith)
  payout_loop-Extends p_diff shares shares' (suc steps) (suc steps') w h ext le done =
      elim (Option-cases (lookup h shares)) [
        | inl missing ↦ absurd (ground arith)
        | inr (s, held) ↦
            elim (Visit-cases fl compact_to_big
              (visit fl compact_to_big default_pplns_window p_diff w s)) [
                | inl old ↦ elim (Option-cases (next_key s)) [
                  | inl last ↦ ground (arith, ext h s held)
                  | inr (p, more) ↦ ground (
                    arith,
                    ext h s held,
                    payout_loop-Extends p_diff shares shares' steps steps' w p ext,
                  )
                ]
                | inr (sel, full, w', at) ↦ elim (Option-cases (next_key s)) [
                  | inl last ↦ ground (arith, ext h s held)
                  | inr (p, more) ↦ ground (
                    arith,
                    ext h s held,
                    payout_loop-Extends p_diff shares shares' steps steps' w p ext,
                    payout_loop-Extends p_diff shares shares' steps steps' w' p ext,
                  )
                ]
              ]
      ]

  -- Where hasCompletePPLNSWindow holds at a hash other than genesis, every store that holds all
  -- these shares, and more, selects the same shares for the payout, provided that it expects the
  -- same difficulty.
  pub get_shares_for_payout-Grows :
      (sc sc' : ShareChain F) (h : ℕ)
      → Grows sc sc'
      → h ≢ genesis_hash
      → get_expected_share_difficulty fl sc' (some h) ≡ get_expected_share_difficulty fl sc (some h)
      → has_complete_pplns_window fl compact_to_big sc (some h) ≡ true
      → get_shares_for_payout fl compact_to_big sc' (some h) default_pplns_window
        ≡ get_shares_for_payout fl compact_to_big sc (some h) default_pplns_window
  unfolding get_shares_for_payout has_complete_pplns_window
  get_shares_for_payout-Grows sc sc' h grows live same done = ground (
    arith,
    payout_loop-Extends (get_expected_share_difficulty fl sc (some h)) sc.shares sc'.shares
        (length sc.shares + 1) (length sc'.shares + 1) (start_window fl) h grows.kept,
    grows.larger,
  )
