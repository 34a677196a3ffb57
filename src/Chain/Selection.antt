-- ===== src/Chain/Selection.antt =====
-- Which shares `GetSharesForPayout` selects.
use p2pool_go_vtc.Prelude.{
  ℕ, zero, suc, ◌+◌, ◌≤◌, ◌<◌, ◌≡◌, refl, inl, inr, Bool, true, false, Option, some, length, All,
  head?, filter, if◌then◌else◌, arith, Option-cases,
}
use p2pool_go_vtc.Prelude.Int.{ℤ, pos, ◌≤ℤ◌, ◌-ℤ◌}
use p2pool_go_vtc.Prelude.Eq.{nat_Eq}
use p2pool_go_vtc.Prelude.Dict.{Dict, lookup}
use p2pool_go_vtc.Env.{Float64}
use p2pool_go_vtc.Share.{Share, is_live, time_of}
use p2pool_go_vtc.Chain.{
  ShareChain, max_pplns_window_age_secs, or_tip, next_key, get_effective_share_diff,
  get_expected_share_difficulty,
}
use p2pool_go_vtc.Chain.Walks.{ancestry, live_ancestry}
use p2pool_go_vtc.Chain.Window.{
  PayWindow, start_window, open_window, counted, Visit-cases, visit, payout_loop,
  get_shares_for_payout,
}

module _ (fl : Float64) (compact_to_big : ℕ → ℤ) where
  open fl use {F, flt, fle, lit}

  -- A live share with a positive credit that is not older than a time.
  abbrev pub Paid : ℤ → Share F → Type 0
  Paid cut s =
      (is_live s ≡ true)
      × (flt (lit 0 1) (get_effective_share_diff fl s).0 ≡ true)
      × (cut ≤ℤ time_of s)

  -- One visit of a share that is not too old.
  visit-counted :
      (win : ℕ) (p_diff : F) (w w' : PayWindow fl) (s : Share F) {sel full : Bool}
      → visit fl compact_to_big win p_diff w s ≡ counted sel full w'
      → (w'.opened ≡ true)
        × (w'.cut ≡ (if w.opened then w.cut else time_of s -ℤ pos max_pplns_window_age_secs))
        × (w'.cut ≤ℤ time_of s)
        × (sel ≡ true → flt (lit 0 1) (get_effective_share_diff fl s).0 ≡ true)
        × (w'.count ≡ w.count + 1)
        × (full ≡ false → w'.count < win)
  unfolding visit open_window
  visit-counted win p_diff w w' s e = ground arith

  payout_loop-Paid :
      (win : ℕ) (p_diff : F) (shares : Dict ℕ (Share F)) (steps : ℕ) (w : PayWindow fl) (h : ℕ)
      → w.opened ≡ true
      → All (Paid w.cut) (payout_loop fl compact_to_big win p_diff shares steps w h)
  unfolding payout_loop
  payout_loop-Paid win p_diff shares zero w h started = tt
  payout_loop-Paid win p_diff shares (suc steps) w h started =
      elim (Option-cases (lookup h shares)) [
        | inl missing ↦ rw (missing, payout_loop) tt
        | inr (s, held) ↦
            elim (Visit-cases fl compact_to_big (visit fl compact_to_big win p_diff w s)) [
              | inl old ↦ elim (Option-cases (next_key s)) [
                | inl last ↦ ground arith
                | inr (p, more) ↦
                    ground (arith, payout_loop-Paid win p_diff shares steps w p started)
              ]
              | inr (sel, full, w', at) ↦
                  let (o, c, t, credit, _, _) = visit-counted win p_diff w w' s at in
                  elim (Option-cases (next_key s)) [
                    | inl last ↦ ground arith
                    | inr (p, more) ↦ ground (
                      arith,
                      payout_loop-Paid win p_diff shares steps w p started,
                      payout_loop-Paid win p_diff shares steps w' p o,
                    )
                  ]
            ]
      ]

  -- From the first live share on.
  payout_loop-newest :
      (win : ℕ) (p_diff : F) (shares : Dict ℕ (Share F)) (steps : ℕ) (w : PayWindow fl) (h : ℕ)
      (newest : Share F)
      → w.opened ≡ false
      → head? (filter is_live (ancestry shares steps h)) ≡ some newest
      → All
          (Paid (time_of newest -ℤ pos max_pplns_window_age_secs))
          (payout_loop fl compact_to_big win p_diff shares steps w h)
  unfolding payout_loop ancestry
  payout_loop-newest win p_diff shares zero w h newest shut e = tt
  payout_loop-newest win p_diff shares (suc steps) w h newest shut e =
      elim (Option-cases (lookup h shares)) [
        | inl missing ↦ rw (missing, payout_loop) tt
        | inr (s, held) ↦
            elim (Visit-cases fl compact_to_big (visit fl compact_to_big win p_diff w s)) [
              | inl old ↦ elim (Option-cases (next_key s)) [
                | inl last ↦ ground arith
                | inr (p, more) ↦
                    ground (arith, payout_loop-newest win p_diff shares steps w p newest shut)
              ]
              | inr (sel, full, w', at) ↦
                  let (o, c, t, credit, _, _) = visit-counted win p_diff w w' s at in
                  elim (Option-cases (next_key s)) [
                    | inl last ↦ ground arith
                    | inr (p, more) ↦ ground (
                      arith,
                      payout_loop-newest win p_diff shares steps w p newest shut,
                      payout_loop-Paid win p_diff shares steps w' p o,
                    )
                  ]
            ]
      ]

  length-payout_loop :
      (win : ℕ) (p_diff : F) (shares : Dict ℕ (Share F)) (steps : ℕ) (w : PayWindow fl) (h : ℕ)
      → w.count < win
      → length (payout_loop fl compact_to_big win p_diff shares steps w h) + w.count ≤ win
  unfolding payout_loop
  length-payout_loop win p_diff shares zero w h room = omega arith
  length-payout_loop win p_diff shares (suc steps) w h room =
      elim (Option-cases (lookup h shares)) [
        | inl missing ↦ ground arith
        | inr (s, held) ↦
            elim (Visit-cases fl compact_to_big (visit fl compact_to_big win p_diff w s)) [
              | inl old ↦ elim (Option-cases (next_key s)) [
                | inl last ↦ ground arith
                | inr (p, more) ↦
                    ground (arith, length-payout_loop win p_diff shares steps w p room)
              ]
              | inr (sel, full, w', at) ↦
                  let (_, _, _, _, count, below) = visit-counted win p_diff w w' s at in
                  elim (Option-cases (next_key s)) [
                    | inl last ↦ ground arith
                    | inr (p, more) ↦ ground (
                      arith,
                      length-payout_loop win p_diff shares steps w p room,
                      length-payout_loop win p_diff shares steps w' p,
                    )
                  ]
            ]
      ]

  -- For a positive window, the shares selected for a payout on a chain with a live share are
  -- live, have a positive credit, are at most 36 hours older than the newest live share of the
  -- chain, and are not more than the window.
  pub get_shares_for_payout-Paid :
      (sc : ShareChain F) (tip : Option ℕ) (win : ℕ) (newest : Share F)
      → 0 < win
      → head? (live_ancestry sc tip) ≡ some newest
      → All
          (Paid (time_of newest -ℤ pos max_pplns_window_age_secs))
          (get_shares_for_payout fl compact_to_big sc tip win)
        × (length (get_shares_for_payout fl compact_to_big sc tip win) ≤ win)
  unfolding get_shares_for_payout live_ancestry start_window
  get_shares_for_payout-Paid sc tip win newest some_room e = elim (Option-cases (or_tip sc tip)) [
    | inl missing ↦ ground arith
    | inr (h, at) ↦ ground (
      arith,
      payout_loop-newest win (get_expected_share_difficulty fl sc (some h)) sc.shares
          (length sc.shares + 1) (start_window fl) h newest refl,
      length-payout_loop win (get_expected_share_difficulty fl sc (some h)) sc.shares
          (length sc.shares + 1) (start_window fl) h,
    )
  ]
