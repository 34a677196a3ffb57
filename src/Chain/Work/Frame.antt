-- ===== src/Chain/Work/Frame.antt =====
-- What moving the tip leaves as it is.
use p2pool_go_vtc.Prelude.{ℕ, ◌≡◌, refl, Option, none, some, List}
use p2pool_go_vtc.Prelude.Dict.{keys}
use p2pool_go_vtc.Env.{Float64}
use p2pool_go_vtc.Chain.{ShareChain}
use p2pool_go_vtc.Chain.Work.{set_tip, select_tip, best_of, standing_tip, consider_tip}

module _ (fl : Float64) where
  open fl use {F}

  pub consider_tip-kept :
      (hs : List ℕ) (sc : ShareChain F)
      → ((consider_tip fl hs sc).shares ≡ sc.shares)
        × ((consider_tip fl hs sc).verified ≡ sc.verified)
        × ((consider_tip fl hs sc).dirty ≡ sc.dirty)
  unfolding consider_tip
  consider_tip-kept hs sc = by_best (best_of fl sc hs (standing_tip fl sc))
    where
      by_best :
          (best : Option (ℕ × F × ℕ))
          → ((set_tip fl best sc).shares ≡ sc.shares)
            × ((set_tip fl best sc).verified ≡ sc.verified)
            × ((set_tip fl best sc).dirty ≡ sc.dirty)
      by_best none = (refl, refl, refl)
      by_best (some (t, w, s)) = (refl, refl, refl)

  set_tip-frame :
      (best : Option (ℕ × F × ℕ)) (sc : ShareChain F)
      → (t : Option ℕ) × (set_tip fl best sc ≡ record sc { tip_hash = t })
  set_tip-frame none sc = (sc.tip_hash, refl)
  set_tip-frame (some (t, w, s)) sc = (some t, refl)

  pub consider_tip-frame :
      (hs : List ℕ) (sc : ShareChain F)
      → (t : Option ℕ) × (consider_tip fl hs sc ≡ record sc { tip_hash = t })
  unfolding consider_tip
  consider_tip-frame hs sc = set_tip-frame (best_of fl sc hs (standing_tip fl sc)) sc

  pub select_tip-frame :
      (sc : ShareChain F) → (t : Option ℕ) × (select_tip fl sc ≡ record sc { tip_hash = t })
  unfolding select_tip
  select_tip-frame sc = set_tip-frame (best_of fl sc (keys sc.shares) none) sc
