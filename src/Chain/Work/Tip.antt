-- ===== src/Chain/Work/Tip.antt =====
-- Which share `selectTipLocked` and `considerTipLocked` of work/sharechain.go make the tip.
use p2pool_go_vtc.Prelude.{
  ℕ, ◌≡◌, refl, ◌⊎◌, inl, inr, Bool, true, false, ◌&&◌, none, some, List, [], ◌∷◌, ◌==◌, arith,
  Bool-cases, Option-cases, sym, ap, ◌∙◌, subst,
}
use p2pool_go_vtc.Prelude.Eq.{nat_Eq}
use p2pool_go_vtc.Prelude.Dict.{Dict, lookup, get_or, keys}
use p2pool_go_vtc.Env.{Float64}
use p2pool_go_vtc.Share.{Share}
use p2pool_go_vtc.Chain.{ShareChain}
use p2pool_go_vtc.Chain.Sync.{in_set}
use p2pool_go_vtc.Chain.Index.{is_tip_candidate}
use p2pool_go_vtc.Chain.Work.{
  better_tip, Best, beats, hash_of, try_tip, best_of, set_tip, select_tip, standing_tip,
  consider_tip,
}

module _ (fl : Float64) where
  open fl use {F, lit}

  -- Does one share beat another for the tip?
  abbrev pub outdoes : ShareChain F → ℕ → ℕ → Bool
  outdoes sc g h =
      better_tip fl (get_or (lit 0 1) g sc.cum_work) g (get_or (lit 0 1) h sc.cum_work) h

  -- The candidates are ordered: none beats itself, what does not beat a share does not beat a better
  -- one, and of two different ones one beats the other. With works closer than the tolerance of `betterTip` this can fail.
  pub record Ordered (sc : ShareChain F) : Type 0 where
    pub irrefl : (h : ℕ) → is_tip_candidate sc h ≡ true → outdoes sc h h ≡ false
    pub not_better :
        (x b h : ℕ)
        → is_tip_candidate sc x ≡ true
        → is_tip_candidate sc b ≡ true
        → is_tip_candidate sc h ≡ true
        → outdoes sc h b ≡ true
        → outdoes sc x b ≡ false
        → outdoes sc x h ≡ false
    pub total :
        (g h : ℕ)
        → is_tip_candidate sc g ≡ true
        → is_tip_candidate sc h ≡ true
        → outdoes sc g h ≡ false
        → outdoes sc h g ≡ false
        → g ≡ h

  -- A best share: a candidate with its own hash and work.
  pub record Holds (sc : ShareChain F) (t : ℕ) (w : F) (s : ℕ) : Type 0 where
    pub candidate : is_tip_candidate sc s ≡ true
    pub hash : hash_of fl sc s ≡ some t
    pub work : w ≡ get_or (lit 0 1) s sc.cum_work

  abbrev Right : ShareChain F → Best fl → Type 0
  Right sc none = Unit
  Right sc (some (t, w, s)) = Holds sc t w s

  candidate_hash :
      (sc : ShareChain F) (h : ℕ)
      → is_tip_candidate sc h ≡ true
      → (t : ℕ) × (hash_of fl sc h ≡ some t)
  unfolding is_tip_candidate
  candidate_hash sc h cand = elim (Option-cases (lookup h sc.shares)) [
    | inl missing ↦ absurd (ground arith)
    | inr (sh, held) ↦ elim (Option-cases sh.hash) [
      | inl no_hash ↦ absurd (ground arith)
      | inr (t, at) ↦ (t, ground arith)
    ]
  ]

  -- What one step makes of the best so far.
  data Step (sc : ShareChain F) (h : ℕ) (best best' : Best fl) : Type 0 where
    takes :
        (t : ℕ)
        → is_tip_candidate sc h ≡ true
        → beats fl sc h best ≡ true
        → hash_of fl sc h ≡ some t
        → best' ≡ some (t, get_or (lit 0 1) h sc.cum_work, h)
        → Step sc h best best'
    leaves :
        (is_tip_candidate sc h && beats fl sc h best) ≡ false → best' ≡ best → Step sc h best best'

  try_tip-Step :
      (sc : ShareChain F) (h : ℕ) (best : Best fl) → Step sc h best (try_tip fl sc h best)
  unfolding try_tip
  try_tip-Step sc h best = elim (Bool-cases (is_tip_candidate sc h && beats fl sc h best)) [
    | inr left ↦ leaves left (rw (try_tip, left) refl)
    | inl better ↦
        let (t, at) = candidate_hash sc h (ground arith) in
        takes t (ground arith) (ground arith) at (rw (try_tip, better, at) refl)
  ]

  step-Right :
      (sc : ShareChain F) (h : ℕ) (best best' : Best fl)
      → Step sc h best best'
      → Right sc best
      → Right sc best'
  step-Right sc h best best' (takes t cand better at e) right =
      subst (Right sc) (sym e) (record { candidate = cand; hash = at; work = refl })
  step-Right sc h best best' (leaves left e) right = subst (Right sc) (sym e) right

  best_of-Right :
      (sc : ShareChain F) (hs : List ℕ) (best : Best fl)
      → Right sc best
      → Right sc (best_of fl sc hs best)
  unfolding best_of
  best_of-Right sc [] best right = right
  best_of-Right sc (h ∷ hs) best right =
      best_of-Right sc hs (try_tip fl sc h best)
        (step-Right sc h best _ (try_tip-Step sc h best) right)

  -- A candidate that does not beat the best does not beat the next best.
  step_keeps :
      (sc : ShareChain F) (h x : ℕ) (best best' : Best fl)
      → Ordered sc
      → Right sc best
      → is_tip_candidate sc x ≡ true
      → Step sc h best best'
      → beats fl sc x best ≡ false
      → beats fl sc x best' ≡ false
  unfolding beats
  step_keeps sc h x none best' ord right cand (takes t cand_h better at e) worse =
      absurd (ground arith)
  step_keeps sc h x (some (t', w, s)) best' ord right cand (takes t cand_h better at e) worse =
      subst (λ b. beats fl sc x b ≡ false) (sym e)
        (ord.not_better x s h cand right.candidate cand_h (rw (← right.work) better)
          (rw (← right.work) worse))
  step_keeps sc h x best best' ord right cand (leaves left e) worse =
      subst (λ b. beats fl sc x b ≡ false) (sym e) worse

  -- The candidate of a step does not beat what comes out.
  step_tops :
      (sc : ShareChain F) (h : ℕ) (best best' : Best fl)
      → Ordered sc
      → is_tip_candidate sc h ≡ true
      → Step sc h best best'
      → beats fl sc h best' ≡ false
  unfolding beats
  step_tops sc h best best' ord cand (takes t cand_h better at e) =
      subst (λ b. beats fl sc h b ≡ false) (sym e) (ord.irrefl h cand)
  step_tops sc h best best' ord cand (leaves left e) =
      subst (λ b. beats fl sc h b ≡ false) (sym e) (ground arith)

  best_of-top :
      (sc : ShareChain F) (hs : List ℕ) (best : Best fl) (x : ℕ)
      → Ordered sc
      → Right sc best
      → is_tip_candidate sc x ≡ true
      → (in_set x hs ≡ true) ⊎ (beats fl sc x best ≡ false)
      → beats fl sc x (best_of fl sc hs best) ≡ false
  unfolding best_of
  best_of-top sc [] best x ord right cand (inl there) = absurd (ground arith)
  best_of-top sc [] best x ord right cand (inr worse) = worse
  best_of-top sc (h ∷ hs) best x ord right cand place =
      let stepped = try_tip-Step sc h best in
      best_of-top sc hs (try_tip fl sc h best) x ord (step-Right sc h best _ stepped right) cand
        (elim place [
          | inr worse ↦ inr (step_keeps sc h x best _ ord right cand stepped worse)
          | inl there ↦ elim (Bool-cases (h == x)) [
            | inl here ↦ inr (
                subst (λ y. beats fl sc y (try_tip fl sc h best) ≡ false) (ground arith)
                  (step_tops sc h best _ ord
                    (subst (λ y. is_tip_candidate sc y ≡ true) (ground arith) cand) stepped))
            | inr other ↦ inl (ground arith)
          ]
        ])

  -- The best candidate of a chain.
  pub record Top (sc : ShareChain F) (s : ℕ) : Type 0 where
    pub candidate : is_tip_candidate sc s ≡ true
    pub top : (y : ℕ) → is_tip_candidate sc y ≡ true → outdoes sc y s ≡ false

  in_keys :
      (shares : Dict ℕ (Share F)) (h : ℕ) (s : Share F)
      → lookup h shares ≡ some s
      → in_set h (keys shares) ≡ true
  in_keys [] h s e = absurd (ground arith)
  in_keys (x ∷ shares) h s e = ground (arith, in_keys shares h s)

  candidate_in_keys :
      (sc : ShareChain F) (h : ℕ) → is_tip_candidate sc h ≡ true → in_set h (keys sc.shares) ≡ true
  unfolding is_tip_candidate
  candidate_in_keys sc h cand = elim (Option-cases (lookup h sc.shares)) [
    | inl missing ↦ absurd (ground arith)
    | inr (s, held) ↦ in_keys sc.shares h s held
  ]

  -- A best share that no candidate beats is the tip that is set.
  set_tip-Top :
      (sc : ShareChain F) (best : Best fl) (x : ℕ)
      → Right sc best
      → is_tip_candidate sc x ≡ true
      → ((y : ℕ) → is_tip_candidate sc y ≡ true → beats fl sc y best ≡ false)
      → (s : ℕ) × Top sc s × ((set_tip fl best sc).tip_hash ≡ hash_of fl sc s)
  unfolding beats
  set_tip-Top sc none x right cand worse = absurd (ground (arith, worse x cand))
  set_tip-Top sc (some (t, w, s)) x right cand worse = (
    s,
    record { candidate = right.candidate; top = λ y c. rw (← right.work) (worse y c) },
    sym right.hash,
  )

  -- Where the candidates are ordered and there is one, `selectTipLocked` sets the tip to the candidate
  -- that no other beats, whatever the order of the shares.
  pub select_tip-Top :
      (sc : ShareChain F) (x : ℕ)
      → Ordered sc
      → is_tip_candidate sc x ≡ true
      → (s : ℕ) × Top sc s × ((select_tip fl sc).tip_hash ≡ hash_of fl sc s)
  unfolding select_tip
  select_tip-Top sc x ord cand =
      set_tip-Top sc (best_of fl sc (keys sc.shares) none) x
        (best_of-Right sc (keys sc.shares) none tt) cand
        (λ y c. best_of-top sc (keys sc.shares) none y ord tt c (inl (candidate_in_keys sc y c)))

  standing_tip-Right :
      (sc : ShareChain F)
      → ((t : ℕ) → sc.tip_hash ≡ some t → is_tip_candidate sc t ≡ true → hash_of fl sc t ≡ some t)
      → Right sc (standing_tip fl sc)
  unfolding standing_tip is_tip_candidate
  standing_tip-Right sc own = elim (Option-cases sc.tip_hash) [
    | inl no_tip ↦ rw (standing_tip, no_tip) tt
    | inr (t, at) ↦ elim (Bool-cases (is_tip_candidate sc t)) [
      | inl cand ↦
          rw (standing_tip, at, cand)
            (record { candidate = cand; hash = own t at cand; work = refl })
      | inr other ↦ rw (standing_tip, at, other) tt
    ]
  ]

  -- Where the candidates are ordered, the tip is stored under its own hash, and every candidate is among
  -- the shares considered or does not beat the standing tip, `considerTipLocked` sets the tip that
  -- `selectTipLocked` would.
  pub consider_tip-select_tip :
      (sc : ShareChain F) (hs : List ℕ) (x : ℕ)
      → Ordered sc
      → is_tip_candidate sc x ≡ true
      → ((t : ℕ) → sc.tip_hash ≡ some t → is_tip_candidate sc t ≡ true → hash_of fl sc t ≡ some t)
      → ((y : ℕ)
          → is_tip_candidate sc y ≡ true
          → (in_set y hs ≡ true) ⊎ (beats fl sc y (standing_tip fl sc) ≡ false))
      → (consider_tip fl hs sc).tip_hash ≡ (select_tip fl sc).tip_hash
  unfolding consider_tip
  consider_tip-select_tip sc hs x ord cand own place =
      let right = standing_tip-Right sc own in
      let (s, best, tip) = select_tip-Top sc x ord cand in
      let (s', best', tip') =
        set_tip-Top sc (best_of fl sc hs (standing_tip fl sc)) x
          (best_of-Right sc hs (standing_tip fl sc) right) cand
          (λ y c. best_of-top sc hs (standing_tip fl sc) y ord right c (place y c)) in
      let same : s' ≡ s =
        ord.total s' s best'.candidate best.candidate (best.top s' best'.candidate)
          (best'.top s best.candidate) in
      tip' ∙ ap (hash_of fl sc) same ∙ sym tip
