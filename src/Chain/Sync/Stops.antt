-- ===== src/Chain/Sync/Stops.antt =====
-- The stops that a node sends with a request.
use p2pool_go_vtc.Prelude.{
  ℕ, zero, suc, ◌≤◌, ◌<◌, ◌≡◌, inl, inr, Bool, true, not, ◌&&◌, ◌||◌, List, [], ◌∷◌, filter, length,
  length-append, ltb, leb, ◌==◌, arith, Bool-cases, Option-cases, All, All-append,
}
use p2pool_go_vtc.Prelude.Eq.{nat_Eq}
use p2pool_go_vtc.Prelude.Dict.{Dict, keys, lookup, has}
use p2pool_go_vtc.Env.{Float64}
use p2pool_go_vtc.Share.{Share, get_prev_key}
use p2pool_go_vtc.Chain.{ShareChain}
use p2pool_go_vtc.Chain.Sync.{
  in_set, heads, ancestor, add_stop, stop_loop, insert_head, sort_heads, get_stop_hashes,
}
use p2pool_go_vtc.Chain.Sync.Replies.{AllNew, AllNew-append}

add_stop-New :
    (max h : ℕ) (out : List ℕ)
    → AllNew out × (0 < max → length out ≤ max)
    → AllNew (add_stop max h out) × (0 < max → length (add_stop max h out) ≤ max)
unfolding add_stop
add_stop-New max h out (new, few) =
    elim (Bool-cases (not (in_set h out) && (max == 0 || ltb (length out) max))) [
      | inl added ↦
          rw (add_stop, added)
            (
              AllNew-append out h new (ground arith),
              λ l. ground (arith, length-append out (h ∷ [])),
            )
      | inr kept ↦ rw (add_stop, kept) (new, few)
    ]

in_filter :
    (p : ℕ → Bool) (hs : List ℕ) (h : ℕ) → in_set h (filter p hs) ≡ true → in_set h hs ≡ true
in_filter p [] h e = e
in_filter p (x ∷ hs) h e = ground (arith, in_filter p hs h)

module _ {F : Type 0} where
  stop_loop-New :
      (shares : Dict ℕ (Share F)) (max : ℕ) (hs out : List ℕ)
      → AllNew out × (0 < max → length out ≤ max)
      → AllNew (stop_loop shares max hs out)
        × (0 < max → length (stop_loop shares max hs out) ≤ max)
  unfolding stop_loop
  stop_loop-New shares max [] out ok = ok
  stop_loop-New shares max (h ∷ hs) out ok = elim (Bool-cases (ltb 0 max && leb max (length out))) [
    | inl full ↦ rw (stop_loop, full) ok
    | inr room ↦
        rw (stop_loop, room)
          (stop_loop-New shares max hs _
            (add_stop-New max (ancestor shares 10 h) _ (add_stop-New max h out ok)))
  ]

  -- Every stop is held.
  abbrev pub AllHeld : Dict ℕ (Share F) → List ℕ → Type 0
  AllHeld shares hs = All (λ h. has h shares ≡ true) hs

  ancestor-held :
      (shares : Dict ℕ (Share F)) (steps h : ℕ)
      → has h shares ≡ true
      → has (ancestor shares steps h) shares ≡ true
  unfolding ancestor
  ancestor-held shares zero h held = held
  ancestor-held shares (suc steps) h held = elim (Option-cases (lookup h shares)) [
    | inl missing ↦ ground arith
    | inr (s, at) ↦ elim (Option-cases (get_prev_key s).0) [
      | inl no_key ↦ ground arith
      | inr (p, key) ↦ ground (arith, ancestor-held shares steps p)
    ]
  ]

  add_stop-AllHeld :
      (shares : Dict ℕ (Share F)) (max h : ℕ) (out : List ℕ)
      → has h shares ≡ true
      → AllHeld shares out
      → AllHeld shares (add_stop max h out)
  unfolding add_stop
  add_stop-AllHeld shares max h out held all =
      elim (Bool-cases (not (in_set h out) && (max == 0 || ltb (length out) max))) [
        | inl added ↦
            rw (add_stop, added) (All-append (λ g. has g shares ≡ true) out (h ∷ []) all (held, tt))
        | inr kept ↦ rw (add_stop, kept) all
      ]

  stop_loop-AllHeld :
      (shares : Dict ℕ (Share F)) (max : ℕ) (hs out : List ℕ)
      → AllHeld shares hs
      → AllHeld shares out
      → AllHeld shares (stop_loop shares max hs out)
  unfolding stop_loop
  stop_loop-AllHeld shares max [] out held all = all
  stop_loop-AllHeld shares max (h ∷ hs) out held all =
      elim (Bool-cases (ltb 0 max && leb max (length out))) [
        | inl full ↦ rw (stop_loop, full) all
        | inr room ↦
            rw (stop_loop, room)
              (stop_loop-AllHeld shares max hs _ held.1 (
                add_stop-AllHeld shares max (ancestor shares 10 h) _
                  (ancestor-held shares 10 h held.0)
                  (add_stop-AllHeld shares max h out held.0 all)))
      ]

  -- Each key of a map is held.
  keys-AllHeld :
      (shares : Dict ℕ (Share F)) (hs : List ℕ)
      → ((h : ℕ) → in_set h hs ≡ true → has h shares ≡ true)
      → AllHeld shares hs
  keys-AllHeld shares [] all = tt
  keys-AllHeld shares (h ∷ hs) all =
      (all h (ground arith), keys-AllHeld shares hs (λ g e. all g (ground arith)))

  in_keys :
      (shares : Dict ℕ (Share F)) (h : ℕ) → in_set h (keys shares) ≡ true → has h shares ≡ true
  in_keys [] h e = ground arith
  in_keys (x ∷ shares) h e = ground (arith, in_keys shares h)

module _ (fl : Float64) where
  open fl use {F}

  in_insert_head :
      (cum_work : Dict ℕ F) (x : ℕ) (hs : List ℕ) (h : ℕ)
      → in_set h (insert_head fl cum_work x hs) ≡ true
      → ((x == h) || in_set h hs) ≡ true
  unfolding insert_head
  in_insert_head cum_work x [] h e = e
  in_insert_head cum_work x (g ∷ gs) h e = ground (arith, in_insert_head cum_work x gs h)

  in_sort_heads :
      (cum_work : Dict ℕ F) (hs : List ℕ) (h : ℕ)
      → in_set h (sort_heads fl cum_work hs) ≡ true
      → in_set h hs ≡ true
  unfolding sort_heads
  in_sort_heads cum_work [] h e = e
  in_sort_heads cum_work (x ∷ hs) h e =
      ground (
        arith,
        in_insert_head cum_work x (sort_heads fl cum_work hs) h,
        in_sort_heads cum_work hs h,
      )

  heads-AllHeld : (sc : ShareChain F) → AllHeld sc.shares (heads fl sc)
  unfolding heads
  heads-AllHeld sc = keys-AllHeld sc.shares (heads fl sc) (λ h e.
      in_keys sc.shares h (in_filter _ (keys sc.shares) h (in_sort_heads sc.cum_work _ h e)))

  -- The stops of a request are held by the node, all different, and no more than the limit where there
  -- is one.
  pub get_stop_hashes-AllHeld :
      (sc : ShareChain F) (max : ℕ)
      → AllHeld sc.shares (get_stop_hashes fl sc max)
        × AllNew (get_stop_hashes fl sc max)
        × (0 < max → length (get_stop_hashes fl sc max) ≤ max)
  unfolding get_stop_hashes
  get_stop_hashes-AllHeld sc max =
      let (new, few) = stop_loop-New sc.shares max (heads fl sc) [] (tt, λ l. ground arith) in
      (stop_loop-AllHeld sc.shares max (heads fl sc) [] (heads-AllHeld sc) tt, new, few)
