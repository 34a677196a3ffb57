-- ===== src/Chain/Sync/Wants.antt =====
-- Which missing parents a node asks for.
use p2pool_go_vtc.Prelude.{
  ℕ, zero, suc, ◌+◌, ◌≤◌, ◌<◌, ◌≡◌, inl, inr, ◌&&◌, ◌||◌, Option, none, some, List, [], ◌∷◌, ◌++◌,
  length, length-append, ltb, leb, arith, Bool-cases, Option-cases, All, All-append,
}
use p2pool_go_vtc.Prelude.Int.{ℤ, pos, ◌-ℤ◌}
use p2pool_go_vtc.Prelude.Eq.{nat_Eq}
use p2pool_go_vtc.Prelude.Dict.{Dict, lookup, insert, lookup-insert}
use p2pool_go_vtc.Env.{Float64}
use p2pool_go_vtc.Share.{Share, prev_of, get_prev_key, max_share_age}
use p2pool_go_vtc.Chain.{ShareChain, is_root}
use p2pool_go_vtc.Chain.Sync.{
  in_set, tail_loop, remember, missing_tail, skips_head, missing_loop, heads,
  get_missing_parent_hashes,
}
use p2pool_go_vtc.Chain.Sync.Replies.{AllNew, AllNew-append}

-- No hash of the list is held.
abbrev pub AllMissing : {F : Type 0} → Dict ℕ (Share F) → List ℕ → Type 0
AllMissing shares hs = All (λ h. lookup h shares ≡ none) hs

module _ {F : Type 0} where
  -- Every tail in the memo is missing.
  abbrev Memo : Dict ℕ (Share F) → Dict ℕ (Option ℕ) → Type 0
  Memo shares tails = (h t : ℕ) → lookup h tails ≡ some (some t) → lookup t shares ≡ none

  tail_loop-missing :
      (shares : Dict ℕ (Share F)) (tails : Dict ℕ (Option ℕ)) (steps : ℕ) (path : List ℕ)
      (cur t : ℕ)
      → Memo shares tails
      → (tail_loop shares tails steps path cur).0 ≡ some t
      → lookup t shares ≡ none
  unfolding tail_loop
  tail_loop-missing shares tails zero path cur t memo e = absurd (ground arith)
  tail_loop-missing shares tails (suc steps) path cur t memo e =
      elim (Option-cases (lookup cur tails)) [
        | inr (known, at) ↦ ground (arith, memo cur t)
        | inl unknown ↦ elim (Option-cases (lookup cur shares)) [
          | inl missing ↦ ground arith
          | inr (s, held) ↦
              elim (Bool-cases (is_root (prev_of s) || ltb (length shares) (length path + 1))) [
                | inl ends ↦ absurd (ground arith)
                | inr goes ↦ elim (Option-cases (get_prev_key s).0) [
                  | inl no_key ↦ absurd (ground arith)
                  | inr (p, key) ↦
                      tail_loop-missing shares tails steps (cur ∷ path) p t memo (ground arith)
                ]
              ]
        ]
      ]

  remember-Memo :
      (shares : Dict ℕ (Share F)) (tail : Option ℕ) (path : List ℕ) (tails : Dict ℕ (Option ℕ))
      → ((t : ℕ) → tail ≡ some t → lookup t shares ≡ none)
      → Memo shares tails
      → Memo shares (remember tail path tails)
  unfolding remember
  remember-Memo shares tail [] tails missing memo = memo
  remember-Memo shares tail (p ∷ path) tails missing memo =
      remember-Memo shares tail path (insert p tail tails) missing
        (λ h t e. ground (arith, lookup-insert p h tail tails, missing t, memo h t))

  missing_loop-Missing :
      (sc : ShareChain F) (cut : ℤ) (max : ℕ) (hs : List ℕ) (tails : Dict ℕ (Option ℕ))
      (out : List ℕ)
      → Memo sc.shares tails
      → AllMissing sc.shares out × AllNew out × (0 < max → length out < max)
      → AllMissing sc.shares (missing_loop sc cut max hs tails out)
        × AllNew (missing_loop sc cut max hs tails out)
        × (0 < max → length (missing_loop sc cut max hs tails out) ≤ max)
  unfolding missing_loop missing_tail
  missing_loop-Missing sc cut max [] tails out memo (missing, new, room) =
      (missing, new, λ l. ground arith)
  missing_loop-Missing sc cut max (h ∷ hs) tails out memo (missing, new, room) =
      let found = tail_loop sc.shares tails (length sc.shares + 2) [] h in
      let memo' =
        remember-Memo sc.shares found.0 found.1 tails
          (λ t e. tail_loop-missing sc.shares tails (length sc.shares + 2) [] h t memo e) memo in
      elim (Bool-cases (skips_head sc cut h)) [
        | inl skipped ↦
            rw (missing_loop, skipped)
              (missing_loop-Missing sc cut max hs tails out memo (missing, new, room))
        | inr taken ↦ elim (Option-cases found.0) [
          | inl to_genesis ↦
              rw (missing_loop, taken, to_genesis)
                (missing_loop-Missing sc cut max hs (remember found.0 found.1 tails) out memo'
                  (missing, new, room))
          | inr (t, tail) ↦ elim (Bool-cases (in_set t out)) [
            | inl known ↦
                rw (missing_loop, taken, tail, known)
                  (missing_loop-Missing sc cut max hs (remember found.0 found.1 tails) out memo'
                    (missing, new, room))
            | inr fresh ↦
                let missing' =
                  All-append (λ g. lookup g sc.shares ≡ none) out (t ∷ []) missing
                    (
                      tail_loop-missing sc.shares tails (length sc.shares + 2) [] h t memo tail,
                      tt,
                    ) in
                let new' = AllNew-append out t new fresh in
                elim (Bool-cases (ltb 0 max && leb max (length out + 1))) [
                  | inl full ↦
                      rw (missing_loop, taken, tail, fresh, full)
                        (missing', new', λ l. ground (arith, length-append out (t ∷ [])))
                  | inr more ↦
                      rw (missing_loop, taken, tail, fresh, more)
                        (missing_loop-Missing sc cut max hs (remember found.0 found.1 tails)
                          (out ++ t ∷ []) memo'
                          (missing', new', λ l. ground (arith, length-append out (t ∷ []))))
                ]
          ]
        ]
      ]

module _ (fl : Float64) where
  open fl use {F}

  -- The hashes that a node asks for are missing from its chain, all different, and no more than the
  -- limit where there is one.
  pub get_missing_parent_hashes-AllMissing :
      (sc : ShareChain F) (now : ℤ) (max : ℕ)
      → AllMissing sc.shares (get_missing_parent_hashes fl sc now max)
        × AllNew (get_missing_parent_hashes fl sc now max)
        × (0 < max → length (get_missing_parent_hashes fl sc now max) ≤ max)
  unfolding get_missing_parent_hashes
  get_missing_parent_hashes-AllMissing sc now max =
      missing_loop-Missing sc (now -ℤ pos max_share_age) max (heads fl sc) [] []
        (λ h t e. absurd (ground arith)) (tt, tt, λ l. l)
