-- ===== src/Consensus/Rejects.antt =====
-- Which shares a pass of `verifyPending` takes out.
use p2pool_go_vtc.Prelude.{
  ℕ, ◌+◌, ◌≡◌, refl, ◌⊎◌, ◌↔◌, inl, inr, Bool, true, false, not, ◌&&◌, ◌||◌, none, some, List, [],
  ◌∷◌, ◌++◌, ◌==◌, ==_iff, if◌then◌else◌, arith, Bool-cases, Option-cases, All, ap, sym, subst,
}
use p2pool_go_vtc.Prelude.Int.{ℤ}
use p2pool_go_vtc.Prelude.Bytes.{Bytes}
use p2pool_go_vtc.Prelude.Eq.{nat_Eq}
use p2pool_go_vtc.Prelude.Dict.{lookup}
use p2pool_go_vtc.Env.{Float64, Codec, Wire}
use p2pool_go_vtc.Share.{Share}
use p2pool_go_vtc.Chain.{ShareChain}
use p2pool_go_vtc.Chain.Sync.{in_set}
use p2pool_go_vtc.Chain.Sync.Replies.{in_set-append}
use p2pool_go_vtc.Chain.Index.{is_verified, unlink_share}
use p2pool_go_vtc.Chain.Work.{mark_verified}
use p2pool_go_vtc.Chain.Work.Frame.{consider_tip-kept}
use p2pool_go_vtc.Chain.Work.Whole.Dropped.{unlink_share-lookup}
use p2pool_go_vtc.Consensus.Verdicts.{judge-total}
use p2pool_go_vtc.Consensus.{is_ripe, judge, verify_one, verify_all, Progress}
use p2pool_go_vtc.Consensus.Pass.{
  Turn, waits, verifies, refuses, Judged, at_turn, after_turn, Judged-Turn,
}

module _ (fl : Float64) (codec : Codec) (testnet : Bool) (compact_to_big : ℕ → ℤ)
    (sha256 : Bytes → Bytes) (wire : Wire) where
  open fl use {F}

  abbrev Turned : ShareChain F → ℕ → Share F → ShareChain F → Type 0
  Turned sc h s sc' = Turn fl codec testnet compact_to_big sha256 wire sc h s sc'

  -- Does a turn take its share out?
  abbrev refused_now : ShareChain F → ℕ → Share F → Bool
  refused_now sc h s =
      not (is_verified sc h)
      && is_ripe sc s
      && (elim (judge fl codec testnet compact_to_big sha256 wire sc s) [
        | none ↦ false
        | some v ↦ not v
      ])

  mark_verified-shares : (h : ℕ) (sc : ShareChain F) → (mark_verified fl h sc).shares ≡ sc.shares
  unfolding mark_verified
  mark_verified-shares h sc = (consider_tip-kept fl (h ∷ []) _).0

  -- A turn, by what it does to the rejected hashes and to the shares.
  verify_one-rejected :
      (h : ℕ) (s : Share F) (acc : Progress fl codec testnet compact_to_big sha256 wire) (pow k : ℕ)
      → s.pow_hash ≡ some pow
      → (acc' : Progress fl codec testnet compact_to_big sha256 wire) × (verify_one fl codec testnet
            compact_to_big sha256 wire h s acc
          ≡ some acc')
        × Turned acc.0 h s acc'.0
        × (in_set k acc'.1 ≡ in_set k acc.1 || (h == k && refused_now acc.0 h s))
        × (lookup k acc'.0.shares
            ≡ (if h == k && refused_now acc.0 h s then none else lookup k acc.0.shares))
  unfolding verify_one
  verify_one-rejected h s (sc, rejected, vn) pow k has_pow =
      elim (Bool-cases (is_verified sc h || not (is_ripe sc s))) [
        | inl waiting ↦ (
          (sc, rejected, vn),
          rw (verify_one, waiting) refl,
          waits waiting,
          ground (arith, waiting),
          ground (arith, waiting),
        )
        | inr ready ↦
            elim (judge-total fl codec testnet compact_to_big sha256 wire sc s pow has_pow) [
              | inl ok ↦
                  let same = ap (λ m. lookup k m) (mark_verified-shares h sc) in
                  (
                    (mark_verified fl h sc, rejected, vn + 1),
                    rw (verify_one, ready, ok) refl,
                    verifies (ground (arith, ready)) (ground (arith, ready)) ok,
                    ground (arith, ok),
                    ground (arith, ok, same),
                  )
              | inr bad ↦
                  let gone = (unlink_share h sc).1 in
                  (
                    (record gone { changes = gone.changes + 1 }, rejected ++ h ∷ [], vn),
                    rw (verify_one, ready, bad) refl,
                    refuses (ground (arith, ready)) (ground (arith, ready)) bad,
                    ground (arith, ready, bad, in_set-append k h rejected),
                    ground (arith, ready, bad, unlink_share-lookup fl h k sc),
                  )
            ]
      ]

  abbrev Refused : List (ℕ × Share F) → ShareChain F → ℕ → Type 0
  Refused pend sc k = Judged fl codec testnet compact_to_big sha256 wire false pend sc k

  -- What is rejected at some point of a pass is not held, and the other shares are as at its start.
  pass_rejected :
      (pend : List (ℕ × Share F)) (acc : Progress fl codec testnet compact_to_big sha256 wire)
      (k : ℕ)
      → All (λ e. (pow : ℕ) × (e.1.pow_hash ≡ some pow)) pend
      → (acc' : Progress fl codec testnet compact_to_big sha256 wire) × (verify_all fl codec testnet
            compact_to_big sha256 wire pend acc
          ≡ some acc')
        × (in_set k acc'.1 ≡ true → (in_set k acc.1 ≡ true) ⊎ Refused pend acc.0 k)
        × (in_set k acc.1 ≡ true → in_set k acc'.1 ≡ true)
        × (Refused pend acc.0 k → in_set k acc'.1 ≡ true)
        × ((in_set k acc.1 ≡ true → lookup k acc.0.shares ≡ none)
            → lookup k acc'.0.shares ≡ (if in_set k acc'.1 then none else lookup k acc.0.shares))
  unfolding verify_all
  pass_rejected [] acc k powed = (
    acc,
    refl,
    λ i. inl i,
    λ i. i,
    λ j. elim j [ ],
    λ gone. elim (Bool-cases (in_set k acc.1)) [ inl at ↦ rw at (gone at) | inr out ↦ rw out refl ],
  )
  pass_rejected ((h, s) ∷ pend) acc k powed =
      let (acc1, one, turn, noted, held) = verify_one-rejected h s acc powed.0.0 k powed.0.1 in
      let (acc2, rest, new, kept, judged, shares) = pass_rejected pend acc1 k powed.1 in
      (
        acc2,
        rw (verify_all, one) rest,
        λ i. elim (new i) [
          | inr j ↦ inr (after_turn turn j)
          | inl at ↦ elim (Bool-cases (in_set k acc.1)) [
            | inl before ↦ inl before
            | inr out ↦
                let same : k ≡ h = ground (arith, at, noted, out, ==_iff h k) in
                let now : refused_now acc.0 h s ≡ true = ground (arith, at, noted, out) in
                inr (
                  subst (λ n. Refused ((n, s) ∷ pend) acc.0 k) same
                    (at_turn
                      (subst (λ n. is_verified acc.0 n ≡ false) (sym same) (ground (arith, now)))
                      (ground (arith, now)) (refused_by acc.0 h s now)))
          ]
        ],
        λ i. kept (ground (arith, i, noted)),
        λ j. elim (Judged-Turn fl codec testnet compact_to_big sha256 wire j turn) [
          | inr j' ↦ judged j'
          | inl (same, fresh, ripe, bad) ↦
              kept (ground (arith, noted, ==_iff h k, same, fresh, ripe, bad))
        ],
        λ gone.
            let later = shares (λ i. ground (arith, i, noted, held, gone)) in
            elim (Bool-cases (in_set k acc2.1)) [
              | inl at ↦ rw at (ground (arith, later, at))
              | inr out ↦
                  let before : in_set k acc1.1 ≡ false = elim (Bool-cases (in_set k acc1.1)) [
                    | inl at ↦ absurd (let there = kept at in ground (arith, there, out))
                    | inr free ↦ free
                  ] in
                  rw out (ground (arith, later, out, before, noted, held))
            ],
      )
    where
      refused_by :
          (sc : ShareChain F) (h : ℕ) (s : Share F)
          → refused_now sc h s ≡ true
          → judge fl codec testnet compact_to_big sha256 wire sc s ≡ some false
      refused_by sc h s now =
          elim (Option-cases (judge fl codec testnet compact_to_big sha256 wire sc s)) [
            | inl nothing ↦ absurd (ground (arith, now, nothing))
            | inr (true, at) ↦ absurd (ground (arith, now, at))
            | inr (false, at) ↦ at
          ]

  -- Where every pending share has a PoW hash, a pass returns. The hashes that it rejects are exactly
  -- those whose share, at its turn, was not verified, ripe, and refused by the rules against the chain
  -- as the turns before it had made it. Of the shares it takes out those under these hashes and no
  -- others.
  pub verify_all-Refused :
      (pend : List (ℕ × Share F)) (sc : ShareChain F) (vn k : ℕ)
      → All (λ e. (pow : ℕ) × (e.1.pow_hash ≡ some pow)) pend
      → (acc' : Progress fl codec testnet compact_to_big sha256 wire) × (verify_all fl codec testnet
            compact_to_big sha256 wire pend
            (sc, [], vn)
          ≡ some acc')
        × ((in_set k acc'.1 ≡ true)
            ↔ Judged fl codec testnet compact_to_big sha256 wire false pend sc k)
        × (lookup k acc'.0.shares ≡ (if in_set k acc'.1 then none else lookup k sc.shares))
  verify_all-Refused pend sc vn k powed =
      let (acc', done, new, kept, judged, shares) = pass_rejected pend (sc, [], vn) k powed in
      (
        acc',
        done,
        (λ i. elim (new i) [ inl none' ↦ absurd (ground (arith, none')) | inr j ↦ j ], judged),
        shares (λ i. absurd (ground (arith, i))),
      )
