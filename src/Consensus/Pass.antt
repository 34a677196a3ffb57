-- ===== src/Consensus/Pass.antt =====
-- What a pass of `verifyPending` over the pending shares does.
use p2pool_go_vtc.Prelude.{
  ℕ, ◌+◌, ◌≡◌, refl, ◌⊎◌, inl, inr, Bool, true, false, not, ◌||◌, some, List, [], ◌∷◌, ◌++◌, ◌==◌,
  if◌then◌else◌, arith, Bool-cases, Option-cases, All, ap, sym, ◌∙◌, ◌↔◌, subst, ==_iff,
}
use p2pool_go_vtc.Prelude.Int.{ℤ}
use p2pool_go_vtc.Prelude.Bytes.{Bytes}
use p2pool_go_vtc.Prelude.Eq.{nat_Eq}
use p2pool_go_vtc.Prelude.Dict.{lookup, get_or, lookup-insert, lookup-erase}
use p2pool_go_vtc.Env.{Float64, Codec, Wire}
use p2pool_go_vtc.Share.{Share}
use p2pool_go_vtc.Chain.{ShareChain}
use p2pool_go_vtc.Chain.Index.{is_verified, unlink_share}
use p2pool_go_vtc.Chain.Work.{mark_verified}
use p2pool_go_vtc.Chain.Work.Frame.{consider_tip-kept}
use p2pool_go_vtc.Consensus.Verdicts.{judge-total}
use p2pool_go_vtc.Consensus.{is_ripe, judge, verify_one, verify_all, Progress}

module _ (fl : Float64) (codec : Codec) (testnet : Bool) (compact_to_big : ℕ → ℤ)
    (sha256 : Bytes → Bytes) (wire : Wire) where
  open fl use {F}

  -- What a turn does to the chain: it leaves it, when the share is verified or not ripe; and else it
  -- verifies a share that the rules accept, and takes out one that they refuse.
  pub data Turn (sc : ShareChain F) (h : ℕ) (s : Share F) : ShareChain F → Type 0 where
    waits : (is_verified sc h || not (is_ripe sc s)) ≡ true → Turn sc h s sc
    verifies :
        is_verified sc h ≡ false
        → is_ripe sc s ≡ true
        → judge fl codec testnet compact_to_big sha256 wire sc s ≡ some true
        → Turn sc h s (mark_verified fl h sc)
    refuses :
        is_verified sc h ≡ false
        → is_ripe sc s ≡ true
        → judge fl codec testnet compact_to_big sha256 wire sc s ≡ some false
        → Turn sc h s (record (unlink_share h sc).1 { changes = (unlink_share h sc).1.changes + 1 })

  -- A sequence of turns on the pending shares, in their order.
  pub data Turns : List (ℕ × Share F) → ShareChain F → ShareChain F → Type 0 where
    ended : {sc : ShareChain F} → Turns [] sc sc
    turned :
        {h : ℕ} {s : Share F} {pend : List (ℕ × Share F)} {sc sc' sc'' : ShareChain F}
        → Turn sc h s sc'
        → Turns pend sc' sc''
        → Turns ((h, s) ∷ pend) sc sc''

  mark_verified-is_verified :
      (h k : ℕ) (sc : ShareChain F)
      → is_verified (mark_verified fl h sc) k ≡ (if h == k then true else is_verified sc k)
  unfolding mark_verified
  mark_verified-is_verified h k sc =
      ap (λ m. get_or false k m) ((consider_tip-kept fl (h ∷ []) _).1)
      ∙ ground (arith, lookup-insert h k true sc.verified)

  unlink_share-is_verified :
      (h k : ℕ) (sc : ShareChain F)
      → is_verified sc h ≡ false
      → is_verified (unlink_share h sc).1 k ≡ is_verified sc k
  unfolding unlink_share
  unlink_share-is_verified h k sc unverified = elim (Option-cases (lookup h sc.shares)) [
    | inl missing ↦ rw (unlink_share, missing) refl
    | inr (s, held) ↦ rw (unlink_share, held) (ground (arith, lookup-erase h k sc.verified))
  ]

  -- A turn takes no share's verification away, and gives it to no other share.
  pub Turn-is_verified :
      (sc : ShareChain F) (h : ℕ) (s : Share F) (k : ℕ) (sc' : ShareChain F)
      → Turn sc h s sc'
      → (is_verified sc k ≡ true → is_verified sc' k ≡ true)
        × (is_verified sc' k ≡ true
            → (is_verified sc k ≡ true)
              ⊎ ((k ≡ h)
                  × (is_ripe sc s ≡ true)
                  × (judge fl codec testnet compact_to_big sha256 wire sc s ≡ some true)))
  Turn-is_verified sc h s k sc' (waits idle) = (λ v. v, λ v. inl v)
  Turn-is_verified sc h s k sc' (verifies fresh ripe ok) = (
    ground (arith, mark_verified-is_verified h k sc),
    λ v. ground (arith, mark_verified-is_verified h k sc),
  )
  Turn-is_verified sc h s k sc' (refuses fresh ripe bad) = (
    λ v. unlink_share-is_verified h k sc fresh ∙ v,
    λ v. inl (sym (unlink_share-is_verified h k sc fresh) ∙ v),
  )

  -- What a turn does is settled by the chain and the share.
  pub Turn-same :
      {sc : ShareChain F} {h : ℕ} {s : Share F} {a b : ShareChain F}
      → Turn sc h s a
      → Turn sc h s b
      → a ≡ b
  Turn-same (waits idle) (waits idle') = refl
  Turn-same (waits idle) (verifies fresh ripe ok) = absurd (ground (arith, idle, fresh, ripe))
  Turn-same (waits idle) (refuses fresh ripe bad) = absurd (ground (arith, idle, fresh, ripe))
  Turn-same (verifies fresh ripe ok) (waits idle) = absurd (ground (arith, idle, fresh, ripe))
  Turn-same (verifies fresh ripe ok) (verifies fresh' ripe' ok') = refl
  Turn-same (verifies fresh ripe ok) (refuses fresh' ripe' bad) = absurd (ground (arith, ok, bad))
  Turn-same (refuses fresh ripe bad) (waits idle) = absurd (ground (arith, idle, fresh, ripe))
  Turn-same (refuses fresh ripe bad) (verifies fresh' ripe' ok) = absurd (ground (arith, ok, bad))
  Turn-same (refuses fresh ripe bad) (refuses fresh' ripe' bad') = refl

  -- The verdict on the share under a hash in a pass: at its turn the share is not verified, it is ripe,
  -- and the rules judge it so against the chain as the turns before it have made it.
  pub data Judged (verdict : Bool) : List (ℕ × Share F) → ShareChain F → ℕ → Type 0 where
    at_turn :
        {k : ℕ} {s : Share F} {pend : List (ℕ × Share F)} {sc : ShareChain F}
        → is_verified sc k ≡ false
        → is_ripe sc s ≡ true
        → judge fl codec testnet compact_to_big sha256 wire sc s ≡ some verdict
        → Judged verdict ((k, s) ∷ pend) sc k
    after_turn :
        {h k : ℕ} {s : Share F} {pend : List (ℕ × Share F)} {sc sc' : ShareChain F}
        → Turn sc h s sc'
        → Judged verdict pend sc' k
        → Judged verdict ((h, s) ∷ pend) sc k

  -- A verdict falls at the first turn or later.
  pub Judged-Turn :
      {verdict : Bool} {h k : ℕ} {s : Share F} {pend : List (ℕ × Share F)} {sc sc' : ShareChain F}
      → Judged verdict ((h, s) ∷ pend) sc k
      → Turn sc h s sc'
      → ((k ≡ h)
          × (is_verified sc h ≡ false)
          × (is_ripe sc s ≡ true)
          × (judge fl codec testnet compact_to_big sha256 wire sc s ≡ some verdict))
        ⊎ Judged verdict pend sc' k
  Judged-Turn (at_turn fresh ripe given) turn = inl (refl, fresh, ripe, given)
  Judged-Turn {verdict} {k = k} {pend = pend} (after_turn turn' j) turn =
      inr (subst (λ c. Judged verdict pend c k) (Turn-same turn' turn) j)

  Turn-accepted :
      {sc : ShareChain F} {h : ℕ} {s : Share F} {sc' : ShareChain F}
      → Turn sc h s sc'
      → is_verified sc h ≡ false
      → is_ripe sc s ≡ true
      → judge fl codec testnet compact_to_big sha256 wire sc s ≡ some true
      → is_verified sc' h ≡ true
  Turn-accepted {sc} {h} turn fresh ripe ok =
      subst (λ c. is_verified c h ≡ true) (Turn-same (verifies fresh ripe ok) turn)
        (mark_verified-is_verified h h sc ∙ ground (arith, ==_iff h h))

  Turns-is_verified :
      (pend : List (ℕ × Share F)) (sc : ShareChain F) (k : ℕ) (sc' : ShareChain F)
      → Turns pend sc sc'
      → (is_verified sc' k ≡ true → (is_verified sc k ≡ true) ⊎ Judged true pend sc k)
        × (is_verified sc k ≡ true → is_verified sc' k ≡ true)
        × (Judged true pend sc k → is_verified sc' k ≡ true)
  Turns-is_verified [] sc k sc' ended = (λ v. inl v, λ v. v, λ j. not_empty j)
    where
      not_empty : Judged true [] sc k → is_verified sc k ≡ true
      not_empty j = elim j [ ]
  Turns-is_verified ((h, s) ∷ pend) sc k sc'' (turned {sc' = sc'} turn turns) =
      let (kept, new) = Turn-is_verified sc h s k sc' turn in
      let (new', kept', judged) = Turns-is_verified pend sc' k sc'' turns in
      (
        λ v. elim (new' v) [
          | inr j ↦ inr (after_turn turn j)
          | inl there ↦ elim (Bool-cases (is_verified sc k)) [
            | inl before ↦ inl before
            | inr fresh ↦ elim (new there) [
              | inl before ↦ inl before
              | inr (same, ripe, ok) ↦
                  inr (subst (λ n. Judged true ((n, s) ∷ pend) sc k) same (at_turn fresh ripe ok))
            ]
          ]
        ],
        λ v. kept' (kept v),
        λ j. elim (Judged-Turn j turn) [
          | inr j' ↦ judged j'
          | inl (same, fresh, ripe, ok) ↦
              kept' (
                subst (λ n. is_verified sc' n ≡ true) (sym same) (Turn-accepted turn fresh ripe ok))
        ],
      )

  -- One turn of the code's loop is a turn.
  verify_one-Turn :
      (h : ℕ) (s : Share F) (acc : Progress fl codec testnet compact_to_big sha256 wire) (pow : ℕ)
      → s.pow_hash ≡ some pow
      → (acc' : Progress fl codec testnet compact_to_big sha256 wire) × (verify_one fl codec testnet
            compact_to_big sha256 wire h s acc
          ≡ some acc')
        × Turn acc.0 h s acc'.0
  unfolding verify_one
  verify_one-Turn h s (sc, rejected, vn) pow has_pow =
      elim (Bool-cases (is_verified sc h || not (is_ripe sc s))) [
        | inl waiting ↦ ((sc, rejected, vn), rw (verify_one, waiting) refl, waits waiting)
        | inr ready ↦
            elim (judge-total fl codec testnet compact_to_big sha256 wire sc s pow has_pow) [
              | inl ok ↦ (
                (mark_verified fl h sc, rejected, vn + 1),
                rw (verify_one, ready, ok) refl,
                verifies (ground arith) (ground arith) ok,
              )
              | inr bad ↦
                  let gone = (unlink_share h sc).1 in
                  (
                    (record gone { changes = gone.changes + 1 }, rejected ++ h ∷ [], vn),
                    rw (verify_one, ready, bad) refl,
                    refuses (ground arith) (ground arith) bad,
                  )
            ]
      ]

  -- Where every pending share has a PoW hash, as each that is stored has, a pass returns, and it is a
  -- sequence of turns: each leaves the chain, verifies a ripe share that the rules accept, or takes out
  -- one that they refuse.
  pub verify_all-Turns :
      (pend : List (ℕ × Share F)) (acc : Progress fl codec testnet compact_to_big sha256 wire)
      → All (λ e. (pow : ℕ) × (e.1.pow_hash ≡ some pow)) pend
      → (acc' : Progress fl codec testnet compact_to_big sha256 wire) × (verify_all fl codec testnet
            compact_to_big sha256 wire pend acc
          ≡ some acc')
        × Turns pend acc.0 acc'.0
  unfolding verify_all
  verify_all-Turns [] acc powed = (acc, refl, ended)
  verify_all-Turns ((h, s) ∷ pend) acc powed =
      let (acc1, one, turn) = verify_one-Turn h s acc powed.0.0 powed.0.1 in
      let (acc2, rest, turns) = verify_all-Turns pend acc1 powed.1 in
      (acc2, rw (verify_all, one) rest, turned turn turns)

  -- Where every pending share has a PoW hash, a pass returns, and a share is verified after it exactly
  -- where it was before, or where it is pending and, at its turn, not verified, ripe, and accepted by
  -- the rules against the chain as the turns before it have made it: each of them left the chain, when
  -- its share was verified or not ripe, and else verified the share or took it out, as the rules say.
  pub verify_all-is_verified :
      (pend : List (ℕ × Share F)) (acc : Progress fl codec testnet compact_to_big sha256 wire)
      (k : ℕ)
      → All (λ e. (pow : ℕ) × (e.1.pow_hash ≡ some pow)) pend
      → (acc' : Progress fl codec testnet compact_to_big sha256 wire) × (verify_all fl codec testnet
            compact_to_big sha256 wire pend acc
          ≡ some acc')
        × ((is_verified acc'.0 k ≡ true)
            ↔ ((is_verified acc.0 k ≡ true) ⊎ Judged true pend acc.0 k))
  verify_all-is_verified pend acc k powed =
      let (acc', done, turns) = verify_all-Turns pend acc powed in
      let (new, kept, judged) = Turns-is_verified pend acc.0 k acc'.0 turns in
      (acc', done, (new, λ v. elim v [ inl before ↦ kept before | inr j ↦ judged j ]))
