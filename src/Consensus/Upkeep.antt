-- ===== src/Consensus/Upkeep.antt =====
-- The index and the works across a pass of `verifyPending`.
use p2pool_go_vtc.Prelude.{
  ℕ, ◌+◌, ◌≡◌, refl, ◌⊎◌, inl, inr, Bool, true, false, not, ◌||◌, some, List, [], ◌∷◌, ◌++◌, ◌==◌,
  arith, Bool-cases, Option-cases, All, subst, ap, sym, ◌∙◌,
}
use p2pool_go_vtc.Prelude.Int.{ℤ}
use p2pool_go_vtc.Prelude.Bytes.{Bytes}
use p2pool_go_vtc.Prelude.Eq.{nat_Eq}
use p2pool_go_vtc.Prelude.Dict.{Dict, lookup, insert, erase}
use p2pool_go_vtc.Env.{Float64, Codec, Wire}
use p2pool_go_vtc.Share.{Share}
use p2pool_go_vtc.Chain.{ShareChain}
use p2pool_go_vtc.Chain.Sync.{in_set}
use p2pool_go_vtc.Chain.Sync.Replies.{in_set-append}
use p2pool_go_vtc.Chain.Index.{is_verified, unlink_share}
use p2pool_go_vtc.Chain.Index.Consistent.{Ranked}
use p2pool_go_vtc.Chain.Work.{mark_verified}
use p2pool_go_vtc.Chain.Work.Frame.{consider_tip-kept, consider_tip-frame}
use p2pool_go_vtc.Chain.Work.Whole.{Whole}
use p2pool_go_vtc.Chain.Work.Whole.Dropped.{
  Removing, Removing-more, Removing-frame, unlink_share-Removing, unlink_share-lookup,
}
use p2pool_go_vtc.Chain.Work.Whole.RemoveShares.{drop_work-Whole}
use p2pool_go_vtc.Consensus.{
  is_ripe, judge, verify_one, verify_all, pending, verify_pending, Progress,
}
use p2pool_go_vtc.Consensus.Intake.{Powed, pending-Powed}
use p2pool_go_vtc.Consensus.Pass.{
  Turn, Turns, waits, verifies, refuses, ended, turned, Turn-is_verified, verify_all-Turns,
}

module _ (fl : Float64) (codec : Codec) (testnet : Bool) (compact_to_big : ℕ → ℤ)
    (sha256 : Bytes → Bytes) (wire : Wire) where
  open fl use {F}

  -- A pass at some point: the chain is whole but for the works below the rejected shares, and all
  -- its shares were held before.
  pub record Passing (sc0 : ShareChain F)
      (acc : Progress fl codec testnet compact_to_big sha256 wire) : Type 0 where
    pub removing : Removing fl (λ p. in_set p acc.1) acc.0
    pub subset :
        (x : ℕ) (s : Share F) → lookup x acc.0.shares ≡ some s → lookup x sc0.shares ≡ some s

  mark_verified-Passing :
      (sc0 sc : ShareChain F) (h : ℕ) (rejected : List ℕ) (vn : ℕ)
      → Passing sc0 (sc, rejected, vn)
      → Passing sc0 (mark_verified fl h sc, rejected, vn + 1)
  unfolding mark_verified
  mark_verified-Passing sc0 sc h rejected vn p =
      let marked = record sc {
        verified = insert h true sc.verified;
        received = erase h sc.received;
        dirty = insert h true sc.dirty;
      } in
      let tip = consider_tip-frame fl (h ∷ []) marked in
      rw (mark_verified, tip.1)
        (record {
          removing = Removing-frame fl _ sc _ _ _ sc.changes tip.0 p.removing;
          subset = p.subset;
        })

  unlink_share-Passing :
      (sc0 sc : ShareChain F) (h : ℕ) (rejected : List ℕ) (vn : ℕ)
      → Passing sc0 (sc, rejected, vn)
      → Passing sc0 (
        record (unlink_share h sc).1 { changes = (unlink_share h sc).1.changes + 1 },
        rejected ++ h ∷ [],
        vn,
      )
  unlink_share-Passing sc0 sc h rejected vn p =
      let gone = (unlink_share h sc).1 in
      record {
        removing =
            Removing-frame fl _ gone gone.verified gone.received gone.dirty (gone.changes + 1)
              gone.tip_hash
              (Removing-more fl (λ q. h == q || in_set q rejected)
                (λ q. in_set q (rejected ++ h ∷ [])) gone
                (λ q out. ground (arith, out, in_set-append q h rejected))
                (unlink_share-Removing fl (λ q. in_set q rejected) h sc p.removing));
        subset = λ x s at. p.subset x s (ground (arith, at, unlink_share-lookup fl h x sc));
      }

  verify_one-Passing :
      (sc0 : ShareChain F) (h : ℕ) (s : Share F)
      (acc acc' : Progress fl codec testnet compact_to_big sha256 wire)
      → verify_one fl codec testnet compact_to_big sha256 wire h s acc ≡ some acc'
      → Passing sc0 acc
      → Passing sc0 acc'
  unfolding verify_one
  verify_one-Passing sc0 h s (sc, rejected, vn) acc' e p =
      elim (Bool-cases (is_verified sc h || not (is_ripe sc s))) [
        | inl waiting ↦
            let same : (sc, rejected, vn) ≡ acc' = ground (arith, e, waiting) in
            subst (Passing sc0) same p
        | inr ready ↦ elim (Option-cases (judge fl codec testnet compact_to_big sha256 wire sc s)) [
          | inl none' ↦ absurd (ground (arith, e, ready, none'))
          | inr (true, at) ↦
              let same : (mark_verified fl h sc, rejected, vn + 1) ≡ acc' =
                ground (arith, e, ready, at) in
              subst (Passing sc0) same (mark_verified-Passing sc0 sc h rejected vn p)
          | inr (false, at) ↦
              let gone = (unlink_share h sc).1 in
              let same : (record gone { changes = gone.changes + 1 }, rejected ++ h ∷ [], vn)
                  ≡ acc' =
                ground (arith, e, ready, at) in
              subst (Passing sc0) same (unlink_share-Passing sc0 sc h rejected vn p)
        ]
      ]

  verify_all-Passing :
      (sc0 : ShareChain F) (pend : List (ℕ × Share F))
      (acc acc' : Progress fl codec testnet compact_to_big sha256 wire)
      → verify_all fl codec testnet compact_to_big sha256 wire pend acc ≡ some acc'
      → Passing sc0 acc
      → Passing sc0 acc'
  unfolding verify_all
  verify_all-Passing sc0 [] acc acc' e p =
      let same : acc ≡ acc' = ground (arith, e) in subst (Passing sc0) same p
  verify_all-Passing sc0 (g ∷ pend) acc acc' e p =
      elim (Option-cases (verify_one fl codec testnet compact_to_big sha256 wire g.0 g.1 acc)) [
        | inl none' ↦ absurd (ground (arith, e, none'))
        | inr (acc1, one) ↦
            verify_all-Passing sc0 pend acc1 acc' (ground (arith, e, one))
              (verify_one-Passing sc0 g.0 g.1 acc acc1 one p)
      ]

  All-erase :
      (P : ℕ × Share F → Type 0) (h : ℕ) (shares : Dict ℕ (Share F))
      → All P shares
      → All P (erase h shares)
  All-erase P h [] all = tt
  All-erase P h (e ∷ shares) all = elim (Bool-cases (e.0 == h)) [
    | inl same ↦ rw same (All-erase P h shares all.1)
    | inr other ↦ rw other (all.0, All-erase P h shares all.1)
  ]

  All-map :
      (P Q : ℕ × Share F → Type 0) (shares : Dict ℕ (Share F))
      → ((e : ℕ × Share F) → P e → Q e)
      → All P shares
      → All Q shares
  All-map P Q [] f all = tt
  All-map P Q (e ∷ shares) f all = (f e all.0, All-map P Q shares f all.1)

  -- A turn leaves the shares, or takes out its own.
  Turn-shares :
      (sc : ShareChain F) (h : ℕ) (s : Share F) (sc' : ShareChain F)
      → Turn fl codec testnet compact_to_big sha256 wire sc h s sc'
      → (sc'.shares ≡ sc.shares) ⊎ (sc'.shares ≡ erase h sc.shares)
  unfolding mark_verified unlink_share
  Turn-shares sc h s sc' (waits idle) = inl refl
  Turn-shares sc h s sc' (verifies fresh ripe ok) = inl ((consider_tip-kept fl (h ∷ []) _).0)
  Turn-shares sc h s sc' (refuses fresh ripe bad) = elim (Option-cases (lookup h sc.shares)) [
    | inl gone ↦ inl (rw (unlink_share, gone) refl)
    | inr (t, held) ↦ inr (rw (unlink_share, held) refl)
  ]

  -- A turn keeps it true that every share that is not verified has a PoW hash.
  Turn-Powed :
      (sc : ShareChain F) (h : ℕ) (s : Share F) (sc' : ShareChain F)
      → Turn fl codec testnet compact_to_big sha256 wire sc h s sc'
      → Powed fl codec testnet compact_to_big sha256 wire sc sc.shares
      → Powed fl codec testnet compact_to_big sha256 wire sc' sc'.shares
  Turn-Powed sc h s sc' turn pow =
      let still =
        All-map (λ e. (is_verified sc e.0 ≡ true) ⊎ ((pow : ℕ) × (e.1.pow_hash ≡ some pow)))
          (λ e. (is_verified sc' e.0 ≡ true) ⊎ ((pow : ℕ) × (e.1.pow_hash ≡ some pow))) sc.shares
          (λ e old. elim old [
            | inl seen ↦ inl (
                (Turn-is_verified fl codec testnet compact_to_big sha256 wire sc h s e.0 sc' turn).0
                  seen)
            | inr has_pow ↦ inr has_pow
          ])
          pow in
      elim (Turn-shares sc h s sc' turn) [
        | inl same ↦ rw same still
        | inr less ↦ rw less (All-erase _ h sc.shares still)
      ]

  Turns-Powed :
      (pend : List (ℕ × Share F)) (sc sc' : ShareChain F)
      → Turns fl codec testnet compact_to_big sha256 wire pend sc sc'
      → Powed fl codec testnet compact_to_big sha256 wire sc sc.shares
      → Powed fl codec testnet compact_to_big sha256 wire sc' sc'.shares
  Turns-Powed [] sc sc' ended pow = pow
  Turns-Powed ((h, s) ∷ pend) sc sc'' (turned {sc' = sc'} turn turns) pow =
      Turns-Powed pend sc' sc'' turns (Turn-Powed sc h s sc' turn pow)

  -- `verifyPending` ends, where every held share that is not verified has a PoW hash and no share is
  -- below itself; a chain that is whole stays whole, holds no share that it did not
  -- hold, and every held share that is not verified still has a PoW hash.
  pub verify_pending-Whole :
      (sc : ShareChain F) (rank : ℕ → ℕ)
      → Ranked fl sc rank
      → Powed fl codec testnet compact_to_big sha256 wire sc sc.shares
      → Whole fl sc
      → (acc : Progress fl codec testnet compact_to_big sha256 wire) × (verify_pending fl codec
            testnet compact_to_big sha256 wire sc
          ≡ some acc)
        × Whole fl acc.0
        × Powed fl codec testnet compact_to_big sha256 wire acc.0 acc.0.shares
        × ((x : ℕ) (s : Share F) → lookup x acc.0.shares ≡ some s → lookup x sc.shares ≡ some s)
  unfolding verify_pending
  verify_pending-Whole sc rank ranked powed whole =
      let pass =
        verify_all-Turns fl codec testnet compact_to_big sha256 wire
          (pending fl codec testnet compact_to_big sha256 wire sc sc.shares) (sc, [], 0)
          (pending-Powed fl codec testnet compact_to_big sha256 wire sc sc.shares powed) in
      by_rejected (pass.0) pass.1 (Turns-Powed _ sc pass.0.0 pass.2 powed) (
        verify_all-Passing sc _ (sc, [], 0) pass.0 pass.1
          (record {
            removing = record {
              indexed = whole.indexed;
              worked = λ x above. whole.worked x refl;
              bare = whole.bare;
            };
            subset = λ x s at. at;
          }))
    where
      by_rejected :
          (acc : Progress fl codec testnet compact_to_big sha256 wire)
          → verify_all fl codec testnet compact_to_big sha256 wire
              (pending fl codec testnet compact_to_big sha256 wire sc sc.shares)
              (sc, [], 0)
            ≡ some acc
          → Powed fl codec testnet compact_to_big sha256 wire acc.0 acc.0.shares
          → Passing sc acc
          → (acc' : Progress fl codec testnet compact_to_big sha256 wire) × (verify_pending fl codec
                testnet compact_to_big sha256 wire sc
              ≡ some acc')
            × Whole fl acc'.0
            × Powed fl codec testnet compact_to_big sha256 wire acc'.0 acc'.0.shares
            × ((x : ℕ) (s : Share F)
                → lookup x acc'.0.shares ≡ some s
                → lookup x sc.shares ≡ some s)
      by_rejected (sc1, [], vn) e pow p = (
        (sc1, [], vn),
        rw (verify_pending, e) refl,
        record {
          indexed = p.removing.indexed;
          worked = λ x out. p.removing.worked x (λ s q at up. refl);
          bare = p.removing.bare;
          stored = λ x at. absurd (cc);
        },
        pow,
        p.subset,
      )
      by_rejected (sc1, r ∷ rs, vn) e pow p =
          let done =
            drop_work-Whole fl (r ∷ rs) false sc1 rank
              (λ x q s t at up there. ranked x q s t (p.subset x s at) up (p.subset q t there))
              p.removing in
          (
            (done.0, r ∷ rs, vn),
            rw (verify_pending, e, done.1) refl,
            done.4,
            rw (done.2, done.3) pow,
            λ x s at. p.subset x s (sym (ap (λ m. lookup x m) done.2) ∙ at),
          )
