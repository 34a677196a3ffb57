-- ===== src/Store/Commits.antt =====
-- Commits beside the operations that verify, remove and store shares.
use p2pool_go_vtc.Prelude.{
  ℕ, ◌≡◌, refl, sym, ap, Bool, true, false, Option, none, some, [], ◌∷◌, ◌==◌, ==_iff, Option-cases,
  Bool-cases, inl, inr, arith, subst,
}
use p2pool_go_vtc.Prelude.Bytes.{Bytes}
use p2pool_go_vtc.Prelude.Int.{ℤ}
use p2pool_go_vtc.Prelude.Eq.{nat_Eq}
use p2pool_go_vtc.Prelude.Dict.{lookup, has, get_or, insert, erase, lookup-insert, lookup-erase}
use p2pool_go_vtc.Env.{Float64, Codec, Wire}
use p2pool_go_vtc.Share.{Share}
use p2pool_go_vtc.Chain.{ShareChain}
use p2pool_go_vtc.Chain.Index.{unlink_share}
use p2pool_go_vtc.Chain.Work.{mark_verified}
use p2pool_go_vtc.Chain.Work.Frame.{consider_tip-kept}
use p2pool_go_vtc.Consensus.{store}
use p2pool_go_vtc.Store.{Store, begin_commit, end_commit, wanted_value}
use p2pool_go_vtc.Store.Synced.{Synced, begin_commit-Synced, end_commit-Synced, chain_change-Synced}

module _ (fl : Float64) (codec : Codec) (testnet : Bool) (compact_to_big : ℕ → ℤ)
    (sha256 : Bytes → Bytes) (wire : Wire) where
  open fl use {F}

  module _ (marshal : Share F → Option Bytes) where
    -- The steps: a commit begins, when none is under way, or ends, with the database taking the
    -- transaction or not; a hash is marked as verified, which `verifyPending` does after it let the
    -- chain go; a share is removed; a new share is stored; the rest of the chain changes.
    pub data Step (st : Store F) : Store F → Type 0 where
      begins : {st' : Store F} → st.batch ≡ none → begin_commit st ≡ some st' → Step st st'
      ends : (refused : Bool) → Step st (end_commit marshal refused st).0
      verifies : (h : ℕ) → Step st (record st { chain = mark_verified fl h st.chain })
      unlinks : (h : ℕ) → Step st (record st { chain = (unlink_share h st.chain).1 })
      stores :
          (h : ℕ) (now_ns : ℤ) (s : Share F)
          → has h st.chain.shares ≡ false
          → Step st (record st {
            chain = store fl codec testnet compact_to_big sha256 wire h now_ns s st.chain;
          })
      changes :
          (sc : ShareChain F)
          → sc.shares ≡ st.chain.shares
          → sc.verified ≡ st.chain.verified
          → sc.dirty ≡ st.chain.dirty
          → Step st (record st { chain = sc })

    pub data Steps (st : Store F) : Store F → Type 0 where
      here : Steps st st
      next : {st1 st2 : Store F} → Steps st st1 → Step st1 st2 → Steps st st2

    -- The share that a step marks as verified is held.
    abbrev pub OnHeld : {st st' : Store F} → Step st st' → Type 0
    OnHeld (begins idle e) = Unit
    OnHeld (ends refused) = Unit
    OnHeld {st} (verifies h) = has h st.chain.shares ≡ true
    OnHeld (unlinks h) = Unit
    OnHeld (stores h now_ns s new) = Unit
    OnHeld (changes sc s v d) = Unit

    -- So it is for each step of a sequence.
    abbrev pub AllOnHeld : {st st' : Store F} → Steps st st' → Type 0
    AllOnHeld here = Unit
    AllOnHeld (next steps step) = AllOnHeld steps × OnHeld step

    works-Synced :
        (st : Store F) (sc : ShareChain F)
        → (sc.shares ≡ st.chain.shares)
          × (sc.verified ≡ st.chain.verified)
          × (sc.dirty ≡ st.chain.dirty)
        → Synced marshal st
        → Synced marshal (record st { chain = sc })
    unfolding wanted_value
    works-Synced st sc same inv =
        chain_change-Synced marshal st sc (λ h v. rw (same.0) (inv.held h (rw (sym same.1) v)))
          (λ h clean. (rw (sym same.2) clean, rw (same.0, same.1) refl)) inv

    mark_verified-Synced :
        (st : Store F) (h : ℕ)
        → has h st.chain.shares ≡ true
        → Synced marshal st
        → Synced marshal (record st { chain = mark_verified fl h st.chain })
    unfolding mark_verified wanted_value
    mark_verified-Synced st h held inv =
        let sc = record st.chain {
          verified = insert h true st.chain.verified;
          received = erase h st.chain.received;
          dirty = insert h true st.chain.dirty;
        } in
        works-Synced (record st { chain = sc }) _ (consider_tip-kept fl (h ∷ []) sc)
          (chain_change-Synced marshal st sc
            (λ k v. elim (Bool-cases (h == k)) [
              | inl same ↦ rw (sym ((==_iff h k).0 same)) held
              | inr other ↦
                  inv.held k (ground (arith, v, other, lookup-insert h k true st.chain.verified))
            ])
            (λ k clean.
              let noted = lookup-insert h k true st.chain.dirty in
              let seen = lookup-insert h k true st.chain.verified in
              (ground (arith, clean, noted), ground (arith, clean, noted, seen)))
            inv)

    unlink_share-Synced :
        (st : Store F) (h : ℕ)
        → Synced marshal st
        → Synced marshal (record st { chain = (unlink_share h st.chain).1 })
    unfolding unlink_share wanted_value
    unlink_share-Synced st h inv = elim (Option-cases (lookup h st.chain.shares)) [
      | inl absent ↦ rw (unlink_share, absent) inv
      | inr (s, held) ↦
          rw (unlink_share, held)
            (chain_change-Synced marshal st _
              (λ k v. ground (
                arith,
                v,
                inv.held k,
                lookup-erase h k st.chain.verified,
                lookup-erase h k st.chain.shares,
              ))
              (λ k clean.
                let noted = lookup-insert h k true st.chain.dirty in
                let seen = lookup-erase h k st.chain.verified in
                let kept = lookup-erase h k st.chain.shares in
                (ground (arith, clean, noted), ground (arith, clean, noted, seen, kept)))
              inv)
    ]

    insert-Synced :
        (st : Store F) (h : ℕ) (t : Share F) (sc : ShareChain F)
        → has h st.chain.shares ≡ false
        → sc.shares ≡ insert h t st.chain.shares
        → sc.verified ≡ st.chain.verified
        → sc.dirty ≡ st.chain.dirty
        → Synced marshal st
        → Synced marshal (record st { chain = sc })
    unfolding wanted_value
    insert-Synced st h t sc new shares verified dirty inv =
        chain_change-Synced marshal st sc
          (λ k v. rw shares (
            ground (
              arith,
              subst (λ m. get_or false k m ≡ true) verified v,
              inv.held k,
              lookup-insert h k t st.chain.shares,
            )))
          (λ k clean. (
            rw (sym dirty) clean,
            rw (shares, verified)
                (elim (Bool-cases (h == k)) [
                  | inl same ↦
                      let key = (==_iff h k).0 same in
                      ground (
                        arith,
                        same,
                        new,
                        ap (λ j. lookup j st.chain.shares) key,
                        inv.held k,
                        lookup-insert h k t st.chain.shares,
                      )
                  | inr other ↦ ground (arith, other, lookup-insert h k t st.chain.shares)
                ]),
          ))
          inv

    -- Each step keeps the database in step with the chain.
    pub step-Synced :
        {st st' : Store F} (step : Step st st')
        → OnHeld step
        → Synced marshal st
        → Synced marshal st'
    unfolding store
    step-Synced (begins idle e) held inv = begin_commit-Synced marshal _ _ idle e inv
    step-Synced {st} (ends refused) held inv = end_commit-Synced marshal refused st inv
    step-Synced {st} (verifies h) held inv = mark_verified-Synced st h held inv
    step-Synced {st} (unlinks h) held inv = unlink_share-Synced st h inv
    step-Synced {st} (stores h now_ns s new) held inv =
        insert-Synced st h _ _ new refl refl refl inv
    step-Synced {st} (changes sc s v d) held inv = works-Synced st sc (s, v, d) inv

    -- However commits and the chain's operations follow one another, from a store in step with its
    -- chain: if every share is held at the moment that it is marked as verified, the store is in step
    -- after any number of steps. That is, verified shares are held; and once a commit under way has
    -- landed, the entry of each hash that is not dirty is the share when the chain holds it and it is
    -- verified, and is absent otherwise.
    pub Steps-Synced :
        {st st' : Store F} (steps : Steps st st')
        → AllOnHeld steps
        → Synced marshal st
        → Synced marshal st'
    Steps-Synced here held inv = inv
    Steps-Synced (next steps step) held inv =
        step-Synced step held.1 (Steps-Synced steps held.0 inv)
