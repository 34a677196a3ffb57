-- ===== src/Consensus/Added.antt =====
-- The chain after `AddSharesOutcomes`.
use p2pool_go_vtc.Prelude.{
  ℕ, ◌+◌, ◌≡◌, refl, inl, inr, Bool, true, false, ◌||◌, Option, some, List, [], ◌∷◌, ◌++◌, map,
  ◌==◌, arith, Bool-cases, ==_iff, ap, sym, subst, ◌∙◌,
}
use p2pool_go_vtc.Prelude.Int.{ℤ}
use p2pool_go_vtc.Prelude.Bytes.{Bytes}
use p2pool_go_vtc.Prelude.Eq.{nat_Eq}
use p2pool_go_vtc.Prelude.Dict.{has, insert, lookup-insert}
use p2pool_go_vtc.Env.{Float64, Codec, Wire, HeaderHash}
use p2pool_go_vtc.Share.{Share}
use p2pool_go_vtc.Chain.{ShareChain}
use p2pool_go_vtc.Chain.Index.Sets.{in_set-union}
use p2pool_go_vtc.Chain.Index.Consistent.{Ranked}
use p2pool_go_vtc.Chain.Sync.{in_set}
use p2pool_go_vtc.Chain.Sync.Replies.{AllNew}
use p2pool_go_vtc.Chain.Work.Whole.{WholeBut, Whole, WholeBut-frame, WholeBut-reorder}
use p2pool_go_vtc.Chain.Work.Whole.Stored.{stored-WholeBut}
use p2pool_go_vtc.Chain.Work.Whole.Added.{add_work-Whole}
use p2pool_go_vtc.Consensus.{Outcome, receive}
use p2pool_go_vtc.Consensus.Intake.{Powed, Stored, receive-Stored}
use p2pool_go_vtc.Consensus.Upkeep.{verify_pending-Whole}
use p2pool_go_vtc.Consensus.AddShares.{
  Received, note_result, receive_all, outcome_of, add_shares_outcomes,
}

module _ (fl : Float64) (codec : Codec) (testnet : Bool) (compact_to_big : ℕ → ℤ)
    (sha256 : Bytes → Bytes) (wire : Wire) (hashes : HeaderHash) where
  open fl use {F}

  abbrev Pow : ShareChain F → Type 0
  Pow sc = Powed fl codec testnet compact_to_big sha256 wire sc sc.shares

  -- A chain that grew: new shares wait for the index, and every share that is not verified has a
  -- PoW hash.
  pub record Grown (pend : List ℕ) (sc0 : ShareChain F) (hs : List ℕ) (sc : ShareChain F)
      : Type 0 where
    pub whole : WholeBut fl (hs ++ pend) sc
    pub new : AllNew hs
    pub unheld : (x : ℕ) → in_set x hs ≡ true → has x sc0.shares ≡ false
    pub kept : (x : ℕ) → has x sc0.shares ≡ true → has x sc.shares ≡ true
    pub powed : Pow sc

  same-Grown :
      (pend : List ℕ) (sc : ShareChain F) → WholeBut fl pend sc → Pow sc → Grown pend sc [] sc
  same-Grown pend sc whole powed = record {
    whole = whole;
    new = tt;
    unheld = λ x at. absurd (cc);
    kept = λ x at. at;
    powed = powed;
  }

  Stored-WholeBut :
      (now now_ns : ℤ) (s : Share F) (pend : List ℕ) (sc sc' : ShareChain F) (h : ℕ)
      → Stored fl codec testnet compact_to_big sha256 wire hashes now now_ns s sc h sc'
      → WholeBut fl pend sc
      → WholeBut fl (h ∷ pend) sc'
  Stored-WholeBut now now_ns s pend sc sc' h st whole =
      subst (WholeBut fl (h ∷ pend)) (sym st.shape.2) (
        WholeBut-frame fl (h ∷ pend) (record sc { shares = insert h st.shape.0 sc.shares })
          sc.verified st.shape.1 sc.dirty (sc.changes + 1) sc.tip_hash
          (stored-WholeBut fl pend sc whole h st.shape.0 st.new))

  Stored-has :
      (now now_ns : ℤ) (s : Share F) (sc sc' : ShareChain F) (h x : ℕ)
      → Stored fl codec testnet compact_to_big sha256 wire hashes now now_ns s sc h sc'
      → has x sc'.shares ≡ (h == x) || has x sc.shares
  Stored-has now now_ns s sc sc' h x st =
      ap (λ c. has x c.shares) st.shape.2 ∙ ground (arith, lookup-insert h x st.shape.0 sc.shares)

  more-Grown :
      (now now_ns : ℤ) (s : Share F) (pend : List ℕ) (sc sc1 sc2 : ShareChain F) (h : ℕ)
      (hs : List ℕ)
      → Stored fl codec testnet compact_to_big sha256 wire hashes now now_ns s sc h sc1
      → Grown (h ∷ pend) sc1 hs sc2
      → Grown pend sc (h ∷ hs) sc2
  more-Grown now now_ns s pend sc sc1 sc2 h hs st g = record {
    whole =
        WholeBut-reorder fl (hs ++ h ∷ pend) (h ∷ hs ++ pend) sc2
          (λ x. ground (arith, in_set-union x hs (h ∷ pend), in_set-union x hs pend)) g.whole;
    new = (
      elim (Bool-cases (in_set h hs)) [
        | inr out ↦ out
        | inl at ↦
            absurd
              (ground (arith, g.unheld h at, Stored-has now now_ns s sc sc1 h h st, ==_iff h h))
      ],
      g.new,
    );
    unheld = λ x at. elim (Bool-cases (h == x)) [
      | inl same ↦ subst (λ y. has y sc.shares ≡ false) ((==_iff h x).0 same) st.new
      | inr other ↦ ground (arith, at, other, g.unheld x, Stored-has now now_ns s sc sc1 h x st)
    ];
    kept = λ x at. g.kept x (ground (arith, at, Stored-has now now_ns s sc sc1 h x st));
    powed = g.powed;
  }

  -- What the first loop makes of the chain.
  abbrev pub received_chain : ℤ → ℤ → List (Share F) → ShareChain F → ShareChain F
  received_chain now now_ns new sc =
      (receive_all fl codec testnet compact_to_big sha256 wire hashes now now_ns new sc).2

  abbrev pub received_hashes : ℤ → ℤ → List (Share F) → ShareChain F → List ℕ
  received_hashes now now_ns new sc =
      (receive_all fl codec testnet compact_to_big sha256 wire hashes now now_ns new sc).1

  receive_all-step :
      (now now_ns : ℤ) (s : Share F) (new : List (Share F)) (sc : ShareChain F)
      (r : Outcome fl codec testnet compact_to_big sha256 wire × Option ℕ × ShareChain F)
      → receive fl codec testnet compact_to_big sha256 wire hashes now now_ns s sc ≡ r
      → receive_all fl codec testnet compact_to_big sha256 wire hashes now now_ns (s ∷ new) sc
        ≡ note_result fl codec testnet compact_to_big sha256 wire hashes
            (r.0, r.1)
            (receive_all fl codec testnet compact_to_big sha256 wire hashes now now_ns new r.2)
  unfolding receive_all
  receive_all-step now now_ns s new sc r e =
      ap
        (λ r.
          note_result fl codec testnet compact_to_big sha256 wire hashes (r.0, r.1)
            (receive_all fl codec testnet compact_to_big sha256 wire hashes now now_ns new r.2))
        e

  receive_all-Grown :
      (now now_ns : ℤ) (new : List (Share F)) (pend : List ℕ) (sc : ShareChain F)
      → WholeBut fl pend sc
      → Pow sc
      → Grown pend sc (received_hashes now now_ns new sc) (received_chain now now_ns new sc)
  unfolding receive_all note_result
  receive_all-Grown now now_ns [] pend sc whole powed = same-Grown pend sc whole powed
  receive_all-Grown now now_ns (s ∷ new) pend sc whole powed =
      let grown = λ (q : Received fl codec testnet compact_to_big sha256 wire hashes).
        Grown pend sc q.1 q.2 in
      elim (receive-Stored fl codec testnet compact_to_big sha256 wire hashes now now_ns s sc) [
        | inl bad ↦
            subst grown (sym (receive_all-step now now_ns s new sc _ bad))
              (receive_all-Grown now now_ns new pend sc whole powed)
        | inr (inl twice) ↦
            subst grown (sym (receive_all-step now now_ns s new sc _ twice))
              (receive_all-Grown now now_ns new pend sc whole powed)
        | inr (inr (h, sc1, at, st)) ↦
            subst grown (sym (receive_all-step now now_ns s new sc _ at)) (
              more-Grown now now_ns s pend sc sc1 _ h _ st (
                receive_all-Grown now now_ns new (h ∷ pend) sc1
                  (Stored-WholeBut now now_ns s pend sc sc1 h st whole) (st.powed powed)))
      ]

  Grown-WholeBut : (hs : List ℕ) (sc0 sc : ShareChain F) → Grown [] sc0 hs sc → WholeBut fl hs sc
  Grown-WholeBut hs sc0 sc g =
      WholeBut-reorder fl (hs ++ []) hs sc (λ x. ground (arith, in_set-union x hs [])) g.whole

  -- `AddSharesOutcomes` ends, with nothing beside it, whatever shares come: where no share is below
  -- itself and every held share that is not verified has a PoW hash. A chain that is whole stays
  -- whole, and its unverified shares still have their PoW hashes.
  pub add_shares_outcomes-Whole :
      (now now_ns : ℤ) (new : List (Share F)) (sc : ShareChain F) (rank : ℕ → ℕ)
      → Ranked fl (received_chain now now_ns new sc) rank
      → Powed fl codec testnet compact_to_big sha256 wire sc sc.shares
      → Whole fl sc
      → (outs : List (Outcome fl codec testnet compact_to_big sha256 wire)) × (vn : ℕ)
        × (sc' : ShareChain F) × (add_shares_outcomes fl codec testnet compact_to_big sha256 wire
              hashes now now_ns new sc
            ≡ some (outs, vn, sc'))
        × Whole fl sc'
        × Powed fl codec testnet compact_to_big sha256 wire sc' sc'.shares
  unfolding add_shares_outcomes
  add_shares_outcomes-Whole now now_ns new sc rank ranked powed whole =
      let g = receive_all-Grown now now_ns new [] sc whole powed in
      let hs = received_hashes now now_ns new sc in
      let sc1 = received_chain now now_ns new sc in
      let added = add_work-Whole fl hs sc1 rank g.new ranked (Grown-WholeBut hs sc sc1 g) in
      let done =
        verify_pending-Whole fl codec testnet compact_to_big sha256 wire added.0 rank
          (rw (added.2) ranked) (rw (added.2, added.3) g.powed) added.4 in
      (
        map
            (λ o.
              outcome_of fl codec testnet compact_to_big sha256 wire hashes (done.0.1) (done.0.0) o)
            (receive_all fl codec testnet compact_to_big sha256 wire hashes now now_ns new sc).0,
        done.0.2,
        done.0.0,
        rw (add_shares_outcomes, added.1, done.1) refl,
        done.2,
        done.3,
      )
