-- ===== src/Consensus/Intake.antt =====
-- Which shares a node stores.
use p2pool_go_vtc.Prelude.{
  ℕ, ◌+◌, ◌≡◌, refl, ◌⊎◌, inl, inr, Bool, true, false, none, some, List, [], ◌∷◌, ◌==◌, ltb, arith,
  ◌∙◌, Bool-cases, Option-cases, All,
}
use p2pool_go_vtc.Prelude.Int.{ℤ}
use p2pool_go_vtc.Prelude.Bytes.{Bytes}
use p2pool_go_vtc.Prelude.Eq.{nat_Eq}
use p2pool_go_vtc.Prelude.Dict.{Dict, has, get_or, insert}
use p2pool_go_vtc.Env.{Float64, Codec, Wire, HeaderHash}
use p2pool_go_vtc.Share.{Share}
use p2pool_go_vtc.Share.Owner.{decode_share_address}
use p2pool_go_vtc.Share.Check.{check_share_time, check_share_target_floor, is_valid}
use p2pool_go_vtc.Share.Check.Laws.{Valid, is_valid_iff}
use p2pool_go_vtc.Chain.{ShareChain}
use p2pool_go_vtc.Chain.Index.{is_verified}
use p2pool_go_vtc.Consensus.{
  pending_share, duplicate, invalid, with_hash, with_pow_hash, store, receive, pending,
  insert_pending,
}

module _ (fl : Float64) (codec : Codec) (testnet : Bool) (compact_to_big : ℕ → ℤ)
    (sha256 : Bytes → Bytes) (wire : Wire) where
  open fl use {F}

  abbrev HasPow : Share F → Type 0
  HasPow s = (pow : ℕ) × (s.pow_hash ≡ some pow)

  -- Every held share that is not verified has a PoW hash.
  abbrev pub Powed : ShareChain F → Dict ℕ (Share F) → Type 0
  Powed sc shares = All (λ e. (is_verified sc e.0 ≡ true) ⊎ HasPow e.1) shares

  insert_pending-Powed :
      (sc : ShareChain F) (h : ℕ) (s : Share F) (pend : List (ℕ × Share F))
      → HasPow s
      → All (λ e. HasPow e.1) pend
      → All
          (λ e. HasPow e.1)
          (insert_pending fl codec testnet compact_to_big sha256 wire sc (h, s) pend)
  unfolding insert_pending
  insert_pending-Powed sc h s [] pow all = (pow, tt)
  insert_pending-Powed sc h s (g ∷ gs) pow all =
      elim (Bool-cases (ltb (get_or 0 g.0 sc.chain_len) (get_or 0 h sc.chain_len))) [
        | inl later ↦ rw (insert_pending, later) (all.0, insert_pending-Powed sc h s gs pow all.1)
        | inr first ↦ rw (insert_pending, first) (pow, all)
      ]

  -- Where every held share that is not verified has a PoW hash, the pending ones have it.
  pub pending-Powed :
      (sc : ShareChain F) (shares : Dict ℕ (Share F))
      → Powed sc shares
      → All (λ e. HasPow e.1) (pending fl codec testnet compact_to_big sha256 wire sc shares)
  unfolding pending
  pending-Powed sc [] all = tt
  pending-Powed sc (e ∷ shares) all = elim (Bool-cases (is_verified sc e.0)) [
    | inl done ↦ rw (pending, done) (pending-Powed sc shares all.1)
    | inr open' ↦ elim (Option-cases e.1.hash) [
      | inl no_hash ↦ rw (pending, open', no_hash) (pending-Powed sc shares all.1)
      | inr (h, at) ↦ elim all.0 [
        | inl done ↦ absurd (ground arith)
        | inr pow ↦
            rw (pending, open', at)
              (insert_pending-Powed sc h e.1
                (pending fl codec testnet compact_to_big sha256 wire sc shares) pow
                (pending-Powed sc shares all.1))
      ]
    ]
  ]

  All-insert :
      (P : ℕ × Share F → Type 0) (h : ℕ) (s : Share F) (shares : Dict ℕ (Share F))
      → P (h, s)
      → All P shares
      → All P (insert h s shares)
  All-insert P h s [] p all = (p, tt)
  All-insert P h s (e ∷ shares) p all = elim (Bool-cases (e.0 == h)) [
    | inl same ↦ rw same (p, all.1)
    | inr other ↦ rw other (all.0, All-insert P h s shares p all.1)
  ]

  decode_share_address-pow_hash :
      (s : Share F) → (decode_share_address codec testnet s).1.pow_hash ≡ s.pow_hash
  unfolding decode_share_address
  decode_share_address-pow_hash s = ground arith

  store-Powed :
      (h : ℕ) (now_ns : ℤ) (s : Share F) (sc : ShareChain F)
      → HasPow s
      → Powed sc sc.shares
      → Powed
          (store fl codec testnet compact_to_big sha256 wire h now_ns s sc)
          (store fl codec testnet compact_to_big sha256 wire h now_ns s sc).shares
  unfolding store
  store-Powed h now_ns s sc (pow, has_pow) all =
      All-insert (λ e. (is_verified sc e.0 ≡ true) ⊎ HasPow e.1) h _ sc.shares
        (inr (pow, decode_share_address-pow_hash s ∙ has_pow)) all

  store-verified :
      (h : ℕ) (now_ns : ℤ) (s : Share F) (sc : ShareChain F)
      → (store fl codec testnet compact_to_big sha256 wire h now_ns s sc).verified ≡ sc.verified
  unfolding store
  store-verified h now_ns s sc = refl

  cached :
      (s : Share F)
      → record (decode_share_address codec testnet s).1 {
        decoded_addr = (decode_share_address codec testnet s).0;
      }
        ≡ record s { decoded_addr = (decode_share_address codec testnet s).0 }
  unfolding decode_share_address
  cached s = ground arith

  store-shape :
      (h : ℕ) (now_ns : ℤ) (s : Share F) (sc : ShareChain F)
      → (t : Share F) × (got : Dict ℕ ℤ) × (store fl codec testnet compact_to_big sha256 wire h
            now_ns s sc
          ≡ record sc { shares = insert h t sc.shares; received = got; changes = sc.changes + 1 })
        × (t ≡ record s { decoded_addr = (decode_share_address codec testnet s).0 })
        × (got ≡ insert h now_ns sc.received)
  unfolding store
  store-shape h now_ns s sc = (_, _, refl, cached s, refl)

  module _ (hashes : HeaderHash) where
    -- The share with its hashes.
    abbrev full : Share F → Share F
    full s =
        with_pow_hash fl codec testnet compact_to_big sha256 wire hashes
          (with_hash fl codec testnet compact_to_big sha256 wire hashes s)

    -- What a received share must be to be stored, and what is stored.
    pub record Stored (now now_ns : ℤ) (s : Share F) (sc : ShareChain F) (h : ℕ)
        (sc' : ShareChain F) : Type 0 where
      pub timely : check_share_time s now ≡ none
      pub hard : check_share_target_floor fl s ≡ true
      pub hash : (with_hash fl codec testnet compact_to_big sha256 wire hashes s).hash ≡ some h
      pub new : has h sc.shares ≡ false
      pub valid : Valid sha256 wire fl (full s)
      pub shape :
          (t : Share F) × (got : Dict ℕ ℤ) × (sc'
            ≡ record sc { shares = insert h t sc.shares; received = got; changes = sc.changes + 1 })
          × (t ≡ record (full s) { decoded_addr = (decode_share_address codec testnet (full s)).0 })
          × (got ≡ insert h now_ns sc.received)
      pub unverified : sc'.verified ≡ sc.verified
      pub powed : Powed sc sc.shares → Powed sc' sc'.shares

    -- A received share leaves the chain as it is, or is stored: then its times are right, its difficulty
    -- is not below the floor, its hash was not held and it is valid on its own. What is stored under its
    -- hash is the share itself with its hashes and the address that it pays, the time of receipt is
    -- noted, and the shares, the verdicts and all else of the chain but its change count stay. Shares
    -- that are stored keep it true that every held share that is not verified has a PoW hash.
    pub receive-Stored :
        (now now_ns : ℤ) (s : Share F) (sc : ShareChain F)
        → (receive fl codec testnet compact_to_big sha256 wire hashes now now_ns s sc
            ≡ (invalid, none, sc))
          ⊎ (receive fl codec testnet compact_to_big sha256 wire hashes now now_ns s sc
              ≡ (duplicate, none, sc))
          ⊎ ((h : ℕ) × (sc' : ShareChain F) × (receive fl codec testnet compact_to_big sha256 wire
                  hashes now now_ns s sc
                ≡ (pending_share, some h, sc'))
              × Stored now now_ns s sc h sc')
    unfolding receive
    receive-Stored now now_ns s sc = elim (Option-cases (check_share_time s now)) [
      | inr (r, bad) ↦ inl (rw (receive, bad) refl)
      | inl timely ↦ elim (Bool-cases (check_share_target_floor fl s)) [
        | inr easy ↦ inl (rw (receive, timely, easy) refl)
        | inl hard ↦
            elim (Option-cases
              (with_hash fl codec testnet compact_to_big sha256 wire hashes s).hash) [
                | inl no_hash ↦ inl (rw (receive, timely, hard, no_hash) refl)
                | inr (h, at) ↦ elim (Bool-cases (has h sc.shares)) [
                  | inl held ↦ inr (inl (rw (receive, timely, hard, at, held) refl))
                  | inr new ↦ elim (Option-cases (is_valid sha256 wire fl (full s))) [
                    | inr (r, bad) ↦ inl (rw (receive, timely, hard, at, new, bad) refl)
                    | inl valid ↦
                        let v = (is_valid_iff sha256 wire fl (full s)).0 valid in
                        inr (
                          inr (
                            h,
                            store fl codec testnet compact_to_big sha256 wire h now_ns (full s) sc,
                            rw (receive, timely, hard, at, new, valid) refl,
                            record {
                              timely = timely;
                              hard = hard;
                              hash = at;
                              new = new;
                              valid = v;
                              shape = store-shape h now_ns (full s) sc;
                              unverified = store-verified h now_ns (full s) sc;
                              powed = store-Powed h now_ns (full s) sc (v.pow, v.has_pow);
                            },
                          ))
                  ]
                ]
              ]
      ]
    ]
