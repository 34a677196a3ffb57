-- ===== src/Template/Votes.antt =====
-- What the votes say when a template is agreed on.
use p2pool_go_vtc.Prelude.{
  ℕ, ◌+◌, ◌≤◌, ◌≡◌, ◌≢◌, refl, sym, subst, inl, inr, Bool, true, false, ◌||◌, Option, none, some,
  [], ◌∷◌, Bool-cases, Option-cases, arith,
}
use p2pool_go_vtc.Prelude.Int.{ℤ}
use p2pool_go_vtc.Prelude.Bytes.{Bytes, bytes_eq, bytes_eq_refl, bytes_eq→eq}
use p2pool_go_vtc.Prelude.Eq.{bytes_Eq}
use p2pool_go_vtc.Prelude.Dict.{Dict, lookup, Distinct}
use p2pool_go_vtc.Template.{
  BlockTemplate, PeerTmplVote, Tally, counts, choose_votes, tally_vote, tally_all,
}

-- The two votes to intersect are of different peers, when both are trusted.
pub record TwoPeers (p o : Option PeerTmplVote) : Type 0 where
  pub plain : (w : PeerTmplVote) → p ≡ none → o ≡ some w → w.pinned ≡ false
  pub peers :
      (v w : PeerTmplVote)
      → p ≡ some v
      → o ≡ some w
      → w.pinned ≡ true
      → bytes_eq w.peer_id v.peer_id ≡ false

module _ (now : ℤ) (t : BlockTemplate) (th : Bytes) (votes : Dict Bytes PeerTmplVote) where
  -- A vote for the block and the bits of the template, under its voter's key, that the loop has
  -- passed when `rest` is left.
  pub record Cast (rest : Dict Bytes PeerTmplVote) (k : Bytes) (v : PeerTmplVote) : Type 0 where
    pub stands : lookup k votes ≡ some v
    pub passed : lookup k rest ≡ none
    pub fits : counts now t v ≡ true

  -- Two different voters.
  pub record Pair (rest : Dict Bytes PeerTmplVote) (v w : PeerTmplVote) : Type 0 where
    pub first : Bytes
    pub second : Bytes
    pub apart : first ≢ second
    pub casts : Cast rest first v × Cast rest second w

  -- What the count of exact votes, and the mark that a trusted peer cast one, stand for.
  pub record Exact (rest : Dict Bytes PeerTmplVote) (exact : ℕ) (trusted : Bool) : Type 0 where
    pub one : 1 ≤ exact → (k : Bytes) × (v : PeerTmplVote) × Cast rest k v × (v.tx_hash ≡ th)
    pub two :
        2 ≤ exact
        → (v : PeerTmplVote) × (w : PeerTmplVote) × Pair rest v w
          × (v.tx_hash ≡ th)
          × (w.tx_hash ≡ th)
    pub by_trusted :
        trusted ≡ true
        → (k : Bytes) × (v : PeerTmplVote) × Cast rest k v × (v.tx_hash ≡ th) × (v.pinned ≡ true)

  -- What the votes to intersect are.
  pub record Chosen (rest : Dict Bytes PeerTmplVote) (p o : Option PeerTmplVote) : Type 0 where
    pub pinned : (v : PeerTmplVote) → p ≡ some v → (k : Bytes) × Cast rest k v × (v.pinned ≡ true)
    pub other : (w : PeerTmplVote) → o ≡ some w → (k : Bytes) × Cast rest k w
    pub pair : (v w : PeerTmplVote) → p ≡ some v → o ≡ some w → Pair rest v w

  Cast-rest :
      (k : Bytes) (v : PeerTmplVote) (e : Bytes × PeerTmplVote) (rest : Dict Bytes PeerTmplVote)
      → Cast (e ∷ rest) k v
      → (bytes_eq e.0 k ≡ false) × Cast rest k v
  Cast-rest k v e rest c = elim (Bool-cases (bytes_eq e.0 k)) [
    | inl same ↦ absurd (let gone = c.passed in ground (arith, gone, same))
    | inr other ↦ (
      other,
      record {
        stands = c.stands;
        passed = (let gone = c.passed in ground (arith, gone, other));
        fits = c.fits;
      },
    )
  ]

  Pair-rest :
      (v w : PeerTmplVote) (e : Bytes × PeerTmplVote) (rest : Dict Bytes PeerTmplVote)
      → Pair (e ∷ rest) v w
      → Pair rest v w
  Pair-rest v w e rest p = record {
    first = p.first;
    second = p.second;
    apart = p.apart;
    casts = ((Cast-rest p.first v e rest p.casts.0).1, (Cast-rest p.second w e rest p.casts.1).1);
  }

  -- The next vote and one cast before are of different voters.
  new-Pair :
      (k : Bytes) (v : PeerTmplVote) (e : Bytes × PeerTmplVote) (rest : Dict Bytes PeerTmplVote)
      → Cast (e ∷ rest) k v
      → Cast rest e.0 e.1
      → Pair rest v e.1
  new-Pair k v e rest c n =
      let old = Cast-rest k v e rest c in
      record {
        first = k;
        second = e.0;
        apart = λ same.
            (let equal = subst (λ y. bytes_eq e.0 y ≡ true) (sym same) (bytes_eq_refl e.0) in
              ground (arith, equal, old.0));
        casts = (old.1, n);
      }

  Pair-swap : (v w : PeerTmplVote) (rest : Dict Bytes PeerTmplVote) → Pair rest v w → Pair rest w v
  Pair-swap v w rest p = record {
    first = p.second;
    second = p.first;
    apart = λ same. p.apart (sym same);
    casts = (p.casts.1, p.casts.0);
  }

  module _ (e : Bytes × PeerTmplVote) (rest : Dict Bytes PeerTmplVote) where
    kept-Chosen : (p o : Option PeerTmplVote) → Chosen (e ∷ rest) p o → Chosen rest p o
    kept-Chosen p o c = record {
      pinned = λ v at. let k = c.pinned v at in (k.0, (Cast-rest k.0 v e rest k.1).1, k.2);
      other = λ w at. let k = c.other w at in (k.0, (Cast-rest k.0 w e rest k.1).1);
      pair = λ v w at there. Pair-rest v w e rest (c.pair v w at there);
    }

    kept-Exact : (n : ℕ) (tr : Bool) → Exact (e ∷ rest) n tr → Exact rest n tr
    kept-Exact n tr x = record {
      one = λ l. let k = x.one l in (k.0, k.1, (Cast-rest k.0 k.1 e rest k.2).1, k.3);
      two = λ l. let k = x.two l in (k.0, k.1, Pair-rest k.0 k.1 e rest k.2, k.3, k.4);
      by_trusted =
          λ l. let k = x.by_trusted l in (k.0, k.1, (Cast-rest k.0 k.1 e rest k.2).1, k.3, k.4);
    }

    module _ (n : Cast rest e.0 e.1) where
      other-Chosen :
          (p o : Option PeerTmplVote) → o ≡ none → Chosen (e ∷ rest) p o → Chosen rest p (some e.1)
      other-Chosen p o free c = record {
        pinned = (kept-Chosen p o c).pinned;
        other =
            λ w at. let same : e.1 ≡ w = ground (arith, at) in (e.0, subst (Cast rest e.0) same n);
        pair = λ v w at there.
            let same : e.1 ≡ w = ground (arith, there) in
            let k = c.pinned v at in subst (Pair rest v) same (new-Pair k.0 v e rest k.1 n);
      }

      pinned-Chosen :
          (p o : Option PeerTmplVote)
          → p ≡ none
          → e.1.pinned ≡ true
          → Chosen (e ∷ rest) p o
          → Chosen rest (some e.1) o
      pinned-Chosen p o free is_pinned c = record {
        pinned = λ v at.
            let same : e.1 ≡ v = ground (arith, at) in
            subst (λ v. (k : Bytes) × Cast rest k v × (v.pinned ≡ true)) same (e.0, n, is_pinned);
        other = (kept-Chosen p o c).other;
        pair = λ v w at there.
            let same : e.1 ≡ v = ground (arith, at) in
            let k = c.other w there in
            subst (λ v. Pair rest v w) same (Pair-swap w e.1 rest (new-Pair k.0 w e rest k.1 n));
      }

      choose_votes-Chosen :
          (tl : Tally)
          → Chosen (e ∷ rest) tl.pinned_vote tl.other_vote
          → Chosen rest (choose_votes e.1 tl).pinned_vote (choose_votes e.1 tl).other_vote
      unfolding choose_votes
      choose_votes-Chosen tl c =
          let keep = kept-Chosen tl.pinned_vote tl.other_vote c in
          let second =
            λ (free : tl.other_vote ≡ none). other-Chosen tl.pinned_vote tl.other_vote free c in
          elim (Bool-cases e.1.pinned) [
            | inr plain ↦ elim (Option-cases tl.other_vote) [
              | inr (w, at) ↦ rw (choose_votes, plain, at) keep
              | inl free ↦ rw (choose_votes, plain, free) (second free)
            ]
            | inl trusted ↦ elim (Option-cases tl.pinned_vote) [
              | inl first ↦
                  rw (choose_votes, trusted, first)
                    (pinned-Chosen tl.pinned_vote tl.other_vote first trusted c)
              | inr (p, has) ↦ elim (Option-cases tl.other_vote) [
                | inr (w, at) ↦ rw (choose_votes, trusted, has, at) keep
                | inl free ↦ elim (Bool-cases (bytes_eq e.1.peer_id p.peer_id)) [
                  | inl same ↦ rw (choose_votes, trusted, has, free, same) keep
                  | inr apart ↦ rw (choose_votes, trusted, has, free, apart) (second free)
                ]
              ]
            ]
          ]

      -- One more vote for the same transactions.
      more-Exact :
          (m : ℕ) (tr : Bool)
          → e.1.tx_hash ≡ th
          → Exact (e ∷ rest) m tr
          → Exact rest (m + 1) (tr || e.1.pinned)
      more-Exact m tr same x = record {
        one = λ l. (e.0, e.1, n, same);
        two = λ l.
            let k = x.one (omega (arith, l)) in
            (k.1, e.1, new-Pair k.0 k.1 e rest k.2 n, k.3, same);
        by_trusted = λ l. elim (Bool-cases e.1.pinned) [
          | inl trusted ↦ (e.0, e.1, n, same, trusted)
          | inr plain ↦ (kept-Exact m tr x).by_trusted (ground (arith, l, plain))
        ];
      }

  abbrev pub Counted : Dict Bytes PeerTmplVote → Tally → Type 0
  Counted rest tl =
      Exact rest tl.exact tl.trusted
      × Chosen rest tl.pinned_vote tl.other_vote
      × TwoPeers tl.pinned_vote tl.other_vote

  choose_votes-TwoPeers :
      (v : PeerTmplVote) (tl : Tally)
      → TwoPeers tl.pinned_vote tl.other_vote
      → TwoPeers (choose_votes v tl).pinned_vote (choose_votes v tl).other_vote
  unfolding choose_votes
  choose_votes-TwoPeers v tl c = elim (Bool-cases v.pinned) [
    | inr plain ↦ elim (Option-cases tl.other_vote) [
      | inr (w, at) ↦ rw (choose_votes, plain, at) c
      | inl free ↦
          rw (choose_votes, plain, free)
            (record {
              plain = λ w f e. ground (arith, plain, e);
              peers = λ u w f e g. absurd (ground (arith, plain, e, g));
            })
    ]
    | inl trusted ↦ elim (Option-cases tl.pinned_vote) [
      | inl first ↦
          rw (choose_votes, trusted, first)
            (record {
              plain = λ w f e. absurd (ground (arith, f));
              peers = λ u w f e g.
                  absurd (let not_pinned = c.plain w first e in ground (arith, not_pinned, g));
            })
      | inr (p, has) ↦ elim (Option-cases tl.other_vote) [
        | inr (w, at) ↦ rw (choose_votes, trusted, has, at) c
        | inl free ↦ elim (Bool-cases (bytes_eq v.peer_id p.peer_id)) [
          | inl same ↦ rw (choose_votes, trusted, has, free, same) c
          | inr apart ↦
              rw (choose_votes, trusted, has, free, apart)
                (record {
                  plain = λ w f e. absurd (ground (arith, f, has));
                  peers = λ u w f e g. ground (arith, f, has, e, apart);
                })
        ]
      ]
    ]
  ]

  choose_votes-counts :
      (v : PeerTmplVote) (tl : Tally)
      → ((choose_votes v tl).exact ≡ tl.exact) × ((choose_votes v tl).trusted ≡ tl.trusted)
  unfolding choose_votes
  choose_votes-counts v tl = (ground arith, ground arith)

  tally_vote-Counted :
      (e : Bytes × PeerTmplVote) (rest : Dict Bytes PeerTmplVote) (tl : Tally)
      → lookup e.0 votes ≡ some e.1
      → lookup e.0 rest ≡ none
      → Counted (e ∷ rest) tl
      → Counted rest (tally_vote now t th e.1 tl)
  unfolding tally_vote
  tally_vote-Counted e rest tl stands passed (x, c, d) = elim (Bool-cases (counts now t e.1)) [
    | inr out ↦
        rw (tally_vote, out)
          (
            kept-Exact e rest tl.exact tl.trusted x,
            kept-Chosen e rest tl.pinned_vote tl.other_vote c,
            d,
          )
    | inl fits ↦
        let n : Cast rest e.0 e.1 = record { stands = stands; passed = passed; fits = fits } in
        let chosen = choose_votes-Chosen e rest n tl c in
        let same = choose_votes-counts e.1 tl in
        let two = choose_votes-TwoPeers e.1 tl d in
        elim (Bool-cases (bytes_eq e.1.tx_hash th)) [
          | inl exact ↦
              rw (tally_vote, fits, exact)
                (more-Exact e rest n tl.exact tl.trusted (bytes_eq→eq _ _ exact) x, chosen, two)
          | inr other ↦
              rw (tally_vote, fits, other, same.0, same.1)
                (kept-Exact e rest tl.exact tl.trusted x, chosen, two)
        ]
  ]

  pub tally_all-Counted :
      (rest : Dict Bytes PeerTmplVote) (tl : Tally)
      → Distinct rest
      → ((k : Bytes) (v : PeerTmplVote) → lookup k rest ≡ some v → lookup k votes ≡ some v)
      → Counted rest tl
      → Counted [] (tally_all now t th rest tl)
  unfolding tally_all
  tally_all-Counted [] tl distinct sub c = c
  tally_all-Counted (e ∷ rest) tl distinct sub c =
      tally_all-Counted rest (tally_vote now t th e.1 tl) distinct.1
        (λ k v at. sub k v (elim (Bool-cases (bytes_eq e.0 k)) [
          | inl same ↦ absurd (
              let out = subst (λ y. lookup y rest ≡ none) (bytes_eq→eq _ _ same) distinct.0 in
              ground (arith, out, at))
          | inr other ↦ ground (arith, other, at)
        ]))
        (tally_vote-Counted e rest tl (sub e.0 e.1 (rw (bytes_eq_refl e.0) refl)) distinct.0 c)
