-- ===== src/Template/Applied.antt =====
-- What a light node mines on.
use p2pool_go_vtc.Prelude.{
  ℕ, ◌≡◌, refl, sym, ap, subst, ◌∙◌, inl, inr, Bool, true, false, ◌&&◌, ◌||◌, Option, none, some,
  List, [], length, if◌then◌else◌, leb, ◌==◌, Bool-cases, Option-cases, arith,
}
use p2pool_go_vtc.Prelude.Int.{ℤ, pos, negsuc, add64, ltb_ℤ, leb_ℤ, pos_part}
use p2pool_go_vtc.Prelude.Bytes.{Bytes, bytes_eq}
use p2pool_go_vtc.Prelude.Eq.{bytes_Eq}
use p2pool_go_vtc.Prelude.Dict.{Dict, get_or, Distinct, insert-Distinct}
use p2pool_go_vtc.Template.{
  TemplateTx, BlockTemplate, PeerTmplVote, Templates, Tally, no_votes, tally_all, agree, is_empty,
  subsidy, total_fees, min_ℤ, tx_set_hash, intersect_template_txs,
}
use p2pool_go_vtc.Template.Apply.{
  well_formed, current_height, current_template, out_of_reach, install, cast_vote, agree_on,
  apply_remote_template,
}
use p2pool_go_vtc.Template.Votes.{Cast, Pair, Counted, tally_all-Counted}

-- What the votes can make of a template.
pub data Agreed (now : ℤ) (t : BlockTemplate) (th : Bytes) (sub : ℤ)
    (votes : Dict Bytes PeerTmplVote) : BlockTemplate → Type 0 where
  exactly :
      {v w u : PeerTmplVote} {k : Bytes}
      → Pair now t th votes [] v w
      → v.tx_hash ≡ th
      → w.tx_hash ≡ th
      → Cast now t th votes [] k u
      → u.tx_hash ≡ th
      → u.pinned ≡ true
      → Agreed now t th sub votes t
  common :
      {p o : PeerTmplVote}
      → Pair now t th votes [] p o
      → p.pinned ≡ true
      → (o.pinned ≡ true → bytes_eq o.peer_id p.peer_id ≡ false)
      → Agreed now t th sub votes (record t {
        transactions = (intersect_template_txs p.txs o.txs).0;
        coinbase_value = add64 sub (intersect_template_txs p.txs o.txs).1;
      })
  bare : Agreed now t th sub votes (record t { transactions = []; coinbase_value = sub })

no_votes-Counted :
    (now : ℤ) (t : BlockTemplate) (th : Bytes) (votes : Dict Bytes PeerTmplVote)
    → Counted now t th votes votes no_votes
no_votes-Counted now t th votes = (
  record {
    one = λ l. absurd (omega (arith, l));
    two = λ l. absurd (omega (arith, l));
    by_trusted = λ e. absurd (cc);
  },
  record { pinned = λ v e. absurd (cc); other = λ w e. absurd (cc); pair = λ v w e f. absurd (cc) },
  record { plain = λ w f e. absurd (cc); peers = λ v w e f g. absurd (cc) },
)

module _ (now : ℤ) (t : BlockTemplate) (th : Bytes) (sub : ℤ) (votes : Dict Bytes PeerTmplVote)
    (tl : Tally) (c : Counted now t th votes [] tl) (verified is_pinned : Bool) (voters : ℕ) where
  alone-Agreed :
      (t' : BlockTemplate)
      → (if leb 2 tl.header || (tl.header == 1 && verified && (is_pinned || voters == 1))
          then some (record t { transactions = []; coinbase_value = sub })
          else none)
        ≡ some t'
      → Agreed now t th sub votes t'
  alone-Agreed t' e =
      let same : record t { transactions = []; coinbase_value = sub } ≡ t' = ground (arith, e) in
      subst (Agreed now t th sub votes) same bare

  agree-Agreed :
      (t' : BlockTemplate)
      → agree t sub tl verified is_pinned voters ≡ some t'
      → Agreed now t th sub votes t'
  unfolding agree
  agree-Agreed t' e = elim (Bool-cases (leb 2 tl.exact && tl.trusted)) [
    | inl full ↦
        let two = c.0.two (ground (arith, full)) in
        let one = c.0.by_trusted (ground (arith, full)) in
        let same : t ≡ t' = ground (arith, e, full) in
        subst (Agreed now t th sub votes) same (exactly two.2 two.3 two.4 one.2 one.3 one.4)
    | inr not_full ↦ elim (Bool-cases (leb 2 tl.header)) [
      | inr few ↦ alone-Agreed t' (ground (arith, e, not_full, few))
      | inl many ↦ elim (Option-cases tl.pinned_vote) [
        | inl no_pinned ↦ alone-Agreed t' (ground (arith, e, not_full, many, no_pinned))
        | inr (p, at) ↦ elim (Option-cases tl.other_vote) [
          | inl no_other ↦ alone-Agreed t' (ground (arith, e, not_full, many, at, no_other))
          | inr (o, there) ↦
              let i = intersect_template_txs p.txs o.txs in
              let same : record t { transactions = i.0; coinbase_value = add64 sub i.1 } ≡ t' =
                ground (arith, e, not_full, many, at, there) in
              subst (Agreed now t th sub votes) same
                (common (c.1.pair p o at there) (c.1.pinned p at).2 (c.2.peers p o at there))
        ]
      ]
    ]
  ]

module _ (sha256 : Bytes → Bytes) (decimal : ℕ → Bytes) where
  abbrev hash_of_txs : List TemplateTx → Bytes
  hash_of_txs txs = tx_set_hash sha256 decimal txs

  install-kept :
      (now : ℤ) (cur : Option (Bytes × BlockTemplate)) (t : BlockTemplate) (wm : Templates)
      → ((install sha256 decimal now cur t wm).peer_tmpl ≡ wm.peer_tmpl)
        × ((install sha256 decimal now cur t wm).last_agreed ≡ now)
  unfolding install
  install-kept now cur t wm = (ground arith, ground arith)

  agree_on-Agreed :
      (now : ℤ) (is_pinned : Bool) (sub : ℤ) (t t' : BlockTemplate) (wm wm2 : Templates)
      → Distinct wm.peer_tmpl
      → agree_on sha256 decimal now is_pinned sub t wm ≡ (some t', wm2)
      → (out_of_reach (current_height now wm) t ≡ false)
        × Agreed now t (hash_of_txs t.transactions) sub wm2.peer_tmpl t'
        × (wm2.last_agreed ≡ now)
        × (wm2.peer_tmpl ≡ wm.peer_tmpl)
  unfolding agree_on
  agree_on-Agreed now is_pinned sub t t' wm wm2 distinct e =
      elim (Bool-cases (out_of_reach (current_height now wm) t)) [
        | inl far ↦ absurd (ground (arith, ap (λ r. r.0) e, far))
        | inr near ↦
            let th = hash_of_txs t.transactions in
            let tl = tally_all now t th wm.peer_tmpl no_votes in
            let seen = get_or false t.previous_block_hash wm.verified_blocks in
            let c =
              tally_all-Counted now t th wm.peer_tmpl wm.peer_tmpl no_votes distinct (λ k v at. at)
                (no_votes-Counted now t th wm.peer_tmpl) in
            elim (Option-cases (agree t sub tl seen is_pinned (length wm.peer_tmpl))) [
              | inl apart ↦ absurd (ground (arith, ap (λ r. r.0) e, near, apart))
              | inr (t1, at) ↦
                  let same : t1 ≡ t' = ground (arith, ap (λ r. r.0) e, near, at) in
                  let state : install sha256 decimal now (current_template now wm) t1 wm ≡ wm2 =
                    ground (arith, ap (λ r. r.1) e, near, at) in
                  let kept = install-kept now (current_template now wm) t1 wm in
                  let votes = sym (ap (λ w. w.peer_tmpl) state) ∙ kept.0 in
                  (
                    near,
                    subst (λ m. Agreed now t th sub m t') (sym votes)
                        (agree-Agreed now t th sub wm.peer_tmpl tl c seen is_pinned
                          (length wm.peer_tmpl) t' (at ∙ ap some same)),
                    sym (ap (λ w. w.last_agreed) state) ∙ kept.1,
                    votes,
                  )
            ]
      ]

  cast_vote-kept :
      (now : ℤ) (peer_id voter : Bytes) (is_pinned : Bool) (t : BlockTemplate) (wm : Templates)
      → current_height now (cast_vote sha256 decimal now peer_id voter is_pinned t wm)
        ≡ current_height now wm
  unfolding cast_vote current_height
  cast_vote-kept now peer_id voter is_pinned t wm = elim (Bool-cases (is_empty voter)) [
    | inl nobody ↦ rw (cast_vote, nobody) refl
    | inr somebody ↦ rw (cast_vote, somebody) refl
  ]

  cast_vote-Distinct :
      (now : ℤ) (peer_id voter : Bytes) (is_pinned : Bool) (t : BlockTemplate) (wm : Templates)
      → Distinct wm.peer_tmpl
      → Distinct (cast_vote sha256 decimal now peer_id voter is_pinned t wm).peer_tmpl
  unfolding cast_vote
  cast_vote-Distinct now peer_id voter is_pinned t wm d = elim (Bool-cases (is_empty voter)) [
    | inl nobody ↦ rw (cast_vote, nobody) d
    | inr somebody ↦ rw (cast_vote, somebody) (insert-Distinct voter _ wm.peer_tmpl d)
  ]

  -- What an accepted template went through.
  pub record Accepted (light : Bool) (now : ℤ)
      (verify : BlockTemplate → Templates → Bool × Templates) (t : BlockTemplate) (wm : Templates)
      (t' : BlockTemplate) (wm' : Templates) : Type 0 where
    pub light_mode : light ≡ true
    pub formed : well_formed t ≡ true
    pub checked : (verify t wm).0 ≡ true
    pub sum : ℤ
    pub fees : total_fees t.transactions (pos 0) ≡ some sum
    pub paid : leb_ℤ t.coinbase_value (pos 0) ≡ false
    pub covered :
        ltb_ℤ
          (add64
            (pos (subsidy (pos_part t.height)))
            (min_ℤ sum (pos (subsidy (pos_part t.height)))))
          t.coinbase_value
        ≡ false
    pub near : out_of_reach (current_height now (verify t wm).1) t ≡ false
    pub agreed :
        Agreed now t
          (hash_of_txs t.transactions)
          (pos (subsidy (pos_part t.height)))
          wm'.peer_tmpl
          t'

  -- Whatever the check of the previous block is, a template is taken over as `Accepted` says.
  pub apply_remote_template-Accepted :
      (light : Bool) (now : ℤ) (peer_id voter_key : Bytes) (is_pinned : Bool)
      (verify : BlockTemplate → Templates → Bool × Templates) (t : BlockTemplate) (wm : Templates)
      (t' : BlockTemplate) (wm' : Templates)
      → Distinct (verify t wm).1.peer_tmpl
      → apply_remote_template sha256 decimal light now peer_id voter_key is_pinned verify t wm
        ≡ (some t', wm')
      → Accepted light now verify t wm t' wm'
  unfolding apply_remote_template
  apply_remote_template-Accepted light now peer_id voter_key is_pinned verify t wm t' wm' distinct
        e =
      let none_is = ap (λ r. r.0) e in
      let voter = if is_empty voter_key then peer_id else voter_key in
      let sub = pos (subsidy (pos_part t.height)) in
      let wm1 = (verify t wm).1 in
      let score = get_or (pos 0) peer_id wm1.peer_scores in
      elim (Bool-cases (light && well_formed t)) [
        | inr bad ↦ absurd (ground (arith, none_is, bad))
        | inl fine ↦ elim (Option-cases (total_fees t.transactions (pos 0))) [
          | inl refused ↦ absurd (ground (arith, none_is, fine, refused))
          | inr (sum, at) ↦ elim (Bool-cases (verify t wm).0) [
            | inr unverified ↦ absurd (ground (arith, none_is, fine, at, unverified))
            | inl checked ↦ elim (Bool-cases (ltb_ℤ score (negsuc 1))) [
              | inl banned ↦ absurd (ground (arith, none_is, fine, at, checked, banned))
              | inr allowed ↦
                  elim (Bool-cases (
                    leb_ℤ t.coinbase_value (pos 0)
                    || ltb_ℤ (add64 sub (min_ℤ sum sub)) t.coinbase_value)) [
                      | inl greedy ↦
                          absurd (ground (arith, none_is, fine, at, checked, allowed, greedy))
                      | inr honest ↦
                          let wm2 = cast_vote sha256 decimal now peer_id voter is_pinned t wm1 in
                          let went : apply_remote_template sha256 decimal light now peer_id
                                voter_key is_pinned verify t wm
                              ≡ agree_on sha256 decimal now is_pinned sub t wm2 =
                            rw (apply_remote_template, fine, at, checked, allowed, honest) refl in
                          let on =
                            agree_on-Agreed now is_pinned sub t t' wm2 wm'
                              (cast_vote-Distinct now peer_id voter is_pinned t wm1 distinct)
                              (sym went ∙ e) in
                          record {
                            light_mode = ground (arith, fine);
                            formed = ground (arith, fine);
                            checked = checked;
                            sum = sum;
                            fees = at;
                            paid = ground (arith, honest);
                            covered = ground (arith, honest);
                            near =
                                sym (
                                  ap (λ h. out_of_reach h t)
                                    (cast_vote-kept now peer_id voter is_pinned t wm1))
                                ∙ on.0;
                            agreed = on.1;
                          }
                    ]
            ]
          ]
        ]
      ]
