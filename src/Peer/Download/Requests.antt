-- ===== src/Peer/Download/Requests.antt =====
-- What the download loop asks for, and when it asks again.
use p2pool_go_vtc.Prelude.{
  ℕ, zero, suc, ◌≤◌, ◌<◌, ◌≡◌, refl, ◌⊎◌, inl, inr, false, not, Option, none, some, List, [], ◌∷◌,
  length, length-take, get_elem?, get_elem?_total, get_elem?-filter, take, ltb, ◌==◌, if◌then◌else◌,
  arith, Bool-cases, sym, ap, ◌∙◌, subst,
}
use mathlib.Core.Option.{some-injective, none-ne-some}
use p2pool_go_vtc.Prelude.Int.{ℤ, pos, ◌-ℤ◌, ◌≤ℤ◌}
use p2pool_go_vtc.Prelude.Bytes.{Bytes}
use p2pool_go_vtc.Prelude.Eq.{nat_Eq}
use p2pool_go_vtc.Prelude.Dict.{Dict, lookup, has, lookup-insert}
use p2pool_go_vtc.Peer.Download.{
  ShareReq, World, Outcome, max_download_parents, max_stop_hashes, download_requery_delay, expire,
  wanted, finish, idle, step,
}

-- `rand.Intn` returns a number below its argument.
abbrev pub Draws : World → Type 0
Draws w = (k n : ℕ) → 0 < n → w.intn k n < n

-- What one request asks for: a missing share that was not answered lately, of a peer at hand.
pub record Asks (w : World) (before : Dict ℕ ℤ) (pid : Bytes) (req : ShareReq) : Type 0 where
  pub hash : ℕ
  pub one : req.hashes ≡ hash ∷ []
  pub missing : (j : ℕ) × (get_elem? w.missing j ≡ some hash)
  pub due : (t : ℤ) → lookup hash before ≡ some t → pos download_requery_delay ≤ℤ w.now -ℤ t
  pub peer : (j : ℕ) × (get_elem? w.peers j ≡ some pid)
  pub few_parents : req.parents < max_download_parents
  pub few_stops : length req.stops ≤ max_stop_hashes

-- A request that brought shares: `1 + extra` of them.
pub record Answered (w : World) (o : Outcome) : Type 0 where
  pub hash : ℕ
  pub pid : Bytes
  pub req : ShareReq
  pub extra : ℕ
  pub requested : o.request ≡ some (pid, req)
  pub one : req.hashes ≡ hash ∷ []
  pub brought : w.fetch pid req ≡ some (suc extra)
  pub kept : lookup hash o.answered ≡ some w.now

-- An entry is forgotten only when it is old.
expire-due :
    (now : ℤ) (before : Dict ℕ ℤ) (h : ℕ) (t : ℤ)
    → has h (expire now before) ≡ false
    → lookup h before ≡ some t
    → pos download_requery_delay ≤ℤ now -ℤ t
unfolding expire
expire-due now [] h t gone e = cc
expire-due now (x ∷ m) h t gone e = ground (arith, expire-due now m h t)

-- Each wanted hash is missing, and was not answered lately.
wanted-get :
    (answered : Dict ℕ ℤ) (missing : List ℕ) (i h : ℕ)
    → get_elem? (wanted answered missing) i ≡ some h
    → (has h answered ≡ false) × ((j : ℕ) × (get_elem? missing j ≡ some h))
unfolding wanted
wanted-get answered missing i h e =
    let at = get_elem?-filter (λ h. not (has h answered)) missing i h e in
    (ground (arith, at.0), at.1)

capped : (stops : List ℕ) → List ℕ
capped stops = if ltb max_stop_hashes (length stops) then take max_stop_hashes stops else stops

length-capped : (stops : List ℕ) → length (capped stops) ≤ max_stop_hashes
unfolding capped
length-capped stops = elim (Bool-cases (ltb max_stop_hashes (length stops))) [
  | inl more ↦ rw more (omega (arith, length-take max_stop_hashes stops))
  | inr fits ↦ rw fits (ground (arith, fits))
]

-- The request that a step makes when there is one to make.
asked_for : World → ℕ → ShareReq
asked_for w h = record {
  hashes = h ∷ [];
  parents = w.intn 2 max_download_parents;
  stops = capped w.stops;
}

-- The ways that a step goes.
record Sends (w : World) (before : Dict ℕ ℤ) : Type 0 where
  pub hash : ℕ
  pub pid : Bytes
  pub at :
      get_elem?
        (wanted (expire w.now before) w.missing)
        (w.intn 0 (length (wanted (expire w.now before) w.missing)))
      ≡ some hash
  pub peer_at : get_elem? w.peers (w.intn 1 (length w.peers)) ≡ some pid
  pub sent :
      step w before
      ≡ some (
          finish
            (expire w.now before)
            w.now
            hash
            pid
            (asked_for w hash)
            (w.fetch pid (asked_for w hash)))

step-cases :
    (w : World) (before : Dict ℕ ℤ)
    → Draws w
    → (step w before ≡ some (idle (expire w.now before))) ⊎ Sends w before
unfolding step capped asked_for
step-cases w before draws =
    elim (Bool-cases (length (wanted (expire w.now before) w.missing) == 0)) [
      | inl none_wanted ↦ inl (rw none_wanted refl)
      | inr some_wanted ↦ elim (Bool-cases (length w.peers == 0)) [
        | inl no_peer ↦ inl (rw some_wanted (rw no_peer refl))
        | inr a_peer ↦
            let want = wanted (expire w.now before) w.missing in
            let h =
              get_elem?_total want (w.intn 0 (length want))
                (draws 0 (length want) (ground arith)) in
            let p =
              get_elem?_total w.peers (w.intn 1 (length w.peers))
                (draws 1 (length w.peers) (ground arith)) in
            inr (record {
              hash = h.0;
              pid = p.0;
              at = h.1;
              peer_at = p.1;
              sent = rw some_wanted (rw a_peer (rw h.1 (rw p.1 refl)));
            })
      ]
    ]

-- When `rand.Intn` draws below its argument, a step indexes no list out of range.
pub step-total :
    (w : World) (before : Dict ℕ ℤ) → Draws w → (o : Outcome) × (step w before ≡ some o)
step-total w before draws = elim (step-cases w before draws) [
  | inl rests ↦ (_, rests)
  | inr sends ↦ (_, sends.sent)
]

finish-request :
    (answered : Dict ℕ ℤ) (now : ℤ) (h : ℕ) (pid : Bytes) (req : ShareReq) (got : Option ℕ)
    → (finish answered now h pid req got).request ≡ some (pid, req)
unfolding finish
finish-request answered now h pid req none = refl
finish-request answered now h pid req (some got) = ground arith

-- When rand.Intn draws below its argument, a request asks a peer at hand for one missing share
-- that was not answered within the last 45 seconds, with fewer than 500 parents and at most 100
-- stop hashes.
pub step-Asks :
    (w : World) (before : Dict ℕ ℤ) (o : Outcome) (pid : Bytes) (req : ShareReq)
    → Draws w
    → step w before ≡ some o
    → o.request ≡ some (pid, req)
    → Asks w before pid req
unfolding idle asked_for
step-Asks w before o pid req draws stepped asks = elim (step-cases w before draws) [
  | inl rests ↦
      let same : idle (expire w.now before) ≡ o =
        some-injective (idle (expire w.now before)) o (sym rests ∙ stepped) in
      let no_request : none ≡ some (pid, req) = ap (λ p. p.request) same ∙ asks in
      absurd (none-ne-some (pid, req) no_request)
  | inr sends ↦
      let same = some-injective _ o (sym sends.sent ∙ stepped) in
      let made =
        sym (
          finish-request (expire w.now before) w.now sends.hash sends.pid (asked_for w sends.hash)
            (w.fetch sends.pid (asked_for w sends.hash)))
        ∙ ap (λ p. p.request) same
        ∙ asks in
      let want = wanted-get (expire w.now before) w.missing _ sends.hash sends.at in
      subst (λ r. Asks w before r.0 r.1)
        (some-injective (sends.pid, asked_for w sends.hash) (pid, req) made)
        (record {
          hash = sends.hash;
          one = refl;
          missing = want.1;
          due = λ t e. expire-due w.now before sends.hash t want.0 e;
          peer = (_, sends.peer_at);
          few_parents = draws 2 max_download_parents (ground arith);
          few_stops = length-capped w.stops;
        })
]

finish-answered :
    (answered : Dict ℕ ℤ) (now : ℤ) (h : ℕ) (pid : Bytes) (req : ShareReq) (got : Option ℕ)
    → (finish answered now h pid req got).wait ≡ 0
    → (n : ℕ) × ((got ≡ some (suc n))
        × (lookup h (finish answered now h pid req got).answered ≡ some now))
unfolding finish
finish-answered answered now h pid req none at_once = absurd (ground arith)
finish-answered answered now h pid req (some zero) at_once = absurd (ground arith)
finish-answered answered now h pid req (some (suc n)) at_once =
    (n, (refl, ground (arith, lookup-insert h h now answered)))

-- When rand.Intn draws below its argument and a step waits for nothing, its request brought at
-- least one share, and the hash that it asked for counts as answered at the time of the step.
pub step-Answered :
    (w : World) (before : Dict ℕ ℤ) (o : Outcome)
    → Draws w
    → step w before ≡ some o
    → o.wait ≡ 0
    → Answered w o
unfolding idle asked_for
step-Answered w before o draws stepped at_once = elim (step-cases w before draws) [
  | inl rests ↦
      let same : idle (expire w.now before) ≡ o =
        some-injective (idle (expire w.now before)) o (sym rests ∙ stepped) in
      absurd (ground (arith, ap (λ p. p.wait) same))
  | inr sends ↦
      let req = asked_for w sends.hash in
      let same = some-injective _ o (sym sends.sent ∙ stepped) in
      let answered =
        finish-answered (expire w.now before) w.now sends.hash sends.pid req (w.fetch sends.pid req)
          (ap (λ p. p.wait) same ∙ at_once) in
      record {
        hash = sends.hash;
        pid = sends.pid;
        req = req;
        extra = answered.0;
        requested =
            sym (ap (λ p. p.request) same)
            ∙ finish-request (expire w.now before) w.now sends.hash sends.pid req
                (w.fetch sends.pid req);
        one = refl;
        brought = answered.1.0;
        kept = ap (λ p. lookup sends.hash p.answered) (sym same) ∙ answered.1.1;
      }
]
