-- ===== src/Template.antt =====
-- Block templates that peers send to a light node: `ApplyRemoteTemplateJSON` of work/manager.go. Peers
-- vote with the templates they send; a node in light mode mines on what they agree on.
pub mod Headers
pub mod Apply
pub mod Common
pub mod Votes
pub mod Applied
pub mod Light
pub mod Blocks
mod Tests
use p2pool_go_vtc.Prelude.{
  ℕ, ◌+◌, ◌*◌, ◌/◌, ◌^◌, Bool, true, false, ◌&&◌, ◌||◌, not, Option, none, some, List, [], ◌∷◌,
  ◌++◌, length, any, leb, ltb, ◌==◌, if◌then◌else◌, ◌>>=◌,
}
use p2pool_go_vtc.Prelude.Int.{ℤ, pos, negsuc, ◌-ℤ◌, ltb_ℤ, leb_ℤ, add64, pos_part}
use p2pool_go_vtc.Prelude.Bytes.{Bytes, bytes_eq}
use p2pool_go_vtc.Prelude.Eq.{bytes_Eq}
use p2pool_go_vtc.Prelude.Dict.{Dict, lookup, get_or, insert}
use p2pool_go_vtc.Merkle.{dbl_sha256}

-- `BlockTemplateTx`, with the fields that the code reads.
pub record TemplateTx : Type 0 where
  pub raw : Bytes
  pub tx_id : Bytes
  pub hash : Bytes
  pub depends : List ℤ
  pub fee : ℤ

-- `BlockTemplate`, likewise.
pub record BlockTemplate : Type 0 where
  pub previous_block_hash : Bytes
  pub transactions : List TemplateTx
  pub coinbase_value : ℤ  -- int64
  pub bits : Bytes
  pub height : ℤ  -- int64
  pub full_node : Bool
  pub prev_block_header_hex : Bytes
  pub ancestor_headers_hex : List Bytes

-- `peerTmplVote`
pub record PeerTmplVote : Type 0 where
  pub peer_id : Bytes
  pub pinned : Bool
  pub prev : Bytes
  pub tx_hash : Bytes
  pub bits : Bytes
  pub height : ℤ
  pub txs : List TemplateTx
  pub ts : ℤ  -- nanoseconds

-- The fields of `WorkManager` that `TemplateMutex` guards.
pub record Templates : Type 0 where
  pub templates : Dict Bytes BlockTemplate
  pub peer_tmpl : Dict Bytes PeerTmplVote
  pub peer_scores : Dict Bytes ℤ
  pub last_agreed : ℤ
  pub verified_blocks : Dict Bytes Bool

abbrev pub is_empty : Bytes → Bool
is_empty s = bytes_eq s []

abbrev pub tx_key : TemplateTx → Bytes
tx_key tx = if is_empty tx.tx_id then tx.hash else tx.tx_id

-- Is there a transaction with the key?
abbrev pub has_tx : Bytes → List TemplateTx → Bool
has_tx k txs = any (λ tx. bytes_eq (tx_key tx) k) txs

-- Does `intersectTemplateTxs` take the transaction?
abbrev pub is_common : TemplateTx → List TemplateTx → Bool
is_common tx b = not (is_empty (tx_key tx)) && has_tx (tx_key tx) b && length tx.depends == 0

-- The loop of `intersectTemplateTxs` over `a`.
unfoldable pub common_txs : List TemplateTx → List TemplateTx → List TemplateTx × ℤ
common_txs [] b = ([], pos 0)
common_txs (tx ∷ a) b =
    let rest = common_txs a b in if is_common tx b then (tx ∷ rest.0, add64 tx.fee rest.1) else rest

-- `intersectTemplateTxs`
unfoldable pub intersect_template_txs : List TemplateTx → List TemplateTx → List TemplateTx × ℤ
intersect_template_txs a b = if length a == 0 || length b == 0 then ([], pos 0) else common_txs a b

-- `int64(5000000000) >> (uint(t.Height)/840000)`
unfoldable pub subsidy : ℕ → ℕ
subsidy h = 5000000000 / 2 ^ (h / 840000)

-- The sum of the fees; `none` for a transaction that is refused.
unfoldable pub total_fees : List TemplateTx → ℤ → Option ℤ
total_fees [] sum = some sum
total_fees (tx ∷ txs) sum =
    let rest = total_fees txs (add64 sum tx.fee) in
    if ltb_ℤ tx.fee (pos 0) || (is_empty tx.raw && is_empty tx.tx_id && is_empty tx.hash)
    then none
    else rest

abbrev pub min_ℤ : ℤ → ℤ → ℤ
min_ℤ a b = if ltb_ℤ b a then b else a

-- What the loop over the votes counts.
pub record Tally : Type 0 where
  pub exact : ℕ
  pub header : ℕ
  pub trusted : Bool
  pub pinned_vote : Option PeerTmplVote
  pub other_vote : Option PeerTmplVote

abbrev pub no_votes : Tally
no_votes = record { exact = 0; header = 0; trusted = false; pinned_vote = none; other_vote = none }

-- Is the vote less than two minutes old, for the same block and bits?
unfoldable pub counts : ℤ → BlockTemplate → PeerTmplVote → Bool
counts now t v =
    ltb_ℤ (now -ℤ v.ts) (pos 120000000000)
    && bytes_eq v.prev t.previous_block_hash
    && bytes_eq v.bits t.bits

-- The votes to intersect, after one more.
unfoldable pub choose_votes : PeerTmplVote → Tally → Tally
choose_votes v tl = elim v.pinned [
  | false ↦ elim tl.other_vote [ some w ↦ tl | none ↦ record tl { other_vote = some v } ]
  | true ↦ elim tl.pinned_vote [
    | none ↦ record tl { pinned_vote = some v }
    | some p ↦ elim tl.other_vote [
      | some w ↦ tl
      | none ↦ elim (bytes_eq v.peer_id p.peer_id) [
        | true ↦ tl
        | false ↦ record tl { other_vote = some v }
      ]
    ]
  ]
]

-- One turn of the loop.
unfoldable pub tally_vote : ℤ → BlockTemplate → Bytes → PeerTmplVote → Tally → Tally
tally_vote now t th v tl = elim (counts now t v) [
  | false ↦ tl
  | true ↦
      let chosen = choose_votes v tl in
      elim (bytes_eq v.tx_hash th) [
        | false ↦ record chosen { header = tl.header + 1 }
        | true ↦ record chosen {
          header = tl.header + 1;
          exact = tl.exact + 1;
          trusted = tl.trusted || v.pinned;
        }
      ]
]

unfoldable pub tally_all : ℤ → BlockTemplate → Bytes → Dict Bytes PeerTmplVote → Tally → Tally
tally_all now t th [] tl = tl
tally_all now t th (e ∷ m) tl = tally_all now t th m (tally_vote now t th e.1 tl)

-- The template that the votes agree on, if they do.
unfoldable pub agree : BlockTemplate → ℤ → Tally → Bool → Bool → ℕ → Option BlockTemplate
agree t sub tl prev_verified is_pinned voters =
    let bare = record t { transactions = []; coinbase_value = sub } in
    let alone =
      if leb 2 tl.header || (tl.header == 1 && prev_verified && (is_pinned || voters == 1))
      then some bare
      else none in
    if leb 2 tl.exact && tl.trusted
    then some t
    else if leb 2 tl.header
    then (elim tl.pinned_vote [
      | none ↦ alone
      | some p ↦ elim tl.other_vote [
        | none ↦ alone
        | some o ↦
            let common = intersect_template_txs p.txs o.txs in
            some (record t { transactions = common.0; coinbase_value = add64 sub common.1 })
      ]
    ])
    else alone

-- The template of the greatest height, with its key, where the ones of equal height count later.
unfoldable pub current :
    Dict Bytes BlockTemplate
    → ℤ × Option (Bytes × BlockTemplate)
    → ℤ × Option (Bytes × BlockTemplate)
current [] best = best
current (e ∷ m) best = current m (if leb_ℤ best.0 e.1.height then (e.1.height, some e) else best)

module _ (sha256 : Bytes → Bytes) (decimal : ℕ → Bytes) where
  abbrev pub tx_ids : List TemplateTx → Bytes
  tx_ids [] = []
  tx_ids (tx ∷ txs) = tx.tx_id ++ tx.hash ++ tx_ids txs

  -- `txSetHash`, as the bytes of the hash that it returns in hex; `decimal` is fmt's `%d`.
  unfoldable pub tx_set_hash : List TemplateTx → Bytes
  tx_set_hash txs = dbl_sha256 sha256 (dbl_sha256 sha256 (decimal (length txs)) ++ tx_ids txs)
