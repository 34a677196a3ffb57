-- ===== src/Template/Tests.antt =====
-- The theorems on templates, at one with a single transaction and at one block.
use p2pool_go_vtc.Share.{target_to_diff}
use p2pool_go_vtc.Merkle.{dbl_sha256}
use p2pool_go_vtc.Prelude.{ℕ, ◌*◌, ◌^◌, replicate, ◌≡◌, refl, true, false, Option, some, [], ◌∷◌}
use p2pool_go_vtc.Prelude.Int.{ℤ, pos, ◌-ℤ◌, add64}
use p2pool_go_vtc.Prelude.Bytes.{Bytes}
use p2pool_go_vtc.Template.{
  TemplateTx, BlockTemplate, Templates, tx_set_hash, intersect_template_txs, total_fees, subsidy,
  current, agree, tally_all, tally_vote, counts,
}
use p2pool_go_vtc.Template.Apply.{
  vote_of, apply_remote_template, well_formed, agree_on, out_of_reach, current_height, cast_vote,
}
use p2pool_go_vtc.Template.Applied.{Accepted}
use p2pool_go_vtc.Template.Headers.{
  RawHeader, verify_template_prev_header, get_recent_network_bits, verify_header80, links,
  knows_block_hash, holds_verified, names_prev_block,
}
use p2pool_go_vtc.Template.Light.{
  check_prev, GoodParent, apply_remote_template_json, apply_remote_template_json-Accepted,
}
use p2pool_go_vtc.Chain.{ShareChain}
use p2pool_go_vtc.Template.Common.{Picked, intersect_template_txs-Picked}
use p2pool_go_vtc.Template.Blocks.{PayoutBlock, state_pending, Settles, settle, settle-Settles}
use p2pool_go_vtc.Sample.{first_32, milli, share, chain_of}

abbrev digit : ℕ → Bytes
digit n = n ∷ []

abbrev payment : TemplateTx
payment = record { raw = 1 ∷ []; tx_id = 5 ∷ []; hash = 6 ∷ []; depends = []; fee = pos 1 }

abbrev template : BlockTemplate
template = record {
  previous_block_hash = 2 ∷ [];
  transactions = payment ∷ [];
  coinbase_value = pos 5000000001;
  bits = 1 ∷ [];
  height = pos 10;
  full_node = true;
  prev_block_header_hex = replicate 160 1;
  ancestor_headers_hex = [];
}

-- A trusted peer has voted for the template.
abbrev one_vote : Templates
one_vote = record {
  templates = [];
  peer_tmpl = (97 ∷ [], vote_of first_32 digit (pos 1000) (97 ∷ []) true template) ∷ [];
  peer_scores = [];
  last_agreed = pos 0;
  verified_blocks = [];
}

-- Every header of 160 digits reads as the block 2 on the block 5.
abbrev parse : Bytes → Option RawHeader
parse raw = some (record { block_hash = 2 ∷ []; prev_block = 5 ∷ []; bits = 1; pow = some 0 })

abbrev easy : ℕ → ℤ
easy bits = pos (0xFFFF * 2 ^ 216)

-- A chain with a verified share on the block 5.
abbrev on_block : ShareChain ℕ
on_block =
    let s = share 1 0 2 1010 in
    record (chain_of
      ((1, record s { min_header = record s.min_header { bits = 1; previous_block = some 5 } })
        ∷ [])
      (some 1)) { verified = (1, true) ∷ [] }

abbrev after_second : Option BlockTemplate × Templates
after_second =
    apply_remote_template_json milli easy parse digit (λ t. some 1) on_block first_32 digit true
      (pos 2000) (98 ∷ []) [] false template one_vote

second_agrees : after_second ≡ (some template, after_second.1)
unfolding apply_remote_template_json apply_remote_template well_formed total_fees
    verify_template_prev_header target_to_diff get_recent_network_bits verify_header80 links
    knows_block_hash holds_verified names_prev_block add64 subsidy agree_on out_of_reach
    current_height current cast_vote agree tally_all tally_vote counts ◌-ℤ◌ tx_set_hash dbl_sha256
second_agrees = refl

apply_remote_template_json-Accepted_example :
    GoodParent milli easy parse digit (λ t. some 1) on_block template one_vote
    × Accepted first_32 digit true
        (pos 2000)
        (check_prev milli easy parse digit (λ t. some 1) on_block)
        template
        one_vote
        template
        after_second.1
apply_remote_template_json-Accepted_example =
    apply_remote_template_json-Accepted milli easy parse digit (λ t. some 1) on_block first_32 digit
      true (pos 2000) (98 ∷ []) [] false template one_vote template after_second.1 (refl, tt)
      second_agrees

intersect_template_txs-Picked_example :
    Picked
      (payment ∷ [])
      (payment ∷ [])
      (intersect_template_txs (payment ∷ []) (payment ∷ [])).0
      (intersect_template_txs (payment ∷ []) (payment ∷ [])).1
intersect_template_txs-Picked_example = intersect_template_txs-Picked (payment ∷ []) (payment ∷ [])

abbrev found_block : PayoutBlock
found_block = record {
  block_hash = some 7;
  block_height = pos 10;
  state = state_pending;
  confirmed = false;
}

settle-Settles_example :
    Settles
      (pos 110)
      false
      (some (pos 3))
      found_block
      (settle (pos 110) false true (some (pos 3)) found_block)
settle-Settles_example = settle-Settles (pos 110) false true (some (pos 3)) found_block
