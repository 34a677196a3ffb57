-- ===== src/Payout/Verify/Counting.antt =====
-- How the outputs of a coinbase are counted.
use p2pool_go_vtc.Prelude.{
  ℕ, ◌+◌, ◌^◌, ◌<◌, ◌≡◌, refl, inl, inr, Bool, true, false, none, some, List, [], ◌∷◌, ◌++◌, length,
  any, map, arith, Option-cases, All, ◌∙◌, ap, subst,
}
use p2pool_go_vtc.Prelude.Int.{ℤ, pos, add64, add64_pos}
use p2pool_go_vtc.Prelude.Bytes.{Bytes, bytes_eq, bytes_eq_sym_false}
use p2pool_go_vtc.Prelude.Eq.{bytes_Eq, bytes_eq_iff}
use p2pool_go_vtc.Prelude.Dict.{Dict, get_or, lookup-insert}
use p2pool_go_vtc.Env.{Codec, TxOut}
use p2pool_go_vtc.Address.{address_to_script}
use p2pool_go_vtc.Payout.{PayoutOutput}
use p2pool_go_vtc.Payout.Sorting.{Differing}
use p2pool_go_vtc.Payout.Conservation.{total_of}
use p2pool_go_vtc.Payout.Verify.{Tally, count_out, tally, check_amounts, payout_tx_outs}

-- The amount counted under a script.
abbrev pub got : Bytes → Tally → ℤ
got script t = get_or (pos 0) script t.actual

abbrev pub scripts : List TxOut → List Bytes
scripts outs = map (λ o. o.pk_script) outs

pub count_out-got :
    (o : TxOut) (t : Tally) (script : Bytes)
    → bytes_eq script o.pk_script ≡ false
    → got script (count_out t o) ≡ got script t
unfolding count_out
count_out-got o t script differ = ground (
  arith,
  bytes_eq_iff script o.pk_script,
  bytes_eq_iff o.pk_script script,
  lookup-insert o.pk_script script (add64 (got o.pk_script t) o.value) t.actual,
)

-- Outputs to other scripts leave a script's amount alone.
pub tally-got :
    (outs : List TxOut) (t : Tally) (script : Bytes)
    → All (λ b. bytes_eq script b ≡ false) (scripts outs)
    → got script (tally outs t) ≡ got script t
unfolding tally
tally-got [] t script differ = refl
tally-got (o ∷ outs) t script differ =
    tally-got outs (count_out t o) script differ.1 ∙ count_out-got o t script differ.0

module _ (codec : Codec) where
  -- The output of a payout.
  pub payout_tx_outs-cons :
      (o : PayoutOutput) (os : List PayoutOutput) (outs : List TxOut)
      → payout_tx_outs codec (o ∷ os) ≡ some outs
      → (script : Bytes) × (rest : List TxOut) × (address_to_script codec o.address ≡ some script)
        × (payout_tx_outs codec os ≡ some rest)
        × (outs ≡ record { value = pos o.amount; pk_script = script } ∷ rest)
  unfolding payout_tx_outs
  payout_tx_outs-cons o os outs e = elim (Option-cases (address_to_script codec o.address)) [
    | inl bad ↦ ground arith
    | inr (script, good) ↦ elim (Option-cases (payout_tx_outs codec os)) [
      | inl bad ↦ ground arith
      | inr (rest, more) ↦ (script, rest, good, more, ground arith)
    ]
  ]

  -- Before a run over payouts: the scripts are new, and the total does not overflow.
  abbrev pub Fresh : Tally → List TxOut → Type 0
  Fresh t outs = All (λ b. got b t ≡ pos 0) (scripts outs)

  pub still-Fresh :
      (t : Tally) (o : TxOut) (outs : List TxOut)
      → All (λ b. bytes_eq o.pk_script b ≡ false) (scripts outs)
      → Fresh t outs
      → Fresh (count_out t o) outs
  still-Fresh t o [] differ fresh = tt
  still-Fresh t o (p ∷ outs) differ fresh = (
    count_out-got o t p.pk_script (bytes_eq_sym_false o.pk_script p.pk_script differ.0) ∙ fresh.0,
    still-Fresh t o outs differ.1 fresh.1,
  )

  pub check_first :
      (o : PayoutOutput) (os : List PayoutOutput) (script : Bytes) (actual : Dict Bytes ℤ)
      → address_to_script codec o.address ≡ some script
      → get_or (pos 0) script actual ≡ pos o.amount
      → check_amounts codec actual os ≡ none
      → check_amounts codec actual (o ∷ os) ≡ none
  unfolding check_amounts
  check_first o os script actual good amount rest = ground arith

  -- What a positive output adds.
  pub count_positive :
      (t : Tally) (n a : ℕ) (o : TxOut)
      → o.value ≡ pos a
      → 0 < a
      → t.tot ≡ pos n
      → n + a < 2 ^ 63
      → got o.pk_script t ≡ pos 0
      → ((count_out t o).tot ≡ pos (n + a))
        × ((count_out t o).nz ≡ t.nz + 1)
        × (got o.pk_script (count_out t o) ≡ pos a)
  unfolding count_out
  count_positive t n a o value positive tot fits fresh = ground (
    arith,
    add64_pos n a,
    add64_pos 0 a,
    bytes_eq_iff o.pk_script o.pk_script,
    lookup-insert o.pk_script o.pk_script (add64 (got o.pk_script t) o.value) t.actual,
  )

  pub tally_payouts :
      (os : List PayoutOutput) (outs : List TxOut) (t : Tally) (n : ℕ)
      → payout_tx_outs codec os ≡ some outs
      → All (λ o. 0 < o.amount) os
      → Differing (scripts outs)
      → Fresh t outs
      → t.tot ≡ pos n
      → n + total_of os < 2 ^ 63
      → ((tally outs t).tot ≡ pos (n + total_of os))
        × ((tally outs t).nz ≡ t.nz + length os)
        × (check_amounts codec (tally outs t).actual os ≡ none)
  unfolding tally check_amounts payout_tx_outs
  tally_payouts [] [] t n e positive differ fresh tot fits =
      (tot ∙ ap pos (omega arith), omega arith, refl)
  tally_payouts [] (p ∷ outs) t n e positive differ fresh tot fits = absurd (ground arith)
  tally_payouts (o ∷ os) [] t n e positive differ fresh tot fits =
      let (script, rest, good, more, shape) = payout_tx_outs-cons o os [] e in cc
  tally_payouts (o ∷ os) (p ∷ outs) t n e positive differ fresh tot fits =
      let (script, rest, good, more, shape) = payout_tx_outs-cons o os (p ∷ outs) e in
      let value : p.value ≡ pos o.amount = ground arith in
      let under : p.pk_script ≡ script = ground arith in
      let (tot', nz', got') =
        count_positive t n o.amount p value positive.0 tot (omega arith) fresh.0 in
      let (total, count, checked) =
        tally_payouts os outs (count_out t p) (n + o.amount) (more ∙ ground arith) positive.1
          differ.1 (still-Fresh t p outs differ.0 fresh.1) tot' (omega arith) in
      let kept = tally-got outs (count_out t p) p.pk_script differ.0 ∙ got' in
      (
        total ∙ ap pos (omega arith),
        omega arith,
        check_first o os script _ good
            (subst (λ b. got b (tally outs (count_out t p)) ≡ pos o.amount) under kept) checked,
      )

pub tally-append : (xs ys : List TxOut) (t : Tally) → tally (xs ++ ys) t ≡ tally ys (tally xs t)
unfolding tally
tally-append [] ys t = refl
tally-append (x ∷ xs) ys t = tally-append xs ys (count_out t x)

-- Outputs of nothing are not counted.
pub tally_zeros : (zs : List TxOut) (t : Tally) → All (λ o. o.value ≡ pos 0) zs → tally zs t ≡ t
unfolding tally count_out
tally_zeros [] t nothing = refl
tally_zeros (z ∷ zs) t nothing = rw (nothing.0, count_out) (tally_zeros zs t nothing.1)

pub any-append_right :
    {A : Type 0} (p : A → Bool) (xs ys : List A) → any p ys ≡ true → any p (xs ++ ys) ≡ true
any-append_right p [] ys h = h
any-append_right p (x ∷ xs) ys h = ground (arith, any-append_right p xs ys h)
