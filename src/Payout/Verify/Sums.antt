-- ===== src/Payout/Verify/Sums.antt =====
-- The sums that a coinbase's outputs come to, and that `VerifyShareCoinbase` of work/coinbase.go counts
-- them right, up to the wrap of int64.
use p2pool_go_vtc.Prelude.{
  ℕ, ◌+◌, ◌^◌, ◌%◌, ◌<◌, ◌≡◌, refl, inl, inr, false, List, [], ◌∷◌, if◌then◌else◌, Bool-cases,
  arith, ◌∙◌, ap,
}
use p2pool_go_vtc.Prelude.Int.{ℤ, pos, leb_ℤ, add64, bits64, pos_part}
use p2pool_go_vtc.Prelude.Bytes.{Bytes, bytes_eq}
use p2pool_go_vtc.Prelude.Eq.{bytes_Eq, bytes_eq_iff}
use p2pool_go_vtc.Prelude.Dict.{lookup-insert}
use p2pool_go_vtc.Env.{TxOut}
use p2pool_go_vtc.Payout.Verify.{Tally, tally, count_out}
use p2pool_go_vtc.Payout.Verify.Counting.{got, count_out-got}

-- What an output pays: its value, or nothing for one that is not positive.
abbrev pub paid_by : TxOut → ℕ
paid_by o = pos_part o.value

-- What the outputs pay in all.
unfoldable pub paid : List TxOut → ℕ
paid [] = 0
paid (o ∷ outs) = paid_by o + paid outs

-- What they pay to a script.
unfoldable pub paid_to : Bytes → List TxOut → ℕ
paid_to script [] = 0
paid_to script (o ∷ outs) =
    (if bytes_eq script o.pk_script then paid_by o else 0) + paid_to script outs

-- How many are positive.
unfoldable pub payments : List TxOut → ℕ
payments [] = 0
payments (o ∷ outs) = (if leb_ℤ o.value (pos 0) then 0 else 1) + payments outs

bits64-add64 :
    (a v : ℤ) → leb_ℤ v (pos 0) ≡ false → bits64 (add64 a v) ≡ (bits64 a + pos_part v) % 2 ^ 64
unfolding add64
bits64-add64 a v positive = ground (arith, positive)

-- What one output adds to the total and to the count.
count_out-paid :
    (o : TxOut) (t : Tally)
    → (bits64 (count_out t o).tot % 2 ^ 64 ≡ (bits64 t.tot + paid_by o) % 2 ^ 64)
      × ((count_out t o).nz ≡ t.nz + (if leb_ℤ o.value (pos 0) then 0 else 1))
unfolding count_out
count_out-paid o t = elim (Bool-cases (leb_ℤ o.value (pos 0))) [
  | inl none' ↦
      let nothing : paid_by o ≡ 0 = ground (arith, none') in
      rw (count_out, none') (omega (arith, nothing), omega arith)
  | inr some' ↦
      let added = bits64-add64 t.tot o.value some' in
      rw (count_out, some') (omega (arith, added), refl)
]

pub tally-paid :
    (outs : List TxOut) (t : Tally)
    → bits64 (tally outs t).tot % 2 ^ 64 ≡ (bits64 t.tot + paid outs) % 2 ^ 64
unfolding tally paid
tally-paid [] t = omega arith
tally-paid (o ∷ outs) t =
    let first = (count_out-paid o t).0 in tally-paid outs (count_out t o) ∙ omega (arith, first)

pub tally-payments : (outs : List TxOut) (t : Tally) → (tally outs t).nz ≡ t.nz + payments outs
unfolding tally payments
tally-payments [] t = omega arith
tally-payments (o ∷ outs) t =
    let first = (count_out-paid o t).1 in tally-payments outs (count_out t o) ∙ omega (arith, first)

-- What one output adds under a script.
count_out-paid_to :
    (o : TxOut) (t : Tally) (script : Bytes)
    → bits64 (got script (count_out t o)) % 2 ^ 64
      ≡ (bits64 (got script t) + (if bytes_eq script o.pk_script then paid_by o else 0)) % 2 ^ 64
unfolding count_out
count_out-paid_to o t script = elim (Bool-cases (bytes_eq script o.pk_script)) [
  | inr other ↦
      let kept = ap bits64 (count_out-got o t script other) in rw other (omega (arith, kept))
  | inl same ↦
      let key = (bytes_eq_iff script o.pk_script).0 same in
      elim (Bool-cases (leb_ℤ o.value (pos 0))) [
        | inl none' ↦
            let nothing : paid_by o ≡ 0 = ground (arith, none') in
            rw (count_out, none', same) (omega (arith, nothing))
        | inr some' ↦
            let added = bits64-add64 (got o.pk_script t) o.value some' in
            let now : got o.pk_script (count_out t o) ≡ add64 (got o.pk_script t) o.value =
              rw (count_out, some')
                (ground (
                  arith,
                  bytes_eq_iff o.pk_script o.pk_script,
                  lookup-insert o.pk_script o.pk_script (add64 (got o.pk_script t) o.value)
                      t.actual,
                )) in
            let whole = ap bits64 now ∙ added in rw (same, key) (omega (arith, whole))
      ]
]

pub tally-paid_to :
    (script : Bytes) (outs : List TxOut) (t : Tally)
    → bits64 (got script (tally outs t)) % 2 ^ 64
      ≡ (bits64 (got script t) + paid_to script outs) % 2 ^ 64
unfolding tally paid_to
tally-paid_to script [] t = omega arith
tally-paid_to script (o ∷ outs) t =
    let rest = tally-paid_to script outs (count_out t o) in
    let first = count_out-paid_to o t script in rest ∙ omega (arith, first)

-- The total is an int64.
pub tally-small :
    (outs : List TxOut) (t : Tally) → pos_part t.tot < 2 ^ 63 → pos_part (tally outs t).tot < 2 ^ 63
unfolding tally count_out add64
tally-small [] t small = small
tally-small (o ∷ outs) t small = tally-small outs (count_out t o) (ground (arith, small))
