-- ===== src/Share/Metadata/Binding.antt =====
-- What equal metadata commitments say of the fields: `ComputeShareMetadataCommitment` of
-- work/coinbase.go.
use p2pool_go_vtc.Prelude.{
  ℕ, ◌-◌, ◌^◌, ◌<◌, ◌≡◌, refl, ◌≢◌, ◌⊎◌, inl, inr, some, ◌∷◌, ◌++◌, length, length-append, arith,
  Bool-cases, ap, sym, ◌∙◌,
}
use p2pool_go_vtc.Prelude.Int.{ℤ, pos, negsuc, ◌≤ℤ◌, ◌<ℤ◌}
use p2pool_go_vtc.Prelude.Bytes.{Bytes, bytes_eq, bytes_eq→eq, bytes_eq_ne, append_cancel}
use p2pool_go_vtc.Script.{be_bytes}
use p2pool_go_vtc.Share.Hash.{
  clone_bytes, length-le_bytes, length-be_bytes, be_bytes_injective, le_bytes_injective,
}
use p2pool_go_vtc.Share.Metadata.{
  Metadata, bits32, prev_bytes, target_bytes, preimage, tag, commitment,
}

-- The fields as a share of a held parent and a positive 256-bit target has them.
pub record InRange (m : Metadata) : Type 0 where
  pub ver_u64 : m.ver < 2 ^ 64
  pub prev : (h : ℕ) × (m.prev ≡ some h) × (h < 2 ^ 256)
  pub target : (t : ℕ) × (m.target ≡ some (pos t)) × (0 < t) × (t < 2 ^ 256)
  pub sub_u64 : m.sub < 2 ^ 64
  pub don_u16 : m.don < 2 ^ 16
  pub abs_h_low : negsuc (2 ^ 31 - 1) ≤ℤ m.abs_h
  pub abs_h_high : m.abs_h <ℤ pos (2 ^ 31)

bits32-lt : (a : ℤ) → bits32 a < 2 ^ 32
unfolding bits32
bits32-lt (pos a) = omega arith
bits32-lt (negsuc a) = omega arith

bits32_injective :
    (a b : ℤ)
    → negsuc (2 ^ 31 - 1) ≤ℤ a
    → a <ℤ pos (2 ^ 31)
    → negsuc (2 ^ 31 - 1) ≤ℤ b
    → b <ℤ pos (2 ^ 31)
    → bits32 a ≡ bits32 b
    → a ≡ b
unfolding bits32
bits32_injective (pos a) (pos b) la ha lb hb e = ap pos (omega arith)
bits32_injective (pos a) (negsuc b) la ha lb hb e = absurd (omega arith)
bits32_injective (negsuc a) (pos b) la ha lb hb e = absurd (omega arith)
bits32_injective (negsuc a) (negsuc b) la ha lb hb e = ap negsuc (omega arith)

target_bytes-some : (t : ℕ) → 0 < t → t < 2 ^ 256 → target_bytes (some (pos t)) ≡ be_bytes 32 t
unfolding target_bytes
target_bytes-some t p q = ground arith

-- Equal strings of one of these widths come from equal values.
same_be :
    (n u v : ℕ) (c d : Bytes)
    → u < 256 ^ n
    → v < 256 ^ n
    → be_bytes n u ++ c ≡ be_bytes n v ++ d
    → (u ≡ v) × (c ≡ d)
same_be n u v c d hu hv e =
    let (p, q) =
      append_cancel (be_bytes n u) (be_bytes n v) c d
        (length-be_bytes n u ∙ sym (length-be_bytes n v)) e in
    (be_bytes_injective n u v hu hv p, q)

same_prev :
    (u v : ℕ) (c d : Bytes)
    → u < 2 ^ 256
    → v < 2 ^ 256
    → clone_bytes u ++ c ≡ clone_bytes v ++ d
    → (u ≡ v) × (c ≡ d)
unfolding clone_bytes
same_prev u v c d hu hv e =
    let (p, q) = append_cancel _ _ c d (length-le_bytes 32 u ∙ sym (length-le_bytes 32 v)) e in
    (le_bytes_injective 32 u v hu hv p, q)

same_byte : (u v : ℕ) (c d : Bytes) → u ∷ c ≡ v ∷ d → (u ≡ v) × (c ≡ d)
same_byte u v c d e = (cc, cc)

-- The end of the preimage, whose length is known.
abbrev suffix : Metadata → Bytes
suffix m = be_bytes 8 m.sub ++ (be_bytes 2 m.don ++ (m.stale ∷ be_bytes 4 (bits32 m.abs_h)))

length-suffix : (m : Metadata) → length (suffix m) ≡ 15
length-suffix m = omega (
  arith,
  length-append (be_bytes 8 m.sub) (be_bytes 2 m.don ++ (m.stale ∷ be_bytes 4 (bits32 m.abs_h))),
  length-append (be_bytes 2 m.don) (m.stale ∷ be_bytes 4 (bits32 m.abs_h)),
  length-be_bytes 8 m.sub,
  length-be_bytes 2 m.don,
  length-be_bytes 4 (bits32 m.abs_h),
)

same_suffix :
    (m n : Metadata)
    → InRange m
    → InRange n
    → m.pkh ++ suffix m ≡ n.pkh ++ suffix n
    → (m.pkh ≡ n.pkh)
      × (m.sub ≡ n.sub)
      × (m.don ≡ n.don)
      × (m.stale ≡ n.stale)
      × (m.abs_h ≡ n.abs_h)
same_suffix m n rm rn e =
    let (pkh, e1) =
      append_cancel m.pkh n.pkh (suffix m) (suffix n)
        (omega (
          arith,
          ap length e,
          length-append m.pkh (suffix m),
          length-append n.pkh (suffix n),
          length-suffix m,
          length-suffix n,
        ))
        e in
    let (sub, e2) = same_be 8 m.sub n.sub _ _ rm.sub_u64 rn.sub_u64 e1 in
    let (don, e3) = same_be 2 m.don n.don _ _ rm.don_u16 rn.don_u16 e2 in
    let (stale, e4) = same_byte _ _ _ _ e3 in
    (
      pkh,
      sub,
      don,
      stale,
      bits32_injective m.abs_h n.abs_h rm.abs_h_low rm.abs_h_high rn.abs_h_low rn.abs_h_high
          (be_bytes_injective 4 _ _ (bits32-lt m.abs_h) (bits32-lt n.abs_h) e4),
    )

preimage_parts :
    (m : Metadata) (h t : ℕ)
    → m.prev ≡ some h
    → m.target ≡ some (pos t)
    → 0 < t
    → t < 2 ^ 256
    → preimage m
      ≡ be_bytes 8 m.ver ++ (clone_bytes h ++ (be_bytes 32 t ++ (m.pkh_ver ∷ (m.pkh ++ suffix m))))
unfolding preimage prev_bytes
preimage_parts m h t p q low high = rw (p, q, target_bytes-some t low high)

-- The hashed string determines the fields.
pub preimage_injective : (m n : Metadata) → InRange m → InRange n → preimage m ≡ preimage n → m ≡ n
preimage_injective m n rm rn e =
    let (h, p, hb) = rm.prev in
    let (t, q, low, high) = rm.target in
    let (h', p', hb') = rn.prev in
    let (t', q', low', high') = rn.target in
    let e0 =
      sym (preimage_parts m h t p q low high) ∙ e ∙ preimage_parts n h' t' p' q' low' high' in
    let (ver, e1) = same_be 8 m.ver n.ver _ _ rm.ver_u64 rn.ver_u64 e0 in
    let (prev, e2) = same_prev h h' _ _ hb hb' e1 in
    let (target, e3) = same_be 32 t t' _ _ high high' e2 in
    let (pkh_ver, e4) = same_byte _ _ _ _ e3 in
    let (pkh, sub, don, stale, abs_h) = same_suffix m n rm rn e4 in ground arith

-- Equal commitments are commitments to equal fields, or show two different strings with one
-- SHA-256, where the fields are in their machine ranges and have a parent and a positive 256-bit
-- target.
pub commitment_binding :
    (sha256 : Bytes → Bytes) (m n : Metadata)
    → InRange m
    → InRange n
    → commitment sha256 m ≡ commitment sha256 n
    → (m ≡ n) ⊎ ((x : Bytes) × (y : Bytes) × (x ≢ y) × (sha256 x ≡ sha256 y))
unfolding commitment
commitment_binding sha256 m n rm rn e =
    let (_, same) = append_cancel tag tag _ _ refl e in
    elim (Bool-cases (bytes_eq (preimage m) (preimage n))) [
      | inl eq ↦ inl (preimage_injective m n rm rn (bytes_eq→eq _ _ eq))
      | inr differ ↦ inr (preimage m, preimage n, bytes_eq_ne _ _ differ, same)
    ]
