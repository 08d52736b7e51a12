-- ===== src/Vlenc/RoundTrip.antt =====
-- The decoder reads back what the encoder wrote, and stops where it ended.
use caliper.Base.{ℕ, zero, suc, ◌+◌, ◌*◌, ◌/◌, ◌%◌, ◌^◌, ◌≤◌, ◌<◌, ◌≡◌, arith}
use caliper.Base.{List, ◌∷◌, ◌++◌, length, some, ap, ◌∙◌}
use caliper.Base.Bits.{and_0x7F, and_0x80, or_disjoint}
use caliper.Base.Memory.{drop-append}
use caliper.Vlenc.{IsU64, group_at, decode_from, vldec_u64, vldec_at, vlenc_u64}
use caliper.Vlenc.Encode.{groups, vlenc_u64-groups}
use Prim.Native.Nat.{bit_or}
use native.Mathlib.Nat.{div-add-mod, mod-eq_of_lt}
use native.Mathlib.Numerals.{towards_suc}
use caliper.Base.{Bool-cases, ltb, inl, inr, ◌∙◌}

pow_seven : (s : ℕ) → 2 ^ (s + 7) ≡ 128 * 2 ^ s
pow_seven s = simp towards_suc (omega arith)

next_group : (p : ℕ) → 2 ^ (7 * (p + 1)) ≡ 128 * 2 ^ (7 * p)
next_group p = let e : 7 * (p + 1) ≡ 7 * p + 7 = omega arith in rw e (pow_seven (7 * p))

-- One group joins the value, if nothing is lost above bit 63.
join_group :
    (b p val : ℕ)
    → val < 2 ^ (7 * p)
    → IsU64 (val + b % 128 * 2 ^ (7 * p))
    → bit_or val (group_at b p) ≡ val + b % 128 * 2 ^ (7 * p)
join_group b p val small fits =
    let e : b % 128 * 2 ^ (7 * p) % 2 ^ 64 ≡ b % 128 * 2 ^ (7 * p) = mod-eq_of_lt (omega arith) in
    rw (and_0x7F b, e) (or_disjoint (7 * p) val (b % 128) small)

last_byte :
    (b p val : ℕ) (rest : List ℕ)
    → b < 128
    → val < 2 ^ (7 * p)
    → IsU64 (val + b * 2 ^ (7 * p))
    → decode_from (b ∷ rest) p val ≡ some (val + b * 2 ^ (7 * p), p + 1)
unfolding decode_from
last_byte b p val rest hb small fits =
    let e : b % 128 ≡ b = mod-eq_of_lt hb in
    let j : bit_or val (group_at b p) ≡ val + b * 2 ^ (7 * p) =
      rw e at (join_group b p val small (rw e fits)) in
    ground (arith, j, and_0x80 b)

inner_byte :
    (g p val : ℕ) (rest : List ℕ)
    → g < 128
    → p < 9
    → val < 2 ^ (7 * p)
    → IsU64 (val + g * 2 ^ (7 * p))
    → decode_from ((g + 128) ∷ rest) p val ≡ decode_from rest (p + 1) (val + g * 2 ^ (7 * p))
unfolding decode_from
inner_byte g p val rest hg hp small fits =
    let e : (g + 128) % 128 ≡ g = omega arith in
    let j : bit_or val (group_at (g + 128) p) ≡ val + g * 2 ^ (7 * p) =
      rw e at (join_group (g + 128) p val small (rw e fits)) in
    ground (arith, j, and_0x80 (g + 128))

-- The low group of `w` and the rest, both from bit `7 * p` on.
split_group : (w p : ℕ) → w * 2 ^ (7 * p) ≡ w % 128 * 2 ^ (7 * p) + w / 128 * 2 ^ (7 * (p + 1))
split_group w p = omega (
  arith,
  ap (λ (t : ℕ). t * 2 ^ (7 * p)) (div-add-mod w 128),
  ap (λ (t : ℕ). w / 128 * t) (next_group p),
)

group_small :
    (g p val : ℕ) → g < 128 → val < 2 ^ (7 * p) → val + g * 2 ^ (7 * p) < 2 ^ (7 * (p + 1))
group_small g p val hg small =
    let m : g * 2 ^ (7 * p) ≤ 127 * 2 ^ (7 * p) = grind arith in omega (arith, next_group p)

decode_from-groups :
    (n w p val : ℕ) (rest : List ℕ)
    → w < 128 ^ suc n
    → p + n ≤ 9
    → val < 2 ^ (7 * p)
    → IsU64 (val + w * 2 ^ (7 * p))
    → decode_from (groups n w ++ rest) p val ≡ some (val + w * 2 ^ (7 * p), p + length (groups n w))
unfolding groups
decode_from-groups zero w p val rest hw hp small fits = last_byte w p val rest hw small fits
decode_from-groups (suc n) w p val rest hw hp small fits = elim (Bool-cases (ltb 0x7F w)) [
  | inl more ↦
      let q = w / 128 in
      let g = w % 128 in
      let s = split_group w p in
      let val' = val + g * 2 ^ (7 * p) in
      let e : val' + q * 2 ^ (7 * (p + 1)) ≡ val + w * 2 ^ (7 * p) = omega (arith, s) in
      let l : p + 1 + length (groups n q) ≡ p + suc (length (groups n q)) = omega arith in
      rw more (
        inner_byte g p val (groups n q ++ rest) (omega arith) (omega arith) small (omega (arith, s))
        ∙ decode_from-groups n q (p + 1) val' rest (omega arith) (omega arith)
            (group_small g p val (omega arith) small) (rw e fits)
        ∙ rw (e, l))
  | inr last ↦ rw last (last_byte w p val rest (ground arith) small fits)
]

-- Decoding what was encoded gives the value back and consumes exactly the bytes written, whatever follows them.
pub vldec_u64-vlenc_u64 :
    (v : ℕ) (rest : List ℕ)
    → IsU64 v
    → vldec_u64 (vlenc_u64 v ++ rest) ≡ some (v, length (vlenc_u64 v))
unfolding vldec_u64
vldec_u64-vlenc_u64 v rest h = rw (vlenc_u64-groups v h) (
    decode_from-groups 9 v 0 0 rest (omega arith) (omega arith) (omega arith) (omega arith)
    ∙ (let e : 0 + v * 2 ^ (7 * 0) ≡ v = omega arith in
        let l : 0 + length (groups 9 v) ≡ length (groups 9 v) = omega arith in rw (e, l)))

-- The same at a position of a buffer: the position moves behind the encoding.
pub vldec_at-vlenc_u64 :
    (pre rest : List ℕ) (v pos : ℕ)
    → pos ≡ length pre
    → IsU64 v
    → vldec_at (pre ++ (vlenc_u64 v ++ rest)) pos ≡ some (v, pos + length (vlenc_u64 v))
unfolding vldec_at
vldec_at-vlenc_u64 pre rest v pos hp h =
    rw (drop-append pre (vlenc_u64 v ++ rest) pos hp, vldec_u64-vlenc_u64 v rest h)
