-- ===== src/Variant/Pack.antt =====
-- A packed value reads back.
use caliper.Base.{ℕ, ◌+◌, ◌≤◌, ◌≡◌, length, length-append, append_assoc, leb, arith}
use caliper.Base.{List, ◌++◌, some, true}
use caliper.Vlenc.{vlenc_u64}
use caliper.Vlenc.Encode.{length-vlenc_u64}
use caliper.Vlenc.RoundTrip.{vldec_at-vlenc_u64}
use caliper.Variant.{Variant, IsVariant, pack, unpack_at, extract_type, max_type}

-- Packing takes 2 to 20 bytes.
pub length-pack : {v : Variant} → IsVariant v → (2 ≤ length (pack v)) × (length (pack v) ≤ 20)
unfolding pack
length-pack {v} h =
    let (a, b) = length-vlenc_u64 v.type_and_size h.tag_fits in
    let (c, d) = length-vlenc_u64 v.v_uint h.value_fits in
    rw length-append (omega arith, omega arith)

-- Unpacking at the place where a value was packed gives the value and moves behind it.
pub unpack_at-pack :
    (pre rest : List ℕ) (v : Variant) (pos : ℕ)
    → IsVariant v
    → pos ≡ length pre
    → unpack_at (pre ++ (pack v ++ rest)) pos ≡ some (v, pos + length (pack v), true)
unfolding unpack_at pack
unpack_at-pack pre rest v pos h hp =
    let tag = vlenc_u64 v.type_and_size in
    let val = vlenc_u64 v.v_uint in
    let p' = pos + length tag in
    let l : pos + length tag + length val ≡ pos + length (tag ++ val) =
      omega (arith, length-append tag val) in
    let t : leb (extract_type v.type_and_size) max_type ≡ true = ground (arith, h.typed) in
    rw
      (
        append_assoc tag val rest,
        vldec_at-vlenc_u64 pre (val ++ rest) v.type_and_size pos hp h.tag_fits,
        t,
      )
      (rw (
        ← append_assoc pre tag (val ++ rest),
        vldec_at-vlenc_u64 (pre ++ tag) rest v.v_uint p' (omega (arith, length-append pre tag))
            h.value_fits,
        l,
      ))
