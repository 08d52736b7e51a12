-- ===== src/Vlenc.antt =====
-- include/caliper/common/c-util/vlenc.h: unsigned 64-bit integers in 1 to 10 bytes.
pub mod Encode
pub mod RoundTrip
use caliper.Base.{ℕ, zero, suc, ◌+◌, ◌*◌, ◌/◌, ◌%◌, ◌^◌, ◌<◌, ltb, ◌==◌, if◌then◌else◌}
use caliper.Base.{List, [], ◌∷◌, Option, none, some, drop, not, ◌&&◌, ◌>>=◌, lt_wf, arith}
use Prim.Native.Nat.{bit_and, bit_or}
use mathlib.Core.Logic.{dite}
use mathlib.Core.WellFounded.{Acc}
use native.Mathlib.Decide.{dec_lt}

abbrev pub IsU64 : ℕ → Type 0
IsU64 v = v < 2 ^ 64

pub shift_falls : (val : ℕ) → 0x7F < val → val / 128 < val
shift_falls val h = omega arith

-- The `while` loop and the last byte: what is written from `buf` on. `val >>= 7` is `val / 128`.
encode_from : (val : ℕ) → Acc ◌<◌ val → List ℕ
encode_from val (Acc.intro _ smaller) =
    dite (dec_lt 0x7F val)
      (λ more.
        bit_or (bit_and val 0x7F) 0x80 ∷ encode_from (val / 128) (smaller _ (shift_falls val more)))
      (λ _. val % 256 ∷ [])

-- The bytes written; the function's result is their number.
unfoldable pub vlenc_u64 : ℕ → List ℕ
unfolding encode_from lt_wf dec_lt
vlenc_u64 val = encode_from val (lt_wf.apply val)

-- `(uint64_t) (b & 0x7F) << (7*p)`, which drops the bits above 63.
abbrev group_at : ℕ → ℕ → ℕ
group_at b p = bit_and b 0x7F * 2 ^ (7 * p) % 2 ^ 64

-- The `for` loop and the last byte, from `buf[p]` on. `none` is a read behind the buffer.
decode_from : List ℕ → ℕ → ℕ → Option (ℕ × ℕ)
decode_from [] p val = none
decode_from (b ∷ bs) p val =
    let val' = bit_or val (group_at b p) in
    let more = decode_from bs (p + 1) val' in
    if ltb p 9 && not (bit_and b 0x80 == 0) then more else some (val', p + 1)

-- The value, and by how much `*inc` grows.
unfoldable pub vldec_u64 : List ℕ → Option (ℕ × ℕ)
unfolding decode_from
vldec_u64 buf = decode_from buf 0 0

-- `vldec_u64(buf+pos, &pos)`: the value and the new `pos`.
unfoldable pub vldec_at : List ℕ → ℕ → Option (ℕ × ℕ)
vldec_at buf pos = vldec_u64 (drop pos buf) >>= λ r. some (r.0, pos + r.1)
