-- ===== src/Vlenc/Encode.antt =====
-- The encoder in plain arithmetic: the groups of seven bits, lowest first.
use caliper.Base.{ℕ, zero, suc, ◌+◌, ◌/◌, ◌%◌, ◌^◌, ◌≤◌, ◌<◌, ◌≡◌, arith, ltb}
use caliper.Base.{List, [], ◌∷◌, length, if◌then◌else◌, lt_wf}
use caliper.Base.Bits.{and_0x7F, or_disjoint}
use caliper.Vlenc.{IsU64, encode_from, vlenc_u64}
use Prim.Native.Nat.{bit_and, bit_or}
use mathlib.Core.WellFounded.{Acc}

-- `n` more bytes may follow the first.
unfoldable pub groups : ℕ → ℕ → List ℕ
groups zero v = v ∷ []
groups (suc n) v =
    let rest = groups n (v / 128) in if ltb 0x7F v then (v % 128 + 128) ∷ rest else v ∷ []

marked_group : (v : ℕ) → bit_or (bit_and v 0x7F) 0x80 ≡ v % 128 + 128
marked_group v = rw (and_0x7F v) (or_disjoint 7 (v % 128) 1 (omega arith))

encode_from-groups : (n v : ℕ) (w : Acc ◌<◌ v) → v < 128 ^ suc n → encode_from v w ≡ groups n v
unfolding encode_from groups
encode_from-groups zero v (Acc.intro _ smaller) h = ground arith
encode_from-groups (suc n) v (Acc.intro _ smaller) h = grind (
  arith,
  marked_group v,
  λ (w : Acc ◌<◌ (v / 128)). encode_from-groups n (v / 128) w (omega arith),
)

pub vlenc_u64-groups : (v : ℕ) → IsU64 v → vlenc_u64 v ≡ groups 9 v
unfolding vlenc_u64
vlenc_u64-groups v h = encode_from-groups 9 v (lt_wf.apply v) (omega arith)

length-groups : (n v : ℕ) → (1 ≤ length (groups n v)) × (length (groups n v) ≤ n + 1)
unfolding groups
length-groups zero v = omega arith
length-groups (suc n) v = ground (arith, length-groups n (v / 128))

-- The encoding takes 1 to 10 bytes.
pub length-vlenc_u64 : (v : ℕ) → IsU64 v → (1 ≤ length (vlenc_u64 v)) × (length (vlenc_u64 v) ≤ 10)
length-vlenc_u64 v h = rw (vlenc_u64-groups v h) (length-groups 9 v)

-- A value below 128 is its own encoding.
pub vlenc_u64_small : (v : ℕ) → v < 128 → vlenc_u64 v ≡ v ∷ []
vlenc_u64_small v h = rw (vlenc_u64-groups v (omega arith)) (unfold groups in ground arith)
