-- ===== src/TraceBuffer/RoundTrip.antt =====
-- What is saved in a chunk is flushed from it.
use caliper.Base.{ℕ, ◌+◌, ◌≤◌, ◌≡◌, refl, sym, ap, ◌∙◌, arith}
use caliper.Base.{List, [], ◌∷◌, ◌++◌, append_assoc, some, length, All}
use caliper.Base.Memory.{drop-append}
use caliper.Vlenc.{IsU64, vlenc_u64}
use caliper.Vlenc.RoundTrip.{vldec_u64-vlenc_u64}
use caliper.Variant.{Variant, IsVariant, pack}
use caliper.Variant.Pack.{unpack_at-pack}
use caliper.Node.{NodePtr}
use caliper.SnapshotRecord.{SnapshotRecord, fixed, append_immediate}
use caliper.TraceBuffer.{
  snap_max, encode_ids, encode_values, snapshot_bytes, next_u64, next_value, read_ids, read_values,
  rounds, pairs_of, add_nodes, flush_record,
}

next_u64-vlenc_u64 :
    (v : ℕ) (rest : List ℕ) → IsU64 v → next_u64 (vlenc_u64 v ++ rest) ≡ some (v, rest)
unfolding next_u64
next_u64-vlenc_u64 v rest h =
    rw (vldec_u64-vlenc_u64 v rest h)
      (ap (λ (r : List ℕ). some (v, r)) (drop-append (vlenc_u64 v) rest _ refl))

next_value-pack :
    (v : Variant) (rest : List ℕ) → IsVariant v → next_value (pack v ++ rest) ≡ some (v, rest)
unfolding next_value
next_value-pack v rest h = rw (unpack_at-pack [] rest v 0 h refl) (
    ap (λ (r : List ℕ). some (v, r))
      (drop-append (pack v) rest (0 + length (pack v)) (omega arith)))

read_ids-encode_ids :
    (ids rest : List ℕ)
    → All IsU64 ids
    → read_ids (length ids) (encode_ids ids ++ rest) ≡ some (ids, rest)
unfolding read_ids
read_ids-encode_ids [] rest h = refl
read_ids-encode_ids (id ∷ ids) rest (small, h) =
    rw
      (
        append_assoc (vlenc_u64 id) (encode_ids ids) rest,
        next_u64-vlenc_u64 id (encode_ids ids ++ rest) small,
        read_ids-encode_ids ids rest h,
      )
      refl

read_values-encode_values :
    (vs : List Variant) (rest : List ℕ)
    → All IsVariant vs
    → read_values (length vs) (encode_values vs ++ rest) ≡ some (vs, rest)
unfolding read_values
read_values-encode_values [] rest h = refl
read_values-encode_values (v ∷ vs) rest (good, h) =
    rw
      (
        append_assoc (pack v) (encode_values vs) rest,
        next_value-pack v (encode_values vs ++ rest) good,
        read_values-encode_values vs rest h,
      )
      refl

rounds-small : (n : ℕ) → n ≤ 80 → rounds n ≡ n
rounds-small n h = ground arith

-- What can be stored: at most 80 nodes and 80 pairs, and numbers that fit.
pub record IsStorable (ids attrs : List ℕ) (vals : List Variant) : Type 0 where
  pub few_ids : length ids ≤ 80
  pub few_attrs : length attrs ≤ 80
  pub in_step : length vals ≡ length attrs
  pub small_ids : All IsU64 ids
  pub small_attrs : All IsU64 attrs
  pub good_vals : All IsVariant vals

-- The record that a flush makes of the ids and the values.
abbrev pub restored : (ℕ → NodePtr) → List ℕ → List ℕ → List Variant → SnapshotRecord
restored node ids attrs vals =
    append_immediate (add_nodes node (fixed snap_max) ids) (pairs_of attrs vals)

regroup :
    (a b c d e rest : List ℕ)
    → (a ++ (b ++ (c ++ (d ++ e)))) ++ rest ≡ a ++ (b ++ (c ++ (d ++ (e ++ rest))))
regroup a b c d e rest = simp append_assoc

pub flush_record-bytes :
    (node : ℕ → NodePtr) (ids attrs : List ℕ) (vals : List Variant) (rest : List ℕ)
    → IsStorable ids attrs vals
    → flush_record node (snapshot_bytes ids attrs vals ++ rest)
      ≡ some (restored node ids attrs vals, rest)
unfolding flush_record
flush_record-bytes node ids attrs vals rest h =
    let n = length ids in
    let m = length attrs in
    let tail = encode_values vals ++ rest in
    let same : read_values m tail ≡ some (vals, rest) =
      ap (λ k. read_values k tail) (sym h.in_step)
      ∙ read_values-encode_values vals rest h.good_vals in
    rw
      (
        regroup (vlenc_u64 n) (vlenc_u64 m) (encode_ids ids) (encode_ids attrs) (encode_values vals)
            rest,
        next_u64-vlenc_u64 n (vlenc_u64 m ++ (encode_ids ids ++ (encode_ids attrs ++ tail)))
            (omega (arith, h.few_ids)),
        next_u64-vlenc_u64 m (encode_ids ids ++ (encode_ids attrs ++ tail))
            (omega (arith, h.few_attrs)),
        rounds-small n h.few_ids,
        rounds-small m h.few_attrs,
        read_ids-encode_ids ids (encode_ids attrs ++ tail) h.small_ids,
        read_ids-encode_ids attrs tail h.small_attrs,
        same,
      )
      refl
