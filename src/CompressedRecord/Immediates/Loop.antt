-- ===== src/CompressedRecord/Immediates/Loop.antt =====
-- The loop over blocks of immediate entries against its specification.
use caliper.Base.{ℕ, zero, suc, ◌+◌, ◌≤◌, ◌<◌, ◌≡◌, refl, arith, sym, ap, ◌∙◌}
use caliper.Base.{List, [], ◌∷◌, ◌++◌, length, length-append, append_assoc, append-nil, take, drop}
use caliper.Base.{Option, some, true, take-append-drop, length-drop}
use caliper.Variant.{Variant}
use caliper.CompressedRecord.{CompressedRecord, encode_imms, append_imm_block}
use caliper.CompressedRecord.{append_imms, append_blocks, block_size}
use caliper.CompressedRecord.Shape.{
  Encodes, node_section, imm_section, encode_imms-append, Encodes-counters,
}
use caliper.CompressedRecord.Immediates.{take_imms, take_block, room, append_imm_block-Encodes}

-- The outcome `o` of appending `len` bytes of entries to `r`, after `s` were skipped: the record
-- holds `ids` and `es`, and what was given, `count` in all, is held or was skipped.
abbrev pub Appends :
    Option (CompressedRecord × ℕ)
    → CompressedRecord
    → ℕ
    → List ℕ
    → List (ℕ × Variant)
    → ℕ
    → ℕ
    → Type 0
Appends o r s ids es count len =
    (r' : CompressedRecord) × (k : ℕ) × (o ≡ some (r', s + k))
    × Encodes r' ids es
    × (length es + k ≡ count)
    × (r'.needed_len ≡ r.needed_len + len)
    × (r'.buffer_len ≡ r.buffer_len)
    × (r'.skipped ≡ r.skipped + (s + k))

no_rounds :
    {r : CompressedRecord} {ids : List ℕ} {es : List (ℕ × Variant)}
    → Encodes r ids es
    → (s : ℕ)
    → Appends (some (record r { skipped = r.skipped + s }, s)) r s ids es (length es + 0) 0
no_rounds {r} enc s =
    let e : s + 0 ≡ s = omega arith in
    (
      record r { skipped = r.skipped + s },
      0,
      rw e,
      Encodes-counters enc r.needed_len (r.skipped + s),
      refl,
      omega arith,
      refl,
      omega arith,
    )

length-encode_imms_split :
    (n : ℕ) (es : List (ℕ × Variant))
    → length (encode_imms es) ≡ length (encode_imms (take n es)) + length (encode_imms (drop n es))
length-encode_imms_split n es =
    ap (λ (t : List (ℕ × Variant)). length (encode_imms t)) (sym (take-append-drop n es))
    ∙ ap length (encode_imms-append (take n es) (drop n es))
    ∙ length-append (encode_imms (take n es)) (encode_imms (drop n es))

length-split {ℓ} :
    {A : Type ℓ} (n : ℕ) (xs : List A) → length xs ≡ length (take n xs) + length (drop n xs)
length-split n xs = ap length (sym (take-append-drop n xs)) ∙ length-append (take n xs) (drop n xs)

-- The rounds from a record that holds `es`, when `s` entries were skipped before.
append_blocks-take_imms :
    (fuel : ℕ) {r : CompressedRecord} {ids : List ℕ} {es : List (ℕ × Variant)}
    → Encodes r ids es
    → (new : List (ℕ × Variant)) (s cap : ℕ) → r.buffer_len ≡ cap
    → length new ≤ fuel
    → Appends
        (append_blocks append_imm_block fuel r new s)
        r
        s
        ids
        (take_imms fuel cap ids es new)
        (length es + length new)
        (length (encode_imms new))
unfolding append_blocks take_imms
append_blocks-take_imms zero enc [] s cap hc h = no_rounds enc s
append_blocks-take_imms zero enc (x ∷ xs) s cap hc h = absurd (omega arith)
append_blocks-take_imms (suc fuel) enc [] s cap hc h = no_rounds enc s
append_blocks-take_imms (suc fuel) {r} {ids} {es} enc (x ∷ xs) s cap hc h =
    let new : List (ℕ × Variant) = x ∷ xs in
    let (r₁, k₁, run₁, enc₁, l₁, n₁, c₁, s₁) = append_imm_block-Encodes enc (take block_size new) in
    let (r₂, k₂, run₂, enc₂, l₂, n₂, c₂, s₂) =
      append_blocks-take_imms fuel (rw hc at enc₁) (drop block_size new) (s + k₁) cap (c₁ ∙ hc)
        (omega (arith, length-drop block_size new)) in
    let e : s + k₁ + k₂ ≡ s + (k₁ + k₂) = omega arith in
    (
      r₂,
      k₁ + k₂,
      rw run₁ (run₂ ∙ rw e),
      enc₂,
      omega (arith, rw hc at l₁, length-split block_size new),
      omega (arith, length-encode_imms_split block_size new),
      c₂ ∙ c₁,
      omega arith,
    )

-- `append(n, attr_vec, data_vec)` never leaves the buffer. The record then holds what the
-- specification takes; the result counts the other entries.
pub append_imms-take_imms :
    {r : CompressedRecord} {ids : List ℕ} {es : List (ℕ × Variant)}
    → Encodes r ids es
    → (new : List (ℕ × Variant))
    → Appends
        (append_imms r new)
        r
        0
        ids
        (take_imms (length new) r.buffer_len ids es new)
        (length es + length new)
        (length (encode_imms new))
unfolding append_imms
append_imms-take_imms {r} enc new =
    append_blocks-take_imms (length new) enc new 0 r.buffer_len refl (omega arith)

-- Where everything fits, the specification takes everything.
take_imms_all :
    (fuel cap : ℕ) (ids : List ℕ) (es new : List (ℕ × Variant))
    → length new ≤ fuel
    → length es + length new < 128
    → length (node_section ids) + length (imm_section es) + length (encode_imms new) ≤ cap
    → take_imms fuel cap ids es new ≡ es ++ new
unfolding take_imms
take_imms_all zero cap ids es [] h hn hb = sym (append-nil es)
take_imms_all zero cap ids es (x ∷ xs) h hn hb = absurd (omega arith)
take_imms_all (suc fuel) cap ids es [] h hn hb = sym (append-nil es)
take_imms_all (suc fuel) cap ids es (x ∷ xs) h hn hb =
    let front = take block_size (x ∷ xs) in
    let back = drop block_size (x ∷ xs) in
    let n = length-split block_size (x ∷ xs) in
    let b = length-encode_imms_split block_size (x ∷ xs) in
    let c =
      ap length (encode_imms-append es front)
      ∙ length-append (encode_imms es) (encode_imms front) in
    let fit : room cap ids es front ≡ true = ground (arith, n, b) in
    let e : take_block cap ids es front ≡ es ++ front = rw fit in
    ap (λ (t : List (ℕ × Variant)). take_imms fuel cap ids t back) e
    ∙ (take_imms_all fuel cap ids (es ++ front) back
          (omega (arith, length-drop block_size (x ∷ xs)))
          (omega (arith, n, length-append es front)) (omega (arith, b, c, length-append es front))
        ∙ append_assoc es front back
        ∙ ap (λ (t : List (ℕ × Variant)). es ++ t) (take-append-drop block_size (x ∷ xs)))

-- Entries that fit, by count and by bytes, are all held behind the earlier ones, and none is skipped.
pub append_imms_fit :
    {r : CompressedRecord} {ids : List ℕ} {es : List (ℕ × Variant)}
    → Encodes r ids es
    → (new : List (ℕ × Variant)) → length es + length new < 128
    → length (node_section ids) + length (imm_section es) + length (encode_imms new) ≤ r.buffer_len
    → (r' : CompressedRecord) × (append_imms r new ≡ some (r', 0))
      × Encodes r' ids (es ++ new)
      × (r'.buffer_len ≡ r.buffer_len)
append_imms_fit {r} {ids} {es} enc new hn hb =
    let all = take_imms_all (length new) r.buffer_len ids es new (omega arith) hn hb in
    let (r', k, run, enc', count, needed, cap, skips) = append_imms-take_imms enc new in
    let z : 0 + k ≡ 0 = omega (arith, rw all at count, length-append es new) in
    (r', rw (← z) run, rw all at enc', cap)
