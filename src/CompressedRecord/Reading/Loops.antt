-- ===== src/CompressedRecord/Reading/Loops.antt =====
-- The decoding loops at the place where entries were encoded.
use caliper.Base.{ℕ, zero, suc, ◌+◌, ◌≤◌, ◌≡◌, arith, sym, ap, ◌∙◌}
use caliper.Base.{List, [], ◌∷◌, ◌++◌, length, length-append, append_assoc, take, drop}
use caliper.Base.{some, take-append-drop, length-take}
use caliper.Vlenc.{IsU64, vlenc_u64, vldec_at}
use caliper.Vlenc.RoundTrip.{vldec_at-vlenc_u64}
use caliper.Variant.{Variant, pack}
use caliper.Variant.Pack.{unpack_at-pack}
use caliper.CompressedRecord.{encode_ids, encode_imms}
use caliper.Base.{All}
use caliper.CompressedRecord.Shape.{IsImm, encode_ids-append, encode_imms-append}
use caliper.CompressedRecord.View.{read_ids, read_imm, read_imms}

read_ids_step :
    (buf : List ℕ) (n pos p : ℕ) {id q : ℕ} {ids : List ℕ}
    → vldec_at buf pos ≡ some (id, p)
    → read_ids buf n p ≡ some (ids, q)
    → read_ids buf (suc n) pos ≡ some (id ∷ ids, q)
unfolding read_ids
read_ids_step buf n pos p e f = rw (e, f)

read_imms_step :
    (buf : List ℕ) (n pos p : ℕ) {e : ℕ × Variant} {q : ℕ} {es : List (ℕ × Variant)}
    → read_imm buf pos ≡ some (e, p)
    → read_imms buf n p ≡ some (es, q)
    → read_imms buf (suc n) pos ≡ some (e ∷ es, q)
unfolding read_imms
read_imms_step buf n pos p e f = rw (e, f)

pub read_ids-encode_ids :
    (pre ids rest : List ℕ) (n pos : ℕ)
    → All IsU64 ids
    → n ≡ length ids
    → pos ≡ length pre
    → read_ids (pre ++ (encode_ids ids ++ rest)) n pos ≡ some (ids, pos + length (encode_ids ids))
unfolding read_ids
read_ids-encode_ids pre [] rest zero pos h hn hp = let e : pos + 0 ≡ pos = omega arith in rw e
read_ids-encode_ids pre [] rest (suc n) pos h hn hp = absurd (omega arith)
read_ids-encode_ids pre (x ∷ ids) rest zero pos h hn hp = absurd (omega arith)
read_ids-encode_ids pre (x ∷ ids) rest (suc n) pos (hx, h) hn hp =
    let b = vlenc_u64 x in
    let tail = encode_ids ids in
    let l : pos + length b + length tail ≡ pos + length (b ++ tail) =
      omega (arith, length-append b tail) in
    let buf = pre ++ ((b ++ tail) ++ rest) in
    let here : buf ≡ pre ++ (b ++ (tail ++ rest)) = rw (append_assoc b tail rest) in
    let there : buf ≡ (pre ++ b) ++ (tail ++ rest) = simp append_assoc in
    read_ids_step buf n pos (pos + length b)
      (rw here (vldec_at-vlenc_u64 pre (tail ++ rest) x pos hp hx))
      (rw there (
        read_ids-encode_ids (pre ++ b) ids rest n (pos + length b) h (omega arith)
          (omega (arith, length-append pre b))
        ∙ rw l))

read_imm-encode :
    (pre rest : List ℕ) (a : ℕ) (v : Variant) (pos : ℕ)
    → IsImm (a, v)
    → pos ≡ length pre
    → read_imm (pre ++ (vlenc_u64 a ++ (pack v ++ rest))) pos
      ≡ some ((a, v), pos + length (vlenc_u64 a) + length (pack v))
unfolding read_imm
read_imm-encode pre rest a v pos (ha, hv) hp =
    let b = vlenc_u64 a in
    rw (vldec_at-vlenc_u64 pre (pack v ++ rest) a pos hp ha) (
      rw (
        ← append_assoc pre b (pack v ++ rest),
        unpack_at-pack (pre ++ b) rest v (pos + length b) hv (omega (arith, length-append pre b)),
      ))

pub read_imms-encode_imms :
    (pre : List ℕ) (es : List (ℕ × Variant)) (rest : List ℕ) (n pos : ℕ)
    → All IsImm es
    → n ≡ length es
    → pos ≡ length pre
    → read_imms (pre ++ (encode_imms es ++ rest)) n pos ≡ some (es, pos + length (encode_imms es))
unfolding read_imms
read_imms-encode_imms pre [] rest zero pos h hn hp = let e : pos + 0 ≡ pos = omega arith in rw e
read_imms-encode_imms pre [] rest (suc n) pos h hn hp = absurd (omega arith)
read_imms-encode_imms pre (x ∷ es) rest zero pos h hn hp = absurd (omega arith)
read_imms-encode_imms pre ((a, v) ∷ es) rest (suc n) pos (hx, h) hn hp =
    let b = vlenc_u64 a in
    let c = pack v in
    let tail = encode_imms es in
    let l : pos + length b + length c + length tail ≡ pos + length (b ++ (c ++ tail)) =
      omega (arith, length-append b (c ++ tail), length-append c tail) in
    let buf = pre ++ ((b ++ (c ++ tail)) ++ rest) in
    let here : buf ≡ pre ++ (b ++ (c ++ (tail ++ rest))) = simp append_assoc in
    let there : buf ≡ (pre ++ (b ++ c)) ++ (tail ++ rest) = simp append_assoc in
    read_imms_step buf n pos (pos + length b + length c)
      (rw here (read_imm-encode pre (tail ++ rest) a v pos hx hp))
      (rw there (
        read_imms-encode_imms (pre ++ (b ++ c)) es rest n (pos + length b + length c) h
          (omega arith) (omega (arith, length-append pre (b ++ c), length-append b c))
        ∙ rw l))

All-take {ℓ κ} : {A : Type ℓ} (P : A → Type κ) (n : ℕ) (xs : List A) → All P xs → All P (take n xs)
All-take P zero xs h = tt
All-take P (suc n) [] h = tt
All-take P (suc n) (x ∷ xs) (hx, h) = (hx, All-take P n xs h)

-- Fewer entries than stand there.
pub read_ids_front :
    (pre ids rest : List ℕ) (n pos : ℕ)
    → All IsU64 ids
    → n ≤ length ids
    → pos ≡ length pre
    → (p : ℕ) × (read_ids (pre ++ (encode_ids ids ++ rest)) n pos ≡ some (take n ids, p))
read_ids_front pre ids rest n pos h hn hp =
    let e : encode_ids ids ++ rest ≡ encode_ids (take n ids) ++ (encode_ids (drop n ids) ++ rest) =
      ap (λ (t : List ℕ). encode_ids t ++ rest) (sym (take-append-drop n ids))
      ∙ ap (λ (t : List ℕ). t ++ rest) (encode_ids-append (take n ids) (drop n ids))
      ∙ append_assoc (encode_ids (take n ids)) (encode_ids (drop n ids)) rest in
    (
      pos + length (encode_ids (take n ids)),
      rw e (
          read_ids-encode_ids pre (take n ids) (encode_ids (drop n ids) ++ rest) n pos
            (All-take IsU64 n ids h) (omega (arith, length-take n ids)) hp),
    )

pub read_imms_front :
    (pre : List ℕ) (es : List (ℕ × Variant)) (rest : List ℕ) (n pos : ℕ)
    → All IsImm es
    → n ≤ length es
    → pos ≡ length pre
    → (p : ℕ) × (read_imms (pre ++ (encode_imms es ++ rest)) n pos ≡ some (take n es, p))
read_imms_front pre es rest n pos h hn hp =
    let front = take n es in
    let back = drop n es in
    let e : encode_imms es ++ rest ≡ encode_imms front ++ (encode_imms back ++ rest) =
      ap (λ (t : List (ℕ × Variant)). encode_imms t ++ rest) (sym (take-append-drop n es))
      ∙ ap (λ (t : List ℕ). t ++ rest) (encode_imms-append front back)
      ∙ append_assoc (encode_imms front) (encode_imms back) rest in
    (
      pos + length (encode_imms front),
      rw e (
          read_imms-encode_imms pre front (encode_imms back ++ rest) n pos (All-take IsImm n es h)
            (omega (arith, length-take n es)) hp),
    )
