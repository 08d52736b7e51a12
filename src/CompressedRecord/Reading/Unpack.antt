-- ===== src/CompressedRecord/Reading/Unpack.antt =====
-- The incremental decoder `unpack` against `to_entrylist`.
use caliper.Base.{ℕ, zero, suc, ◌+◌, ◌≤◌, ◌<◌, ◌≡◌, arith, ◌∙◌, ltb, ◌==◌, if◌then◌else◌}
use caliper.Base.{List, [], ◌∷◌, ◌++◌, map, some, >>=-eq-some, Bool, true, false}
use caliper.Vlenc.{vldec_at}
use caliper.Variant.{Variant}
use caliper.Node.{NodePtr}
use caliper.Entry.{Entry}
use caliper.CompressedRecord.View.{
  View, read_ids, read_imm, read_imms, id_entry, pair_entry, to_entrylist,
}
use caliper.CompressedRecord.View.{unpack_next_entry, unpack_from, unpack}

read_imms_first :
    (buf : List ℕ) (k pos : ℕ) {es : List (ℕ × Variant)} {q : ℕ}
    → read_imms buf (suc k) pos ≡ some (es, q)
    → (e : ℕ × Variant) × (p q' : ℕ) × (es' : List (ℕ × Variant)) × (read_imm buf pos ≡ some (e, p))
      × (read_imms buf k p ≡ some (es', q'))
      × (es ≡ e ∷ es')
unfolding read_imms
read_imms_first buf k pos {es} {q} h =
    let ((e, p), a, h₁) = >>=-eq-some (read_imm buf pos) _ h in
    let ((es', q'), b, h₂) = >>=-eq-some (read_imms buf k p) _ h₁ in (e, p, q', es', a, b, cc h₂)

pub read_ids_first :
    (buf : List ℕ) (k pos : ℕ) {ids : List ℕ} {q : ℕ}
    → read_ids buf (suc k) pos ≡ some (ids, q)
    → (id p q' : ℕ) × (ids' : List ℕ) × (vldec_at buf pos ≡ some (id, p))
      × (read_ids buf k p ≡ some (ids', q'))
      × (ids ≡ id ∷ ids')
unfolding read_ids
read_ids_first buf k pos {ids} {q} h =
    let ((id, p), a, h₁) = >>=-eq-some (vldec_at buf pos) _ h in
    let ((ids', q'), b, h₂) = >>=-eq-some (read_ids buf k p) _ h₁ in (id, p, q', ids', a, b, cc h₂)

-- Where `unpack_next_entry` reads an immediate entry, with `n` entries behind it.
abbrev imm_at : View → ℕ → ℕ → ℕ
imm_at v n pos = if n == v.num_nodes then v.imm_pos + 1 else (if n == 0 then 1 else pos)

module _ (node : ℕ → NodePtr) (fn : Entry → Bool) (v : View) (all : (e : Entry) → fn e ≡ true) where
  one_round :
      (fuel n pos n' pos' : ℕ) (e : Entry) {es : List Entry}
      → n < v.num_nodes + v.num_imm
      → unpack_next_entry node v n pos ≡ some (e, n', pos')
      → unpack_from node fn fuel v n' pos' ≡ some es
      → unpack_from node fn (suc fuel) v n pos ≡ some (e ∷ es)
  unfolding unpack_from
  one_round fuel n pos n' pos' e h p q =
      let t : ltb n (v.num_nodes + v.num_imm) ≡ true = ground arith in
      rw (t, unpack_from, p, all e, q)

  next_imm :
      (n pos : ℕ) {e : ℕ × Variant} {p : ℕ}
      → v.num_nodes ≤ n
      → n < v.num_nodes + v.num_imm
      → read_imm v.buffer (if n == v.num_nodes then v.imm_pos + 1 else (if n == 0 then 1 else pos))
        ≡ some (e, p)
      → unpack_next_entry node v n pos ≡ some (pair_entry node e, n + 1, p)
  unfolding unpack_next_entry
  next_imm n pos lo hi r =
      let t : ltb n v.num_nodes ≡ false = ground arith in
      let u : ltb n (v.num_nodes + v.num_imm) ≡ true = ground arith in rw (t, u, r)

  next_id :
      (n pos : ℕ) {id p : ℕ}
      → n < v.num_nodes
      → vldec_at v.buffer (if n == 0 then 1 else pos) ≡ some (id, p)
      → unpack_next_entry node v n pos ≡ some (id_entry node id, n + 1, p)
  unfolding unpack_next_entry
  next_id n pos lo r = let t : ltb n v.num_nodes ≡ true = ground arith in rw (t, r)

  -- The rounds that decode immediate entries.
  imms_from :
      (k fuel n pos q : ℕ) {es : List (ℕ × Variant)}
      → v.num_nodes ≤ n
      → n + k ≡ v.num_nodes + v.num_imm
      → k ≤ fuel
      → read_imms v.buffer k (imm_at v n pos) ≡ some (es, q)
      → unpack_from node fn fuel v n pos ≡ some (map (pair_entry node) es)
  imms_from zero zero n pos q lo hk hf r =
      let t : ltb n (v.num_nodes + v.num_imm) ≡ false = ground arith in
      unfold read_imms unpack_from in rw t (cc r)
  imms_from zero (suc fuel) n pos q lo hk hf r =
      let t : ltb n (v.num_nodes + v.num_imm) ≡ false = ground arith in
      unfold read_imms unpack_from in rw (t, unpack_from) (cc r)
  imms_from (suc k) zero n pos q lo hk hf r = absurd (omega arith)
  imms_from (suc k) (suc fuel) n pos q {es} lo hk hf r =
      let (e, p, q', es', here, rest, cut) = read_imms_first v.buffer k (imm_at v n pos) r in
      let at : imm_at v (n + 1) p ≡ p = ground arith in
      rw cut (
        one_round fuel n pos (n + 1) p (pair_entry node e) (omega arith)
          (next_imm n pos lo (omega arith) here)
          (imms_from k fuel (n + 1) p q' (omega arith) (omega arith) (omega arith) (rw at rest)))

  -- The rounds that decode node ids, and then the others.
  ids_from :
      (j fuel n pos p q : ℕ) {ids : List ℕ} {es : List (ℕ × Variant)}
      → n + j ≡ v.num_nodes
      → j + v.num_imm ≤ fuel
      → read_ids v.buffer j (if n == 0 then 1 else pos) ≡ some (ids, p)
      → read_imms v.buffer v.num_imm (v.imm_pos + 1) ≡ some (es, q)
      → unpack_from node fn fuel v n pos
        ≡ some (map (id_entry node) ids ++ map (pair_entry node) es)
  ids_from zero fuel n pos p q {ids} {es} hj hf r s =
      let at : imm_at v n pos ≡ v.imm_pos + 1 = ground arith in
      let e : ids ≡ [] = unfold read_ids in cc r in
      rw e (imms_from v.num_imm fuel n pos q (omega arith) (omega arith) (omega arith) (rw at s))
  ids_from (suc j) zero n pos p q hj hf r s = absurd (omega arith)
  ids_from (suc j) (suc fuel) n pos p₀ q {ids} hj hf r s =
      let (id, p, q', ids', here, rest, cut) =
        read_ids_first v.buffer j (if n == 0 then 1 else pos) r in
      let at : (if n + 1 == 0 then 1 else p) ≡ p = ground arith in
      rw cut (
        one_round fuel n pos (n + 1) p (id_entry node id) (omega arith)
          (next_id n pos (omega arith) here)
          (ids_from j fuel (n + 1) p q' q (omega arith) (omega arith) (rw at rest) s))

  -- A callback that never stops sees the entries of `to_entrylist`, in that order.
  pub unpack-to_entrylist :
      (list : List Entry) → to_entrylist node v ≡ some list → unpack node fn v ≡ some list
  unfolding unpack to_entrylist
  unpack-to_entrylist list h =
      let ((ids, p), e₁, h₁) = >>=-eq-some (read_ids v.buffer v.num_nodes 1) _ h in
      let ((es, q), e₂, h₂) = >>=-eq-some (read_imms v.buffer v.num_imm (v.imm_pos + 1)) _ h₁ in
      ids_from v.num_nodes (v.num_nodes + v.num_imm) 0 1 p q (omega arith) (omega arith) e₁ e₂ ∙ h₂
