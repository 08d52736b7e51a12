-- ===== src/PackedBuffer/Holds.antt =====
-- A buffer that holds a list of items, for any item with a codec.
use caliper.Base.{ℕ, zero, suc, ◌+◌, ◌*◌, ◌≤◌, ◌≡◌, refl, arith, sym, ap, ◌∙◌, leb, ltb}
use caliper.Base.{List, [], ◌∷◌, ◌++◌, length, length-append, append_assoc, append-nil, drop}
use caliper.Base.{Option, some, Bool-cases, inl, inr, true}
use caliper.Base.Memory.{read, write, read-append, write-append, drop-append, split_at}
use caliper.PackedBuffer.{
  PackedBuffer, Allocator, empty, grow, reserve, append_bytes, for_each_from, for_each,
}

-- Items with a round trip, whatever follows them.
pub record Codec (A : Type 0) : Type 1 where
  pub Good : A → Type 0
  pub encode : A → List ℕ
  pub decode : List ℕ → Option (A × ℕ)
  pub encode_some : (a : A) → Good a → 1 ≤ length (encode a)
  pub decode-encode :
      (a : A) (rest : List ℕ) → Good a → decode (encode a ++ rest) ≡ some (a, length (encode a))

module _ {A : Type 0} (c : Codec A) where
  abbrev pub AllGood : List A → Type 0
  AllGood [] = Unit
  AllGood (a ∷ more) = c.Good a × AllGood more

  abbrev pub encode_all : List A → List ℕ
  encode_all [] = []
  encode_all (a ∷ more) = c.encode a ++ encode_all more

  encode_all-append : (xs ys : List A) → encode_all (xs ++ ys) ≡ encode_all xs ++ encode_all ys
  encode_all-append [] ys = refl
  encode_all-append (x ∷ xs) ys = rw (encode_all-append xs ys, append_assoc)

  AllGood-append : (xs : List A) (a : A) → AllGood xs → c.Good a → AllGood (xs ++ (a ∷ []))
  AllGood-append [] a h g = (g, tt)
  AllGood-append (x ∷ xs) a (hx, h) g = (hx, AllGood-append xs a h g)

  -- The buffer holds `items` in front, and nothing else of it matters.
  pub record Holds (s : PackedBuffer) (items : List A) : Type 0 where
    pub unused : List ℕ
    pub layout : s.buffer ≡ encode_all items ++ unused
    pub end_pos : s.pos ≡ length (encode_all items)
    pub counted : s.count ≡ length items
    pub reserved : s.reserved_len ≡ length s.buffer
    pub good : AllGood items

  pub empty-Holds : Holds empty []
  unfolding empty
  empty-Holds = record {
    unused = [];
    layout = refl;
    end_pos = refl;
    counted = refl;
    reserved = refl;
    good = tt;
  }

  for_each_from-Holds :
      (items : List A) (pre unused : List ℕ) (s : PackedBuffer) (n pos : ℕ)
      → AllGood items
      → n ≡ length items
      → s.buffer ≡ pre ++ (encode_all items ++ unused)
      → pos ≡ length pre
      → s.pos ≡ pos + length (encode_all items)
      → for_each_from c.decode s n pos ≡ some items
  unfolding for_each_from
  for_each_from-Holds [] pre unused s zero pos g hn hb hp he = refl
  for_each_from-Holds [] pre unused s (suc n) pos g hn hb hp he = absurd (omega arith)
  for_each_from-Holds (a ∷ more) pre unused s zero pos g hn hb hp he = absurd (omega arith)
  for_each_from-Holds (a ∷ more) pre unused s (suc n) pos (ga, g) hn hb hp he =
      let b = c.encode a in
      let tail = encode_all more ++ unused in
      let la = length-append b (encode_all more) in
      let t : ltb pos s.pos ≡ true = ground (arith, c.encode_some a ga, la) in
      let from : s.buffer ≡ pre ++ (b ++ tail) =
        hb ∙ ap (λ (x : List ℕ). pre ++ x) (append_assoc b (encode_all more) unused) in
      let d : c.decode (drop pos s.buffer) ≡ some (a, length b) =
        rw (from, drop-append pre (b ++ tail) pos hp) (c.decode-encode a tail ga) in
      let r : for_each_from c.decode s n (pos + length b) ≡ some more =
        for_each_from-Holds more (pre ++ b) unused s n (pos + length b) g (omega arith)
          (from ∙ sym (append_assoc pre b tail)) (omega (arith, length-append pre b))
          (omega (arith, la)) in
      rw (t, d, r)

  -- `for_each` visits the items in their order, each once.
  pub for_each-Holds :
      {s : PackedBuffer} {items : List A} → Holds s items → for_each c.decode s ≡ some items
  unfolding for_each
  for_each-Holds {s} {items} h =
      for_each_from-Holds items [] h.unused s s.count 0 h.good h.counted h.layout refl
        (omega (arith, h.end_pos))

  module _ (mem : Allocator) where
    -- Reserving keeps the items and leaves at least the asked length.
    reserve-Holds :
        {s : PackedBuffer} {items : List A}
        → Holds s items
        → (min : ℕ) → s.pos ≤ min
        → (s' : PackedBuffer) × (reserve mem s min ≡ some s')
          × Holds s' items
          × (min ≤ s'.reserved_len)
    unfolding reserve grow
    reserve-Holds {s} {items} h min lo = elim (Bool-cases (leb min s.reserved_len)) [
      | inl roomy ↦ (s, rw roomy, h, ground arith)
      | inr tight ↦
          let len = 4096 + min * 2 in
          let (front, back, e, l) =
            split_at s.pos (mem.alloc len) (omega (arith, mem.alloc_size len)) in
          let r : read s.buffer 0 s.pos ≡ some (encode_all items) =
            rw h.layout (read-append [] (encode_all items) h.unused 0 s.pos refl h.end_pos) in
          let w : write (mem.alloc len) 0 (encode_all items) ≡ some (encode_all items ++ back) =
            rw e (write-append [] front (encode_all items) back 0 refl (l ∙ h.end_pos)) in
          (
            record s { reserved_len = len; buffer = encode_all items ++ back },
            rw (tight, r, w),
            record {
              unused = back;
              layout = refl;
              end_pos = h.end_pos;
              counted = h.counted;
              reserved = omega (
                arith,
                mem.alloc_size len,
                ap length e,
                length-append front back,
                length-append (encode_all items) back,
                h.end_pos,
              );
              good = h.good;
            },
            omega arith,
          )
    ]

    write-Holds :
        {s : PackedBuffer} {items : List A} (a : A)
        → Holds s items
        → c.Good a
        → s.pos + length (c.encode a) ≤ s.reserved_len
        → (buf : List ℕ) × (write s.buffer s.pos (c.encode a) ≡ some buf)
          × Holds
              (record s { buffer = buf; pos = s.pos + length (c.encode a); count = s.count + 1 })
              (items ++ (a ∷ []))
    write-Holds {s} {items} a h g fits =
        let old = encode_all items in
        let b = c.encode a in
        let (front, back, e, l) =
          split_at (length b) h.unused (
            omega (arith, h.reserved, ap length h.layout, length-append old h.unused, h.end_pos)) in
        let from : s.buffer ≡ old ++ (front ++ back) = h.layout ∙ ap (λ (x : List ℕ). old ++ x) e in
        let all : encode_all (items ++ (a ∷ [])) ≡ old ++ b =
          encode_all-append items (a ∷ []) ∙ ap (λ (x : List ℕ). old ++ x) (append-nil b) in
        (
          old ++ (b ++ back),
          rw from (write-append old front b back s.pos h.end_pos l),
          record {
            unused = back;
            layout = sym (append_assoc old b back) ∙ ap (λ (x : List ℕ). x ++ back) (sym all);
            end_pos = omega (arith, h.end_pos, length-append old b, ap length all);
            counted = omega (arith, h.counted, length-append items (a ∷ []));
            reserved = omega (
              arith,
              h.reserved,
              ap length from,
              length-append old (front ++ back),
              length-append front back,
              length-append old (b ++ back),
              length-append b back,
            );
            good = AllGood-append items a h.good g;
          },
        )

    -- Appending an item, with enough room asked for, puts it behind the others.
    pub append_bytes-Holds :
        {s : PackedBuffer} {items : List A} (a : A) (room : ℕ)
        → Holds s items
        → c.Good a
        → length (c.encode a) ≤ room
        → (s' : PackedBuffer) × (append_bytes mem s room (c.encode a) ≡ some s')
          × Holds s' (items ++ (a ∷ []))
    unfolding append_bytes
    append_bytes-Holds {s} a room h g fits =
        let (s₁, run, h₁, big) = reserve-Holds h (s.pos + room) (omega arith) in
        let same : s₁.pos ≡ s.pos = h₁.end_pos ∙ sym h.end_pos in
        let (buf, run₂, h₂) = write-Holds a h₁ g (omega arith) in
        (
          record s₁ { buffer = buf; pos = s₁.pos + length (c.encode a); count = s₁.count + 1 },
          rw (run, run₂),
          h₂,
        )
