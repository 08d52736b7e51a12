-- ===== src/CompressedRecord/Move.antt =====
-- `save_memmove` moves a range up, also where source and target overlap.
use caliper.Base.{ℕ, zero, suc, ◌+◌, ◌-◌, ◌≤◌, ◌≡◌, ◌≢◌, refl, min, ◌==◌, arith, sym, ◌∙◌}
use caliper.Base.{List, [], ◌∷◌, ◌++◌, Option, some, length, length-append, append_assoc}
use caliper.Base.{ap, true, false}
use caliper.Base.Memory.{read, write, read-append, write-append, split_at}
use caliper.CompressedRecord.{move_blocks, save_memmove}

-- One block: it is read before anything is written.
move_block :
    (a m₁ m₂ g r : List ℕ)
    → (x : List ℕ) × (length x ≡ length g)
      × (read (a ++ ((m₁ ++ m₂) ++ (g ++ r))) (length a + length m₁) (length m₂) ≡ some m₂)
      × (write (a ++ ((m₁ ++ m₂) ++ (g ++ r))) (length a + length g + length m₁) m₂
          ≡ some (a ++ (m₁ ++ (x ++ (m₂ ++ r)))))
move_block a m₁ m₂ g r =
    let (x, y, e, l) = split_at (length g) (m₂ ++ g) (rw length-append (omega arith)) in
    let ly : length y ≡ length m₂ =
      omega (arith, ap length e, length-append m₂ g, length-append x y) in
    let p : length a + length g + length m₁ ≡ length (a ++ (m₁ ++ x)) =
      omega (arith, length-append a (m₁ ++ x), length-append m₁ x) in
    let from : a ++ ((m₁ ++ m₂) ++ (g ++ r)) ≡ (a ++ (m₁ ++ x)) ++ (y ++ r) = simp append_assoc (
      cc (ap (λ (t : List ℕ). a ++ (m₁ ++ (t ++ r))) e, append_assoc m₂ g r, append_assoc x y r)) in
    (
      x,
      l,
      (let f : a ++ ((m₁ ++ m₂) ++ (g ++ r)) ≡ (a ++ m₁) ++ (m₂ ++ (g ++ r)) = simp append_assoc in
          rw f (
            read-append (a ++ m₁) m₂ (g ++ r) (length a + length m₁) (length m₂)
              (omega (arith, length-append a m₁)) refl)),
      rw from (
          write-append (a ++ (m₁ ++ x)) y m₂ r (length a + length g + length m₁) p ly
          ∙ simp append_assoc),
    )

move_blocks_step :
    (fuel : ℕ) (buf : List ℕ) (dst src len : ℕ) (tmp buf' : List ℕ)
    → len ≢ 0
    → read buf (src + (len - min len 64)) (min len 64) ≡ some tmp
    → write buf (dst + (len - min len 64)) tmp ≡ some buf'
    → move_blocks (suc fuel) buf dst src len ≡ move_blocks fuel buf' dst src (len - min len 64)
unfolding move_blocks
move_blocks_step fuel buf dst src len tmp buf' h rd wr =
    let t : (len == 0) ≡ false = ground arith in rw (t, move_blocks, rd, wr)

-- The range `m` behind `a` moved up by the length of `g`.
abbrev pub Moves : Option (List ℕ) → (a m g r : List ℕ) → Type 0
Moves o a m g r = (x : List ℕ) × (length x ≡ length g) × (o ≡ some (a ++ (x ++ (m ++ r))))

-- One round, before the rounds that move the rest of the range.
move_blocks-Moves_round :
    (fuel : ℕ) (a m m₁ m₂ g r : List ℕ) (dst src len : ℕ)
    → len ≢ 0
    → m ≡ m₁ ++ m₂
    → length m₁ ≡ len - min len 64
    → length m₂ ≡ min len 64
    → src ≡ length a
    → dst ≡ length a + length g
    → ((x : List ℕ)
        → length x ≡ length g
        → Moves
            (move_blocks fuel (a ++ (m₁ ++ (x ++ (m₂ ++ r)))) dst src (len - min len 64))
            a
            m₁
            x
            (m₂ ++ r))
    → Moves (move_blocks (suc fuel) (a ++ (m ++ (g ++ r))) dst src len) a m g r
move_blocks-Moves_round fuel a m m₁ m₂ g r dst src len h e l₁ l₂ hs hd rest =
    let (x, lx, rd, wr) = move_block a m₁ m₂ g r in
    let (y, ly, run) = rest x lx in
    (
      y,
      ly ∙ lx,
      rw e (
          move_blocks_step fuel (a ++ ((m₁ ++ m₂) ++ (g ++ r))) dst src len m₂
            (a ++ (m₁ ++ (x ++ (m₂ ++ r)))) h (rw (hs, ← l₁, ← l₂) rd) (rw (hd, ← l₁) wr)
          ∙ run
          ∙ ap (λ (t : List ℕ). some (a ++ (y ++ t))) (sym (append_assoc m₁ m₂ r))),
    )

move_blocks-Moves :
    (fuel : ℕ) (a m g r : List ℕ) (dst src len : ℕ)
    → len ≤ fuel
    → len ≡ length m
    → src ≡ length a
    → dst ≡ length a + length g
    → Moves (move_blocks fuel (a ++ (m ++ (g ++ r))) dst src len) a m g r
unfolding move_blocks
move_blocks-Moves zero a [] g r dst src len hf hl hs hd = (g, refl, ground arith)
move_blocks-Moves zero a (b ∷ m) g r dst src len hf hl hs hd = absurd (omega arith)
move_blocks-Moves (suc fuel) a [] g r dst src len hf hl hs hd = (g, refl, ground arith)
move_blocks-Moves (suc fuel) a (b ∷ m) g r dst src len hf hl hs hd =
    let (m₁, m₂, e, l₁) = split_at (len - min len 64) (b ∷ m) (omega arith) in
    let l₂ : length m₂ ≡ min len 64 = omega (arith, ap length e, length-append m₁ m₂) in
    move_blocks-Moves_round fuel a (b ∷ m) m₁ m₂ g r dst src len (omega arith) e l₁ l₂ hs hd
      (λ x lx.
        move_blocks-Moves fuel a m₁ x (m₂ ++ r) dst src (len - min len 64) (omega arith) (sym l₁) hs
          (rw lx hd))

-- Moving up by `length g` bytes keeps what lies around, and leaves the gap with some old bytes.
pub save_memmove-Moves :
    (a m g r : List ℕ) (dst src len : ℕ)
    → len ≡ length m
    → src ≡ length a
    → dst ≡ length a + length g
    → Moves (save_memmove (a ++ (m ++ (g ++ r))) dst src len) a m g r
unfolding save_memmove
save_memmove-Moves a m [] r dst src len hl hs hd =
    let t : (src == dst) ≡ true = ground arith in ([], refl, rw t)
save_memmove-Moves a m (b ∷ g) r dst src len hl hs hd =
    let t : (src == dst) ≡ false = ground arith in
    let (x, l, run) = move_blocks-Moves len a m (b ∷ g) r dst src len (omega arith) hl hs hd in
    (x, l, rw t run)
