-- ===== src/MemoryPool/Blocks.antt =====
-- The blocks that a pool has handed out.
use caliper.Base.{ℕ, suc, ◌+◌, ◌*◌, ◌%◌, ◌^◌, max, ◌≤◌, ◌≡◌, ◌≢◌, ◌⊎◌, inl, inr}
use caliper.Base.{arith, refl, subst, ap, ◌∙◌, ◌==◌, Bool-cases}
use caliper.Base.{List, [], ◌∷◌, Option, none, some, length, get_elem?, set}
use caliper.Base.{All, All-mono, length-set, length-append, get_elem?-set_self}
use caliper.Base.{get_elem?-set, get_elem?-set_ne, get_elem?-append_left, get_elem?-snoc}
use caliper.MemoryPool.{Chunk, Pool, Pointer, chunksize, word_count, expand}
use caliper.MemoryPool.{take_words}

-- A pointer and the number of bytes that were asked for.
pub record Block : Type 0 where
  pub ptr : Pointer
  pub bytes : ℕ

-- The block lies in the used part of its chunk.
abbrev pub LiesIn : Pool → Block → Type 0
LiesIn p b =
    (c : Chunk) × (get_elem? p.chunks b.ptr.chunk ≡ some c)
    × (8 * b.ptr.word + b.bytes ≤ 8 * c.wmark)

-- The blocks share no byte.
abbrev pub Apart : Block → Block → Type 0
Apart a b =
    (a.ptr.chunk ≢ b.ptr.chunk)
    ⊎ ((8 * a.ptr.word + a.bytes ≤ 8 * b.ptr.word) ⊎ (8 * b.ptr.word + b.bytes ≤ 8 * a.ptr.word))

abbrev pub AllApart : List Block → Type 0
AllApart [] = Unit
AllApart (b ∷ bs) = All (Apart b) bs × AllApart bs

-- The last chunk is the current one, and no chunk is used beyond its end.
pub record IsPool (p : Pool) : Type 0 where
  pub index_last : suc p.index ≡ length p.chunks
  pub bounded :
      (i : ℕ) (c : Chunk) → get_elem? p.chunks i ≡ some c → (c.wmark ≤ c.size) × (c.size ≤ 2 ^ 61)

-- The pool is well formed, and the blocks lie in it and are apart.
pub record Sound (p : Pool) (live : List Block) : Type 0 where
  pub pool : IsPool p
  pub inside : All (LiesIn p) live
  pub apart : AllApart live

abbrev pub add_block : Option Pointer → ℕ → List Block → List Block
add_block none bytes live = live
add_block (some ptr) bytes live = record { ptr = ptr; bytes = bytes } ∷ live

pub expand-Sound :
    (p : Pool) (live : List Block) (bytes : ℕ)
    → ((i : ℕ) (c : Chunk) → get_elem? p.chunks i ≡ some c → (c.wmark ≤ c.size) × (c.size ≤ 2 ^ 61))
    → All (LiesIn p) live
    → AllApart live
    → Sound (expand p bytes) live
unfolding expand
expand-Sound p live bytes good inside apart =
    let len = max (word_count bytes) chunksize in
    let fresh : Chunk = record { wmark = 0; size = len } in
    record {
      pool = record {
        index_last = omega (arith, length-append p.chunks (fresh ∷ []));
        bounded = λ i c e. elim (get_elem?-snoc p.chunks fresh i e) [
          | inl old ↦ good i c old
          | inr (_, new) ↦ (
            omega (arith, ap Chunk.wmark new, ap Chunk.size new),
            omega (arith, ap Chunk.wmark new, ap Chunk.size new),
          )
        ];
      };
      inside =
          All-mono (λ b (c, e, l). (c, get_elem?-append_left p.chunks (fresh ∷ []) _ e, l)) live
            inside;
      apart = apart;
    }

split_place : (i j : ℕ) → (i ≡ j) ⊎ (i ≢ j)
split_place i j = elim (Bool-cases (i == j)) [
  | inl e ↦ inl (ground arith)
  | inr e ↦ inr (ground arith)
]

-- The chunk and the pool behind `take_words`.
abbrev used : Chunk → ℕ → Chunk
used c n = record c { wmark = (c.wmark + n) % 2 ^ 64 }

abbrev taken : Pool → Chunk → ℕ → Pool
taken p c n = record p {
  chunks = set p.chunks p.index (used c n);
  total_used = (p.total_used + n) % 2 ^ 64;
}

module _ (p : Pool) (c : Chunk) (n : ℕ) (wf : IsPool p) (here : get_elem? p.chunks p.index ≡ some c)
    (fits : c.wmark + n ≤ c.size) where
  no_wrap : (c.wmark + n) % 2 ^ 64 ≡ c.wmark + n
  no_wrap = let (_, small) = wf.bounded p.index c here in omega arith

  at_index : get_elem? (set p.chunks p.index (used c n)) p.index ≡ some (used c n)
  at_index = get_elem?-set_self p.chunks p.index (used c n) (omega (arith, wf.index_last))

  taken-IsPool : IsPool (taken p c n)
  taken-IsPool = record {
    index_last = omega (arith, wf.index_last, length-set p.chunks p.index (used c n));
    bounded = λ i d e. elim (get_elem?-set p.chunks p.index (used c n) i e) [
      | inl old ↦ wf.bounded i d old
      | inr new ↦
          let (_, small) = wf.bounded p.index c here in
          (
            omega (arith, no_wrap, ap Chunk.wmark new, ap Chunk.size new),
            omega (arith, ap Chunk.size new),
          )
    ];
  }

  -- What lay in a chunk still does.
  taken_lies : (b : Block) → LiesIn p b → LiesIn (taken p c n) b
  taken_lies b (d, e, l) = elim (split_place p.index b.ptr.chunk) [
    | inl at ↦
        let same : c ≡ d = cc in
        (
          used c n,
          subst (λ (i : ℕ). get_elem? (set p.chunks p.index (used c n)) i ≡ some (used c n)) at
              at_index,
          omega (arith, no_wrap, ap Chunk.wmark same),
        )
    | inr off ↦ (d, get_elem?-set_ne p.chunks (used c n) off ∙ e, l)
  ]

  -- What lay in a chunk is apart from the words taken.
  taken-Apart :
      (bytes : ℕ) (b : Block)
      → LiesIn p b
      → Apart (record { ptr = record { chunk = p.index; word = c.wmark }; bytes = bytes }) b
  taken-Apart bytes b (d, e, l) = elim (split_place p.index b.ptr.chunk) [
    | inl at ↦ let same : c ≡ d = cc in inr (inr (omega (arith, ap Chunk.wmark same)))
    | inr off ↦ inl off
  ]

  pub take_words-Sound :
      (live : List Block) (bytes : ℕ)
      → bytes ≤ 8 * n
      → Sound p live
      → (q : Pool) × (ptr : Pointer) × (take_words p n ≡ some (q, some ptr))
        × Sound q (add_block (some ptr) bytes live)
        × (q.can_expand ≡ p.can_expand)
  unfolding take_words
  take_words-Sound live bytes room s = (
    taken p c n,
    record { chunk = p.index; word = c.wmark },
    rw here,
    record {
      pool = taken-IsPool;
      inside = ((used c n, at_index, omega (arith, no_wrap)), All-mono taken_lies live s.inside);
      apart = (All-mono (taken-Apart bytes) live s.inside, s.apart);
    },
    refl,
  )
