-- ===== src/MemoryPool/Requests.antt =====
-- Requests to a pool, one after the other.
use caliper.Base.{ℕ, suc, ◌+◌, ◌-◌, ◌%◌, ◌^◌, max, ◌≤◌, ◌≡◌, ◌⊎◌, inl, inr}
use caliper.Base.{arith, refl, sym, ap, ◌∙◌, ltb, ◌==◌, Bool, true, false}
use caliper.Base.{List, [], ◌∷◌, Option, none, some, ◌>>=◌, length, get_elem?}
use caliper.Base.{All}
use caliper.Base.{get_elem?-lt}
use caliper.Base.Memory.{get_elem?-append}
use caliper.MemoryPool.{Chunk, Pool, Pointer, chunksize, word_count, expand, new_pool, is_full}
use caliper.MemoryPool.{take_words, allocate_from, allocate_if, allocate}
use caliper.MemoryPool.Blocks.{Block, IsPool, Sound, add_block, expand-Sound}
use caliper.MemoryPool.Blocks.{take_words-Sound}

-- The request is small enough that `bytes + 7` does not wrap around.
abbrev pub IsRequest : ℕ → Type 0
IsRequest bytes = bytes ≤ 2 ^ 64 - 8

-- What a call answers: a pool and a pointer that are sound, with a pointer if the pool may expand.
abbrev pub Answer : Pool → List Block → ℕ → Bool → Option (Pool × Option Pointer) → Type 0
Answer p live bytes may result =
    (q : Pool) × (o : Option Pointer) × (result ≡ some (q, o))
    × Sound q (add_block o bytes live)
    × (q.can_expand ≡ p.can_expand)
    × ((may ≡ false) ⊎ ((ptr : Pointer) × (o ≡ some ptr)))

fresh_take-Sound :
    (p : Pool) (live : List Block) (bytes : ℕ)
    → IsRequest bytes
    → Sound p live
    → (q : Pool) × (ptr : Pointer) × (take_words (expand p bytes) (word_count bytes)
        ≡ some (q, some ptr))
      × Sound q (add_block (some ptr) bytes live)
      × (q.can_expand ≡ p.can_expand)
unfolding expand
fresh_take-Sound p live bytes small s =
    let len = max (word_count bytes) chunksize in
    let fresh : Chunk = record { wmark = 0; size = len } in
    let s' = expand-Sound p live bytes s.pool.bounded s.inside s.apart in
    take_words-Sound (expand p bytes) fresh (word_count bytes) s'.pool
      (get_elem?-append p.chunks fresh [] (length p.chunks) refl) (omega arith) live bytes
      (omega arith) s'

is_full_at :
    (p : Pool) (c : Chunk) (n : ℕ)
    → IsPool p
    → get_elem? p.chunks p.index ≡ some c
    → is_full p n ≡ some (ltb c.size ((c.wmark + n) % 2 ^ 64))
unfolding is_full
is_full_at p c n wf here =
    let inner : p.index == length p.chunks ≡ false = ground (arith, wf.index_last) in
    rw (inner, here)

allocate_from-Sound :
    (p : Pool) (live : List Block) (bytes : ℕ) (may full : Bool) (c : Chunk)
    → IsRequest bytes
    → Sound p live
    → get_elem? p.chunks p.index ≡ some c
    → full ≡ ltb c.size ((c.wmark + word_count bytes) % 2 ^ 64)
    → Answer p live bytes may (allocate_from p bytes may full)
unfolding allocate_from
allocate_from-Sound p live bytes may false c small s here e =
    let (low, bound) = s.pool.bounded p.index c here in
    let fits : c.wmark + word_count bytes ≤ c.size = ground arith in
    let (q, ptr, run, s', same) =
      take_words-Sound p c (word_count bytes) s.pool here fits live bytes (omega arith) s in
    (q, some ptr, run, s', same, inr (ptr, refl))
allocate_from-Sound p live bytes true true c small s here e =
    let (q, ptr, run, s', same) = fresh_take-Sound p live bytes small s in
    (q, some ptr, run, s', same, inr (ptr, refl))
allocate_from-Sound p live bytes false true c small s here e = (p, none, refl, s, refl, inl refl)

allocate_at :
    (p : Pool) (live : List Block) (bytes : ℕ) (c : Chunk)
    → IsRequest bytes
    → Sound p live
    → get_elem? p.chunks p.index ≡ some c
    → Answer p live bytes p.can_expand (allocate p bytes)
unfolding allocate allocate_if
allocate_at p live bytes c small s here =
    rw (is_full_at p c (word_count bytes) s.pool here)
      (allocate_from-Sound p live bytes p.can_expand _ c small s here refl)

-- A request to a sound pool stays in the vector of chunks. A block that it hands out lies in the
-- pool, apart from all blocks handed out before; a pool that may expand always hands one out.
pub allocate-Sound :
    (p : Pool) (live : List Block) (bytes : ℕ)
    → IsRequest bytes
    → Sound p live
    → Answer p live bytes p.can_expand (allocate p bytes)
allocate-Sound p live bytes small s =
    let (c, here) = get_elem?-lt p.chunks p.index (omega (arith, s.pool.index_last)) in
    allocate_at p live bytes c small s here

-- A run of requests from a new pool, and the blocks it handed out.
abbrev pub serve : Pool → List Block → List ℕ → Option (Pool × List Block)
serve p live [] = some (p, live)
serve p live (b ∷ bs) = do (q, o) ← allocate p b; serve q (add_block o b live) bs

pub new_pool-Sound : (may : Bool) (pool_size : ℕ) → Sound (new_pool may pool_size) []
unfolding new_pool
new_pool-Sound may pool_size =
    expand-Sound
      (record { chunks = []; index = 0; can_expand = may; total_reserved = 0; total_used = 0 }) []
      pool_size (λ i c e. cc) tt tt

-- What a run of requests leaves behind.
abbrev pub AllAnswered : Pool → List Block → List ℕ → Bool → Type 0
AllAnswered p live requests may =
    (q : Pool) × (blocks : List Block) × (serve p live requests ≡ some (q, blocks))
    × Sound q blocks
    × ((may ≡ false) ⊎ (length blocks ≡ length live + length requests))

add_answer :
    {may may' : Bool} {o : Option Pointer} (b n : ℕ) (live blocks : List Block)
    → may ≡ may'
    → (may' ≡ false) ⊎ ((ptr : Pointer) × (o ≡ some ptr))
    → (may ≡ false) ⊎ (length blocks ≡ length (add_block o b live) + n)
    → (may ≡ false) ⊎ (length blocks ≡ length live + suc n)
add_answer b n live blocks m (inl off) all = inl (m ∙ off)
add_answer b n live blocks m (inr one) (inl off) = inl off
add_answer b n live blocks m (inr (ptr, e)) (inr counted) =
    inr (omega (arith, ap (λ (x : Option Pointer). length (add_block x b live)) e))

serve-Sound :
    (p : Pool) (live : List Block) (requests : List ℕ) (may : Bool)
    → p.can_expand ≡ may
    → All IsRequest requests
    → Sound p live
    → AllAnswered p live requests may
serve-Sound p live [] may m g s = (p, live, refl, s, inr (omega arith))
serve-Sound p live (b ∷ bs) may m (small, g) s =
    let (q, o, run, s', same, one) = allocate-Sound p live b small s in
    let (q', blocks, run', s'', all) = serve-Sound q (add_block o b live) bs may (same ∙ m) g s' in
    (q', blocks, rw run run', s'', add_answer b (length bs) live blocks (sym m) one all)

-- From a new pool every run of requests of at most 2^64-8 bytes each is served without a read
-- outside the vector of chunks: the blocks lie in the pool's chunks and are pairwise apart, and
-- if the pool may expand there is one for each request.
pub serve-new_pool :
    (may : Bool) (pool_size : ℕ) (requests : List ℕ)
    → All IsRequest requests
    → AllAnswered (new_pool may pool_size) [] requests may
unfolding new_pool expand
serve-new_pool may pool_size requests g =
    serve-Sound (new_pool may pool_size) [] requests may refl g (new_pool-Sound may pool_size)
