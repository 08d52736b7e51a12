-- ===== src/MemoryPool.antt =====
-- src/caliper/MemoryPool.cpp: the pool that context tree nodes and their data are allocated from.
-- A chunk of 64-bit words is named by its place in `m_chunks`, and a pointer by its chunk and its
-- word there. The spinlock makes the body of `allocate` one step.
pub mod Blocks
pub mod Requests
use caliper.Base.{ℕ, ◌+◌, ◌*◌, ◌/◌, ◌%◌, ◌^◌, max, ltb, ◌==◌, if◌then◌else◌, Bool, true, false}
use caliper.Base.{List, [], ◌∷◌, ◌++◌, Option, none, some, ◌>>=◌, length, get_elem?, set}

-- `Chunk`, without the pointer.
pub record Chunk : Type 0 where
  pub wmark : ℕ
  pub size : ℕ

pub record Pool : Type 0 where
  pub chunks : List Chunk
  pub index : ℕ
  pub can_expand : Bool
  pub total_reserved : ℕ
  pub total_used : ℕ

pub record Pointer : Type 0 where
  pub chunk : ℕ
  pub word : ℕ

abbrev pub chunksize : ℕ
chunksize = 64 * 1024

-- `(bytes+sizeof(uint64_t)-1)/sizeof(uint64_t)`.
abbrev pub word_count : ℕ → ℕ
word_count bytes = (bytes + 7) % 2 ^ 64 / 8

unfoldable pub expand : Pool → ℕ → Pool
expand p bytes =
    let len = max (word_count bytes) chunksize in
    record p {
      chunks = p.chunks ++ (record { wmark = 0; size = len } ∷ []);
      index = length p.chunks;
      total_reserved = (p.total_reserved + len) % 2 ^ 64;
    }

-- The constructor, from the values of the settings `can_expand` and `pool_size`.
unfoldable pub new_pool : Bool → ℕ → Pool
unfolding expand
new_pool can_expand pool_size =
    expand
      (record {
        chunks = [];
        index = 0;
        can_expand = can_expand;
        total_reserved = 0;
        total_used = 0;
      })
      pool_size

-- The test for another chunk. `none` is a read behind the vector of chunks.
unfoldable pub is_full : Pool → ℕ → Option Bool
is_full p n =
    let of_chunk = get_elem? p.chunks p.index >>= λ c. some (ltb c.size ((c.wmark + n) % 2 ^ 64)) in
    if p.index == length p.chunks then some true else of_chunk

-- The end of `allocate`: `n` words of the chunk at `m_index`.
unfoldable pub take_words : Pool → ℕ → Option (Pool × Option Pointer)
take_words p n = do
  c ← get_elem? p.chunks p.index
  some (
    record p {
      chunks = set p.chunks p.index (record c { wmark = (c.wmark + n) % 2 ^ 64 });
      total_used = (p.total_used + n) % 2 ^ 64;
    },
    some (record { chunk = p.index; word = c.wmark }),
  )

-- `MemoryPoolImpl::allocate`, once the test is made; the inner `none` is the null pointer.
unfoldable pub allocate_from : Pool → ℕ → Bool → Bool → Option (Pool × Option Pointer)
allocate_from p bytes can_expand false = take_words p (word_count bytes)
allocate_from p bytes true true = take_words (expand p bytes) (word_count bytes)
allocate_from p bytes false true = some (p, none)

unfoldable pub allocate_if : Pool → ℕ → Bool → Option (Pool × Option Pointer)
allocate_if p bytes can_expand =
    is_full p (word_count bytes) >>= λ full. allocate_from p bytes can_expand full

-- `MemoryPool::allocate`.
unfoldable pub allocate : Pool → ℕ → Option (Pool × Option Pointer)
allocate p bytes = allocate_if p bytes p.can_expand
