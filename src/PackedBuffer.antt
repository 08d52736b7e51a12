-- ===== src/PackedBuffer.antt =====
-- src/common/SnapshotBuffer.cpp and src/common/NodeBuffer.cpp: growing byte buffers that hold items one behind the
-- other. The two classes have the same fields and the same `reserve` and `import`; they differ in the item.
pub mod Holds
pub mod Snapshots
pub mod Nodes
use caliper.Base.{ℕ, zero, suc, ◌+◌, ◌*◌, ◌≤◌, ◌≡◌, leb, ltb, if◌then◌else◌, ◌>>=◌}
use caliper.Base.{List, [], ◌∷◌, Option, none, some, length, drop}
use caliper.Base.Memory.{read, write}

-- `new unsigned char[n]`, whose contents are not specified.
pub record Allocator : Type 0 where
  pub alloc : ℕ → List ℕ
  pub alloc_size : (n : ℕ) → length (alloc n) ≡ n

pub record PackedBuffer : Type 0 where
  pub count : ℕ
  pub pos : ℕ
  pub reserved_len : ℕ
  pub buffer : List ℕ

-- The constructor without arguments; the null pointer is the empty buffer.
unfoldable pub empty : PackedBuffer
empty = record { count = 0; pos = 0; reserved_len = 0; buffer = [] }

module _ (mem : Allocator) where
  -- The constructor with a size.
  unfoldable pub with_size : ℕ → PackedBuffer
  with_size size = record { count = 0; pos = 0; reserved_len = size; buffer = mem.alloc size }

  -- `new`, `memcpy` and `delete` of `reserve`.
  unfoldable pub grow : PackedBuffer → ℕ → Option PackedBuffer
  grow s len = do
    old ← read s.buffer 0 s.pos
    tmp ← write (mem.alloc len) 0 old
    some (record s { reserved_len = len; buffer = tmp })

  unfoldable pub reserve : PackedBuffer → ℕ → Option PackedBuffer
  reserve s min = if leb min s.reserved_len then some s else grow s (4096 + min * 2)

  -- `append`: room for `room` more bytes is reserved, and the bytes of an item are written.
  unfoldable pub append_bytes : PackedBuffer → ℕ → List ℕ → Option PackedBuffer
  append_bytes s room item = do
    s' ← reserve s (s.pos + room)
    buf ← write s'.buffer s'.pos item
    some (record s' { buffer = buf; pos = s'.pos + length item; count = s'.count + 1 })

  -- `import(size, count)`, before somebody writes to the buffer.
  unfoldable pub import : PackedBuffer → ℕ → ℕ → Option PackedBuffer
  import s size count = do s' ← reserve s size; some (record s' { pos = size; count = count })

-- The loop of `for_each`, with `n` items left: what the callback was handed. `decode` reads one item
-- and tells how many bytes it took.
unfoldable pub for_each_from :
    {A : Type 0} → (List ℕ → Option (A × ℕ)) → PackedBuffer → ℕ → ℕ → Option (List A)
for_each_from {A} decode s zero pos = some []
for_each_from {A} decode s (suc n) pos =
    let next : Option (List A) =
      decode (drop pos s.buffer)
      >>= (λ (a, inc). for_each_from decode s n (pos + inc) >>= λ xs. some (a ∷ xs)) in
    if ltb pos s.pos then next else some []

unfoldable pub for_each : {A : Type 0} → (List ℕ → Option (A × ℕ)) → PackedBuffer → Option (List A)
for_each decode s = for_each_from decode s s.count 0
