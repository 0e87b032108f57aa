-- ===== src/Util/Arena.antt =====
-- util/memory/arena_allocator.cpp. A chunk is its place in the vector, a pointer a chunk with an
-- offset; whether the system has memory for another chunk is an argument.
pub mod Blocks
pub mod Exhausted
use aevum.Prelude.{
  ℕ, ◌+◌, ◌-◌, ◌%◌, ◌^◌, Bool, true, false, not, [], ◌∷◌, List, Option, none, some, ltb, leb,
  if◌then◌else◌,
}

-- A size_t
abbrev pub word : ℕ
word = 18446744073709551616

pub record ArenaAllocator : Type 0 where
  pub chunk_size : ℕ
  -- chunks_.size()
  pub chunks : ℕ
  pub current_chunk_idx : ℕ
  pub current_offset : ℕ

pub record Block : Type 0 where
  pub chunk : ℕ
  pub offset : ℕ
  pub size : ℕ

-- The constructor, where the system grants the first chunk.
unfoldable pub construct : ℕ → ArenaAllocator
construct chunk_size = record {
  chunk_size = chunk_size;
  chunks = 1;
  current_chunk_idx = 0;
  current_offset = 0;
}

-- (alignment - (offset % alignment)) % alignment, for an alignment that is not 0
unfoldable pub padding : ℕ → ℕ → ℕ
padding alignment offset = (alignment - offset % alignment) % alignment

-- The end of `allocate`: the pointer behind the padding, and the offset behind the block.
unfoldable pub claim : ℕ → ℕ → ArenaAllocator → Option Block × ArenaAllocator
claim bytes pad a = (
  some (record {
    chunk = a.current_chunk_idx;
    offset = (a.current_offset + pad) % word;
    size = bytes;
  }),
  record a { current_offset = (a.current_offset + pad + bytes) % word },
)

-- The next chunk, a new one if there is none; the index has moved when `add_chunk` throws.
next_chunk : Bool → ArenaAllocator → Bool × ArenaAllocator
next_chunk granted a =
    let moved = record a { current_chunk_idx = a.current_chunk_idx + 1 } in
    if ltb moved.current_chunk_idx moved.chunks
    then (true, record moved { current_offset = 0 })
    else if granted
    then (true, record moved { chunks = moved.chunks + 1; current_offset = 0 })
    else (false, moved)

-- `none` is std::bad_alloc.
unfoldable pub allocate : ℕ → ℕ → Bool → ArenaAllocator → Option Block × ArenaAllocator
unfolding claim next_chunk padding
allocate bytes alignment granted a =
    let pad = padding alignment a.current_offset in
    let required_space = (bytes + pad) % word in
    if not (ltb a.chunk_size ((a.current_offset + required_space) % word))
    then claim bytes pad a
    else if ltb a.chunk_size required_space
    then (none, a)
    else let (moved, a') = next_chunk granted a in
      if moved then claim bytes (padding alignment a'.current_offset) a' else (none, a')

unfoldable pub reset : ArenaAllocator → ArenaAllocator
reset a = record a { current_chunk_idx = 0; current_offset = 0 }

-- A request: bytes, alignment, and whether the system would grant a chunk.
pub record Request : Type 0 where
  pub bytes : ℕ
  pub alignment : ℕ
  pub granted : Bool

-- The blocks that a sequence of requests gets; a request that throws gets none.
abbrev pub got : Option Block → List Block → List Block
got none blocks = blocks
got (some block) blocks = block ∷ blocks

unfoldable pub allocate_all : List Request → ArenaAllocator → List Block × ArenaAllocator
unfolding allocate
allocate_all [] a = ([], a)
allocate_all (r ∷ rs) a =
    let (block, a') = allocate r.bytes r.alignment r.granted a in
    let (blocks, last) = allocate_all rs a' in (got block blocks, last)
