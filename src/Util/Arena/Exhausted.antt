-- ===== src/Util/Arena/Exhausted.antt =====
-- A request that fails for want of a new chunk.
use aevum.Prelude.{◌+◌, ◌%◌, ◌≡◌, ◌≤◌, ◌<◌, refl, true, false, some, none, ltb, arith, Bool, ◌∙◌}
use aevum.Util.Arena.{word, ArenaAllocator, Block, padding, claim, next_chunk, allocate, Request}
use aevum.Util.Arena.Blocks.{IsValid, IsSmall}

-- The request needs more than what is left of the chunk, and no more than a chunk.
abbrev pub NeedsChunk : ArenaAllocator → Request → Type 0
NeedsChunk a r =
    let needed = r.bytes + padding r.alignment a.current_offset in
    (a.chunk_size < a.current_offset + needed) × (needed ≤ a.chunk_size)

abbrev pub FitsChunk : ArenaAllocator → Request → Type 0
FitsChunk a r = a.current_offset + (r.bytes + padding r.alignment a.current_offset) ≤ a.chunk_size

-- The arena whose index has moved past its last chunk.
abbrev moved : ArenaAllocator → ArenaAllocator
moved a = record a { current_chunk_idx = a.current_chunk_idx + 1 }

allocate_fails :
    (a : ArenaAllocator) (r : Request)
    → IsValid a
    → IsSmall a r
    → a.current_chunk_idx + 1 ≡ a.chunks
    → NeedsChunk a r
    → allocate r.bytes r.alignment false a ≡ (none, moved a)
unfolding allocate next_chunk
allocate_fails a r v small last (over, fits) =
    let pad = padding r.alignment a.current_offset in
    let required : (r.bytes + pad) % word ≡ r.bytes + pad = omega (arith, fits, small.1) in
    let test1 : ltb a.chunk_size ((a.current_offset + (r.bytes + pad) % word) % word) ≡ true =
      ground (arith, over, fits, required, small.1, v.within) in
    let test2 : ltb a.chunk_size ((r.bytes + pad) % word) ≡ false =
      ground (arith, fits, required) in
    let test3 : ltb (a.current_chunk_idx + 1) a.chunks ≡ false = ground (arith, last) in
    rw (test1, test2, test3) refl

allocate_fits :
    (a : ArenaAllocator) (r : Request) (granted : Bool)
    → a.chunk_size < word
    → FitsChunk a r
    → (block : Block) × ((allocate r.bytes r.alignment granted a).0 ≡ some block)
      × (block.chunk ≡ a.current_chunk_idx)
unfolding allocate claim
allocate_fits a r granted small fits =
    let pad = padding r.alignment a.current_offset in
    let required : (r.bytes + pad) % word ≡ r.bytes + pad = omega (arith, fits, small) in
    let test : ltb a.chunk_size ((a.current_offset + (r.bytes + pad) % word) % word) ≡ false =
      ground (arith, fits, required, small) in
    rw test (
      record {
        chunk = a.current_chunk_idx;
        offset = (a.current_offset + pad) % word;
        size = r.bytes;
      },
      refl,
      refl,
    )

-- Where a request needs a new chunk behind the last one and the system has no memory for it,
-- `allocate` throws, and yet has moved to the chunk that does not exist: the next request that
-- fits behind the old offset is given a block there, outside all chunks. The sizes and alignments
-- stay below 2^64 with the size of a chunk, and no alignment is 0.
pub allocate-allocate_unowned :
    (a : ArenaAllocator) (r r' : Request) (granted : Bool)
    → IsValid a
    → IsSmall a r
    → a.current_chunk_idx + 1 ≡ a.chunks
    → NeedsChunk a r
    → FitsChunk a r'
    → let (block, a') = allocate r.bytes r.alignment false a in
      (block ≡ none)
      × (block' : Block) × ((allocate r'.bytes r'.alignment granted a').0 ≡ some block')
      × (block'.chunk ≡ a'.chunks)
allocate-allocate_unowned a r r' granted v small last needs fits =
    let fails = allocate_fails a r v small last needs in
    let (block, given, placed) = allocate_fits (moved a) r' granted (omega (arith, small.1)) fits in
    rw fails (refl, block, given, placed ∙ last)
