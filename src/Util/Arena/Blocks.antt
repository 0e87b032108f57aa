-- ===== src/Util/Arena/Blocks.antt =====
-- The blocks of an arena: within their chunks, aligned to their offsets and apart.
use native.Mathlib.Nat.{mod_self, mod-add-mod, mod-eq_of_lt, mod-lt}
use aevum.Prelude.{
  ℕ, ◌+◌, ◌-◌, ◌%◌, ◌≡◌, ◌≤◌, ◌<◌, ◌⊎◌, inl, inr, refl, ap, sym, subst, ◌∙◌, Bool, true, [], ◌∷◌,
  List, Option, none, some, ltb, arith, Bool-cases,
}
use aevum.Util.Arena.{
  word, ArenaAllocator, Block, padding, claim, next_chunk, allocate, Request, got, allocate_all,
}

pub record IsValid (a : ArenaAllocator) : Type 0 where
  pub indexed : a.current_chunk_idx < a.chunks
  pub within : a.current_offset ≤ a.chunk_size

-- What the requests ask for and a chunk holds stays far below 2^64.
abbrev pub IsSmall : ArenaAllocator → Request → Type 0
IsSmall a r = (0 < r.alignment) × (a.chunk_size + r.bytes + r.alignment < word)

-- The block lies in a chunk, at an offset that the alignment divides.
pub record IsPlaced (a : ArenaAllocator) (r : Request) (b : Block) : Type 0 where
  pub exists : b.chunk < a.chunks
  pub fits : b.offset + b.size ≤ a.chunk_size
  pub aligned : b.offset % r.alignment ≡ 0
  pub sized : b.size ≡ r.bytes

-- The block lies behind all that the arena had handed out, and before what it hands out next.
abbrev pub Behind : ArenaAllocator → Block → Type 0
Behind a b =
    (a.current_chunk_idx < b.chunk)
    ⊎ ((a.current_chunk_idx ≡ b.chunk) × (a.current_offset ≤ b.offset))

abbrev pub Before : Block → ArenaAllocator → Type 0
Before b a =
    (b.chunk < a.current_chunk_idx)
    ⊎ ((b.chunk ≡ a.current_chunk_idx) × (b.offset + b.size ≤ a.current_offset))

add_zero : (n : ℕ) → n + 0 ≡ n
add_zero n = omega arith

padding_aligns : (k o : ℕ) → 0 < k → ((o + padding k o) % k ≡ 0) × (padding k o < k)
unfolding padding
padding_aligns k o h = elim (Bool-cases (ltb 0 (o % k))) [
  | inl over ↦
      let short : k - o % k < k = ground arith in
      let pad : (k - o % k) % k ≡ k - o % k = mod-eq_of_lt short in
      let whole : o % k + (k - o % k) ≡ k = omega (arith, mod-lt o h) in
      (
        ap (λ p. (o + p) % k) pad
            ∙ (sym (mod-add-mod o k (k - o % k)) ∙ (ap (λ t. t % k) whole ∙ mod_self k)),
        omega (arith, pad),
      )
  | inr even ↦
      let zero_rest : o % k ≡ 0 = ground arith in
      let full : k - o % k ≡ k = omega (arith, zero_rest) in
      let pad : (k - o % k) % k ≡ 0 = ap (λ t. t % k) full ∙ mod_self k in
      (ap (λ p. (o + p) % k) pad ∙ (ap (λ t. t % k) (add_zero o) ∙ zero_rest), omega (arith, pad))
]

padding-start : (k : ℕ) → 0 < k → padding k 0 ≡ 0
padding-start k h =
    let (aligned, short) = padding_aligns k 0 h in
    let same : padding k 0 ≡ 0 + padding k 0 = omega arith in
    sym (mod-eq_of_lt short) ∙ (ap (λ t. t % k) same ∙ aligned)

-- What one request comes to: a block behind all that was handed out, or nothing.
abbrev pub Gives : ArenaAllocator → Request → Option Block × ArenaAllocator → Type 0
Gives a r (none, a') = a' ≡ a
Gives a r (some b, a') =
    IsValid a'
    × (a'.chunk_size ≡ a.chunk_size)
    × (a.chunks ≤ a'.chunks)
    × IsPlaced a' r b
    × Behind a b
    × Before b a'

claim-Gives :
    (a : ArenaAllocator) (r : Request) (pad : ℕ)
    → IsValid a
    → a.chunk_size < word
    → a.current_offset + pad + r.bytes ≤ a.chunk_size
    → (a.current_offset + pad) % r.alignment ≡ 0
    → Gives a r (claim r.bytes pad a)
unfolding claim
claim-Gives a r pad v small fits aligned =
    let low : (a.current_offset + pad) % word ≡ a.current_offset + pad =
      omega (arith, fits, small) in
    let high : (a.current_offset + pad + r.bytes) % word ≡ a.current_offset + pad + r.bytes =
      omega (arith, fits, small) in
    (
      record { indexed = v.indexed; within = omega (arith, high, fits) },
      refl,
      omega arith,
      record {
        exists = v.indexed;
        fits = omega (arith, low, fits);
        aligned = ap (λ t. t % r.alignment) low ∙ aligned;
        sized = refl;
      },
      inr (refl, omega (arith, low)),
      inr (refl, omega (arith, low, high)),
    )

-- The arena moved to the start of its next chunk.
abbrev at_next : ArenaAllocator → ℕ → ArenaAllocator
at_next a chunks = record a {
  chunks = chunks;
  current_chunk_idx = a.current_chunk_idx + 1;
  current_offset = 0;
}

claim_next-Gives :
    (a : ArenaAllocator) (r : Request) (chunks : ℕ)
    → IsValid a
    → a.chunk_size < word
    → a.chunks ≤ chunks
    → a.current_chunk_idx + 1 < chunks
    → 0 < r.alignment
    → r.bytes ≤ a.chunk_size
    → Gives a r (claim r.bytes (padding r.alignment 0) (at_next a chunks))
unfolding claim
claim_next-Gives a r chunks v small grows below pos_align fits =
    let none_needed : padding r.alignment 0 ≡ 0 = padding-start r.alignment pos_align in
    let (valid, same, more, placed, behind, before) =
      claim-Gives (at_next a chunks) r (padding r.alignment 0)
        (record { indexed = below; within = omega arith }) small (omega (arith, none_needed, fits))
        (padding_aligns r.alignment 0 pos_align).0 in
    (valid, same, omega (arith, more, grows), placed, inl (omega arith), before)

next_chunk-Gives :
    (a : ArenaAllocator) (r : Request) (granted : Bool)
    → granted ≡ true
    → IsValid a
    → IsSmall a r
    → r.bytes ≤ a.chunk_size
    → let (moved, a') = next_chunk granted a in
      (moved ≡ true) × Gives a r (claim r.bytes (padding r.alignment a'.current_offset) a')
unfolding next_chunk
next_chunk-Gives a r granted yes_granted v small fits =
    let low : a.chunk_size < word = omega (arith, small.1) in
    elim (Bool-cases (ltb (a.current_chunk_idx + 1) a.chunks)) [
      | inl there ↦
          rw there
            (refl, claim_next-Gives a r a.chunks v low (omega arith) (ground arith) small.0 fits)
      | inr fresh ↦
          rw (fresh, yes_granted)
            (
              refl,
              claim_next-Gives a r (a.chunks + 1) v low (omega arith) (omega (arith, v.indexed))
                  small.0 fits,
            )
    ]

allocate-Gives :
    (a : ArenaAllocator) (r : Request)
    → IsValid a
    → IsSmall a r
    → r.granted ≡ true
    → Gives a r (allocate r.bytes r.alignment r.granted a)
unfolding allocate
allocate-Gives a r v small granted =
    let pad = padding r.alignment a.current_offset in
    let (aligned, short) = padding_aligns r.alignment a.current_offset small.0 in
    let required : (r.bytes + pad) % word ≡ r.bytes + pad = omega (arith, short, small.1) in
    let needed : (a.current_offset + (r.bytes + pad) % word) % word
        ≡ a.current_offset + pad + r.bytes =
      omega (arith, required, short, small.1, v.within) in
    elim (Bool-cases (ltb a.chunk_size ((a.current_offset + (r.bytes + pad) % word) % word))) [
      | inr room ↦
          rw room
            (claim-Gives a r pad v (omega (arith, small.1)) (ground (arith, room, needed)) aligned)
      | inl full ↦ elim (Bool-cases (ltb a.chunk_size ((r.bytes + pad) % word))) [
        | inl huge ↦ rw (full, huge) refl
        | inr fits ↦
            let (moved, gives) =
              next_chunk-Gives a r r.granted granted v small (ground (arith, fits, required)) in
            rw (full, fits, moved) gives
      ]
    ]

-- Each block lies before all that follow it.
abbrev pub Apart : Block → Block → Type 0
Apart b c = (b.chunk < c.chunk) ⊎ ((b.chunk ≡ c.chunk) × (b.offset + b.size ≤ c.offset))

abbrev pub AllApart : Block → List Block → Type 0
AllApart b [] = Unit {0}
AllApart b (c ∷ cs) = Apart b c × AllApart b cs

abbrev pub AreApart : List Block → Type 0
AreApart [] = Unit {0}
AreApart (b ∷ bs) = AllApart b bs × AreApart bs

abbrev AllBehind : ArenaAllocator → List Block → Type 0
AllBehind a [] = Unit {0}
AllBehind a (b ∷ bs) = Behind a b × AllBehind a bs

abbrev pub AreSmall : ArenaAllocator → List Request → Type 0
AreSmall a [] = Unit {0}
AreSmall a (r ∷ rs) = IsSmall a r × (r.granted ≡ true) × AreSmall a rs

Before-Behind : (b c : Block) (a : ArenaAllocator) → Before b a → Behind a c → Apart b c
Before-Behind b c a h k = ground arith

Behind-later :
    (a a' : ArenaAllocator) (b c : Block) → Behind a b → Before b a' → Behind a' c → Behind a c
Behind-later a a' b c h k l = ground arith

AllBehind-apart :
    (b : Block) (cs : List Block) (a : ArenaAllocator) → Before b a → AllBehind a cs → AllApart b cs
AllBehind-apart b [] a h k = tt
AllBehind-apart b (c ∷ cs) a h k = (Before-Behind b c a h k.0, AllBehind-apart b cs a h k.1)

AllBehind-later :
    (a a' : ArenaAllocator) (b : Block) (cs : List Block)
    → Behind a b
    → Before b a'
    → AllBehind a' cs
    → AllBehind a cs
AllBehind-later a a' b [] h k l = tt
AllBehind-later a a' b (c ∷ cs) h k l =
    (Behind-later a a' b c h k l.0, AllBehind-later a a' b cs h k l.1)

AreSmall-same :
    (a a' : ArenaAllocator) (rs : List Request)
    → a'.chunk_size ≡ a.chunk_size
    → AreSmall a rs
    → AreSmall a' rs
AreSmall-same a a' [] e h = tt
AreSmall-same a a' (r ∷ rs) e (small, granted, more) =
    ((small.0, omega (arith, e, small.1)), granted, AreSmall-same a a' rs e more)

after_block :
    (a : ArenaAllocator) (r : Request) (given : Option Block × ArenaAllocator)
    (rest : List Block × ArenaAllocator)
    → IsValid a
    → Gives a r given
    → (IsValid given.1
        → (given.1.chunk_size ≡ a.chunk_size)
        → AllBehind given.1 rest.0 × AreApart rest.0)
    → AllBehind a (got given.0 rest.0) × AreApart (got given.0 rest.0)
after_block a r (none, a') rest v same later =
    let (behind, apart) =
      later (subst IsValid (sym same) v) (ap (λ (x : ArenaAllocator). x.chunk_size) same) in
    (subst (λ x. AllBehind x rest.0) same behind, apart)
after_block a r (some b, a') rest v (valid, size, more, placed, behind, before) later =
    let (all_behind, apart) = later valid size in
    (
      (behind, AllBehind-later a a' b rest.0 behind before all_behind),
      (AllBehind-apart b rest.0 a' before all_behind, apart),
    )

allocate_all-behind :
    (rs : List Request) (a : ArenaAllocator)
    → IsValid a
    → AreSmall a rs
    → AllBehind a (allocate_all rs a).0 × AreApart (allocate_all rs a).0
unfolding allocate_all
allocate_all-behind [] a v small = (tt, tt)
allocate_all-behind (r ∷ rs) a v (small, granted, more) =
    let given = allocate r.bytes r.alignment r.granted a in
    after_block a r given (allocate_all rs given.1) v (allocate-Gives a r v small granted)
      (λ valid size. allocate_all-behind rs given.1 valid (AreSmall-same a given.1 rs size more))

-- The blocks that an arena hands out one after the other do not overlap, each lies before the next
-- ones, where the sizes and alignments stay below 2^64 with the size of a chunk, no alignment is 0
-- and the system grants every chunk.
pub allocate_all-AreApart :
    (rs : List Request) (a : ArenaAllocator)
    → IsValid a
    → AreSmall a rs
    → AreApart (allocate_all rs a).0
allocate_all-AreApart rs a v small = (allocate_all-behind rs a v small).1
