-- ===== src/Util/Logger/Routing.antt =====
-- Which messages reach which stream.
use aevum.Prelude.{
  ℕ, ◌+◌, ◌≡◌, refl, [], ◌∷◌, List, Str, ltb, leb, length, length-append, Bool, true, false, ◌&&◌,
  not, arith, if◌then◌else◌, subst, Bool-cases, inl, inr,
}
use aevum.Util.Logger.{
  LogLevel, rank, Logger, write, set_level, Call, setting, writing, call, call_all,
}

-- Whether a message of a level reaches the stream for errors, or the other one.
abbrev reaches : Bool → LogLevel → LogLevel → Bool
reaches errors level l =
    leb (rank level) (rank l) && (if errors then leb 3 (rank l) else not (leb 3 (rank l)))

-- How many messages reach the stream.
abbrev counted : Bool → LogLevel → List Call → ℕ
counted errors level [] = 0
counted errors level (setting next ∷ cs) = counted errors next cs
counted errors level (writing l time thread message ∷ cs) =
    (if reaches errors level l then 1 else 0) + counted errors level cs

write_counted :
    (l : LogLevel) (time thread message : Str) (m : Logger)
    → let m' = write l time thread message m in
      (length m'.cerr ≡ length m.cerr + (if reaches true m.current_level l then 1 else 0))
      × (length m'.cout ≡ length m.cout + (if reaches false m.current_level l then 1 else 0))
      × (m'.current_level ≡ m.current_level)
unfolding write
write_counted l time thread message m = elim (Bool-cases (ltb (rank l) (rank m.current_level))) [
  | inl below ↦
      let short : leb (rank m.current_level) (rank l) ≡ false = ground (arith, below) in
      rw (below, short) (omega arith, omega arith, refl)
  | inr above ↦
      let long : leb (rank m.current_level) (rank l) ≡ true = ground (arith, above) in
      elim (Bool-cases (leb 3 (rank l))) [
        | inl bad ↦ rw (above, long, bad) (length-append m.cerr _, omega arith, refl)
        | inr fine ↦ rw (above, long, fine) (omega arith, length-append m.cout _, refl)
      ]
]

-- Each message of the level that is set, or above it, is one line: of an error or worse on the one
-- stream, of the rest on the other.
pub call_all-counted :
    (cs : List Call) (m : Logger)
    → (length (call_all cs m).cerr ≡ length m.cerr + counted true m.current_level cs)
      × (length (call_all cs m).cout ≡ length m.cout + counted false m.current_level cs)
unfolding call_all call set_level
call_all-counted [] m = (omega arith, omega arith)
call_all-counted (setting l ∷ cs) m = call_all-counted cs (set_level l m)
call_all-counted (writing l time thread message ∷ cs) m =
    let m' = write l time thread message m in
    let (bad, fine, same) = write_counted l time thread message m in
    let (errors, others) = call_all-counted cs m' in
    let (errors', others') =
      subst
        (λ level.
          (length (call_all cs m').cerr ≡ length m'.cerr + counted true level cs)
          × (length (call_all cs m').cout ≡ length m'.cout + counted false level cs))
        same (errors, others) in
    (omega (arith, errors', bad), omega (arith, others', fine))
