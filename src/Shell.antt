-- ===== src/Shell.antt =====
-- shell/parser/command_parser.cpp: the search for the brace that closes an object.
pub mod Braces
pub mod Command
pub mod Repl
pub mod Main
use aevum.Prelude.{
  ℕ, zero, suc, ◌+◌, ◌-◌, Bool, true, false, [], ◌∷◌, List, Option, none, some, Str, ℤ, pos, negsuc,
  drop, if◌then◌else◌, ◌==◌,
}

-- balance++ and balance-- on an `int`, for texts of less than 2^31 bytes.
unfoldable pub opened : ℤ → ℤ
opened (pos n) = pos (n + 1)
opened (negsuc zero) = pos 0
opened (negsuc (suc n)) = negsuc n

unfoldable pub closed : ℤ → ℤ
closed (pos zero) = negsuc zero
closed (pos (suc n)) = pos n
closed (negsuc n) = negsuc (n + 1)

unfoldable pub is_zero : ℤ → Bool
is_zero (pos zero) = true
is_zero (pos (suc n)) = false
is_zero (negsuc n) = false

-- The loop from the index `i` on, where the text starts at that index.
unfoldable pub scan_braces : ℕ → ℕ → ℤ → ℕ → Str → Option ℕ
unfolding opened closed is_zero
scan_braces open_char close_char balance i [] = none
scan_braces open_char close_char balance i (c ∷ s) =
    let deeper = scan_braces open_char close_char (opened balance) (i + 1) s in
    let out = scan_braces open_char close_char (closed balance) (i + 1) s in
    let next = scan_braces open_char close_char balance (i + 1) s in
    if c == open_char
    then deeper
    else if c == close_char
    then (if is_zero (closed balance) then some i else out)
    else next

-- `none` is `npos`.
unfoldable pub find_matching_brace : Str → ℕ → ℕ → ℕ → Option ℕ
unfolding scan_braces
find_matching_brace str start_pos open_char close_char =
    scan_braces open_char close_char (pos 0) start_pos (drop start_pos str)
