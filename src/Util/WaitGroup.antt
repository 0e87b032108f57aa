-- ===== src/Util/WaitGroup.antt =====
-- util/concurrency/wait_group.cpp. The counter is an `int` that stays within its 32 bits, and each
-- operation holds the lock from its first step to its last.
pub mod Counting
use aevum.Prelude.{
  ℕ, zero, suc, ◌+◌, ◌-◌, Bool, true, false, [], ◌∷◌, List, ℤ, pos, negsuc, leb, if◌then◌else◌,
}

pub record WaitGroup : Type 0 where
  pub counter : ℤ

-- How a call returns: whether it woke the waiting threads, or what it threw.
pub data Returned : Type 0 where
  quietly notifying invalid_argument logic_error : Returned

pos_part : ℤ → ℕ
pos_part (pos n) = n
pos_part (negsuc n) = 0

neg_part : ℤ → ℕ
neg_part (pos n) = 0
neg_part (negsuc n) = suc n

infixl 65 ◌+ℤ◌
unfoldable pub ◌+ℤ◌ : ℤ → ℤ → ℤ
unfolding pos_part neg_part
a +ℤ b =
    let up = pos_part a + pos_part b in
    let down = neg_part a + neg_part b in
    if leb down up then pos (up - down) else negsuc (down - up - 1)

check : ℤ → Returned × WaitGroup
check (negsuc n) = (invalid_argument, record { counter = negsuc n })
check (pos zero) = (notifying, record { counter = pos zero })
check (pos (suc n)) = (quietly, record { counter = pos (suc n) })

-- The counter is changed before it is tested.
unfoldable pub add : ℤ → WaitGroup → Returned × WaitGroup
unfolding check ◌+ℤ◌
add count w = check (w.counter +ℤ count)

count_down : ℤ → Returned × WaitGroup
count_down (negsuc n) = (logic_error, record { counter = negsuc n })
count_down (pos zero) = (logic_error, record { counter = pos zero })
count_down (pos (suc zero)) = (notifying, record { counter = pos zero })
count_down (pos (suc (suc n))) = (quietly, record { counter = pos (suc n) })

unfoldable pub done : WaitGroup → Returned × WaitGroup
unfolding count_down
done w = count_down w.counter

is_zero : ℤ → Bool
is_zero (pos zero) = true
is_zero (pos (suc n)) = false
is_zero (negsuc n) = false

-- The test of `wait`: whether a thread that looks at the counter goes on.
unfoldable pub wait : WaitGroup → Bool
unfolding is_zero
wait w = is_zero w.counter

-- `done` a number of times, with what the calls return.
unfoldable pub dones : ℕ → WaitGroup → List Returned × WaitGroup
unfolding done
dones zero w = ([], w)
dones (suc k) w =
    let (returned, w') = done w in let (others, last) = dones k w' in (returned ∷ others, last)
