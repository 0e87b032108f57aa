-- ===== src/Util/ObjectPool.antt =====
-- util/memory/object_pool.hpp. An object is its address; `pool_` is kept with its back first, and the
-- address that `new` gives is an argument.
pub mod Sharing
use aevum.Prelude.{ℕ, suc, [], ◌∷◌, List, Option, none, some, length, if◌then◌else◌, ◌==◌}

pub record ObjectPool : Type 0 where
  pub pool : List ℕ

take_back : ℕ → List ℕ → ℕ × ObjectPool
take_back fresh [] = (fresh, record { pool = [] })
take_back fresh (obj ∷ rest) = (obj, record { pool = rest })

-- The address, `fresh` where a new object is made.
unfoldable pub acquire : ℕ → ObjectPool → ℕ × ObjectPool
unfolding take_back
acquire fresh p = take_back fresh p.pool

-- `none` is a null pointer.
unfoldable pub release : Option ℕ → ObjectPool → ObjectPool
release none p = p
release (some obj) p = record { pool = obj ∷ p.pool }

unfoldable pub available_count : ObjectPool → ℕ
available_count p = length p.pool

-- ~ObjectPool: the objects that are deleted
unfoldable pub destroy : ObjectPool → List ℕ × ObjectPool
destroy p = (p.pool, record { pool = [] })

-- What the callers do with the pool: one of them acquires, with the address that `new` would give,
-- or one releases.
pub data Event : Type 0 where
  acquires releases : ℕ → Event

-- One entry of the list less.
unfoldable pub give_up : ℕ → List ℕ → List ℕ
give_up obj [] = []
give_up obj (x ∷ xs) = let rest = give_up obj xs in if x == obj then xs else x ∷ rest

-- The pool with the objects that the callers hold.
pub record Usage : Type 0 where
  pub state : ObjectPool
  pub held : List ℕ

unfoldable pub step : Event → Usage → Usage
unfolding acquire release give_up
step (acquires fresh) u =
    let (obj, p) = acquire fresh u.state in record { state = p; held = obj ∷ u.held }
step (releases obj) u = record { state = release (some obj) u.state; held = give_up obj u.held }

unfoldable pub run : List Event → Usage → Usage
unfolding step
run [] u = u
run (event ∷ events) u = run events (step event u)
