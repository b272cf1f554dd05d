-- ===== src/Projects/Reference/Order.antt =====
-- The counters that successive calls return are distinct.
use pafs_backend_api.Prelude.{ℕ, zero, suc, ◌+◌, ◌*◌, ◌≤◌, ◌≡◌, ap, none, some, arith}
use pafs_backend_api.Projects.Reference.{Counter, increment_reference_counter}

-- What the call that comes after `n` others returns.
abbrev pub nth_counter : ℕ → Counter
nth_counter zero = increment_reference_counter none
nth_counter (suc n) = increment_reference_counter (some (nth_counter n))

-- The place of a counter in the order of the calls, from 1.
abbrev pub place : Counter → ℕ
place c = c.high_counter * 999 + c.low_counter

pub record IsInRange (c : Counter) : Type 0 where
  pub least : 1 ≤ c.low_counter
  pub greatest : c.low_counter ≤ 999

increment-IsInRange : (c : Counter) → IsInRange c → IsInRange (increment_reference_counter (some c))
unfolding increment_reference_counter
increment-IsInRange c h = record { least = ground arith; greatest = ground (arith, h.greatest) }

place-increment :
    (c : Counter) → IsInRange c → place (increment_reference_counter (some c)) ≡ place c + 1
unfolding increment_reference_counter
place-increment c h = ground (arith, h.least, h.greatest)

-- The counter of every call has a low part from 1 to 999.
nth_counter-IsInRange : (n : ℕ) → IsInRange (nth_counter n)
unfolding increment_reference_counter
nth_counter-IsInRange zero = record { least = omega arith; greatest = omega arith }
nth_counter-IsInRange (suc n) = increment-IsInRange (nth_counter n) (nth_counter-IsInRange n)

place-nth_counter : (n : ℕ) → place (nth_counter n) ≡ n + 1
unfolding increment_reference_counter
place-nth_counter zero = omega arith
place-nth_counter (suc n) =
    omega (arith, place-increment (nth_counter n) (nth_counter-IsInRange n), place-nth_counter n)

-- The counters of a region are never repeated, and their low part always is from 1 to 999: the
-- counter that the call after `n` others returns is that of the call after `m` others only if `n`
-- is `m`.
pub counters_distinct :
    (n m : ℕ) → nth_counter n ≡ nth_counter m → (n ≡ m) × IsInRange (nth_counter n)
counters_distinct n m e =
    (omega (arith, place-nth_counter n, place-nth_counter m, ap place e), nth_counter-IsInRange n)
