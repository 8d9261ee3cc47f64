-- ===== src/Pickup/Slices.antt =====
-- `slice(0, end)` and `splice(0, deleteCount)` of JavaScript's arrays, with the numbers of a message,
-- which may be negative.
pub mod Laws
use test_lib.Common.{ℕ, zero, suc, ◌-◌, List, [], ◌∷◌, length}

-- an integer; `negsuc n` is -(n + 1)
pub data ℤ : Type 0 where
  pos : ℕ → ℤ
  negsuc : ℕ → ℤ

module _ {A : Type 0} where
  unfoldable pub take : ℕ → List A → List A
  take zero xs = []
  take (suc n) [] = []
  take (suc n) (x ∷ xs) = x ∷ take n xs

  unfoldable pub drop : ℕ → List A → List A
  drop zero xs = xs
  drop (suc n) [] = []
  drop (suc n) (x ∷ xs) = drop n xs

  -- a negative end counts from the back
  unfoldable pub slice : ℤ → List A → List A
  unfolding take
  slice (pos n) xs = take n xs
  slice (negsuc n) xs = take (length xs - suc n) xs

  -- what `splice` removes and returns; it removes nothing if the count is negative
  unfoldable pub removed : ℤ → List A → List A
  unfolding take
  removed (pos n) xs = take n xs
  removed (negsuc n) xs = []

  -- what `splice` leaves
  unfoldable pub remaining : ℤ → List A → List A
  unfolding drop
  remaining (pos n) xs = drop n xs
  remaining (negsuc n) xs = xs
