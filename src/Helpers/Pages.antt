-- ===== src/Helpers/Pages.antt =====
-- helpers/input_parsers.go: `PaginateSlice`, and the slice that its callers take.
pub mod Tiling
use blockchain_relay_layer.Base.{
  some, none, Option, ◌||◌, ℕ, ◌+◌, ◌-◌, ◌*◌, ◌%◌, ◌≤◌, ◌<◌, ◌≡◌, Bool, List, [], ◌∷◌, ◌++◌, length,
  take, drop, ltb, leb, ◌==◌, if◌then◌else◌, arith,
}
use blockchain_relay_layer.Base.Int.{ℤ, pos, negsuc}
use blockchain_relay_layer.Base.Action.{Result, ok, err, panic}

abbrev pub uint64_values : ℕ
uint64_values = 18_446_744_073_709_551_616

pub data PageError : Type 0 where
  negative_length page_is_zero limit_is_zero : PageError

-- The end of `PaginateSlice`: the indices, brought inside the slice.
unfoldable pub page_bounds : ℕ → ℕ → ℕ → ℕ × ℕ
page_bounds slice_len start end =
    if leb slice_len start
    then (0, 0)
    else if leb slice_len end
    then (start, slice_len)
    else (start, end)

-- `PaginateSlice`. The method `Uint64` of the SDK panics where the number does not fit; the product
-- and the sum wrap around.
unfoldable pub paginate_slice : ℤ → ℕ → ℕ → Result PageError (ℕ × ℕ)
unfolding page_bounds
paginate_slice (negsuc n) page limit = err negative_length
paginate_slice (pos n) page limit =
    let start = ((page - 1) * limit) % uint64_values in
    if page == 0
    then err page_is_zero
    else if limit == 0
    then err limit_is_zero
    else if n == 0
    then ok (0, 0)
    else if leb uint64_values page || leb uint64_values limit
    then panic
    else ok (page_bounds n start ((limit + start) % uint64_values))

-- `list[start:end]`, for an end within the list.
abbrev pub slice {ℓ} : {A : Type ℓ} → ℕ → ℕ → List A → Option (List A)
slice start end l = if ltb end start then none else some (take (end - start) (drop start l))

-- A page of a list, as the keepers' filtered lists take it.
unfoldable pub page_of : {A : Type 0} → List A → ℕ → ℕ → Result PageError (List A)
unfolding paginate_slice
page_of l page limit = elim (paginate_slice (pos (length l)) page limit) [
  | err e ↦ err e
  | panic ↦ panic
  | ok (start, end) ↦ elim (slice start end l) [ none ↦ panic | some part ↦ ok part ]
]
