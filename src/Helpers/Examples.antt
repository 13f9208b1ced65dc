-- ===== src/Helpers/Examples.antt =====
-- Pages of small lists.
use blockchain_relay_layer.Base.{◌*◌, ℕ, ◌-◌, ◌≡◌, List, [], ◌∷◌, ◌++◌, take, arith}
use blockchain_relay_layer.Base.Action.{ok, panic}
use blockchain_relay_layer.Helpers.Pages.{uint64_values, page_of}
use blockchain_relay_layer.Helpers.Pages.Tiling.{page_of_tiles, page_of_overflow}

abbrev three : List ℕ
three = 5 ∷ 6 ∷ 7 ∷ []

page_of_tiles_example :
    (part : List ℕ) × (page_of three 2 2 ≡ ok part)
    × (take ((2 - 1) * 2) three ++ part ≡ take (2 * 2) three)
page_of_tiles_example = page_of_tiles three 2 2 (omega arith) (omega arith) (omega arith)

page_of_overflow_example : page_of three (uint64_values - 1) (uint64_values - 1) ≡ panic
page_of_overflow_example = page_of_overflow three (omega arith)
