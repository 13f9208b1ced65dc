-- ===== src/Helpers/Eth.antt =====
-- helpers/eth.go: the shape of an Ethereum address. A string is the list of its bytes.
use blockchain_relay_layer.Base.{
  ℕ, ◌*◌, Bool, true, false, ◌&&◌, ◌||◌, List, [], ◌∷◌, leb, ◌==◌, length, ◌%◌,
}

abbrev pub eth_address_length : ℕ
eth_address_length = 20

-- The digits that `hex.DecodeString` of Go's library takes.
abbrev pub is_hex_digit : ℕ → Bool
is_hex_digit c =
    (leb b'0' c && leb c b'9') || ((leb b'a' c && leb c b'f') || (leb b'A' c && leb c b'F'))

all_hex : List ℕ → Bool
all_hex [] = true
all_hex (c ∷ cs) = is_hex_digit c && all_hex cs

-- `hex.DecodeString` fails on an odd length and on any other byte.
pub is_hex : List ℕ → Bool
unfolding all_hex
is_hex s = all_hex s && (length s % 2 == 0)

unfoldable pub is_ethereum_address : List ℕ → Bool
unfolding is_hex
is_ethereum_address [] = false
is_ethereum_address (a ∷ []) = false
is_ethereum_address (a ∷ b ∷ s) = (length s == 2 * eth_address_length) && is_hex s
