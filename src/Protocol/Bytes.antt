-- ===== src/Protocol/Bytes.antt =====
-- How src/protocol/protocol.c lays numbers out in bytes: shifts and masks for big-endian fields,
-- `memcpy` for `uint32_t` and `uint16_t`, and the byte-order calls. The host is little-endian.
pub mod Laws
use tund.Base.{ℕ, zero, suc, ◌+◌, ◌*◌, ◌/◌, ◌%◌, ◌^◌, bit_and, bit_or, List, [], ◌∷◌, get_or}

-- One round of `v = (v << 8) | b` on a `uint64_t`.
unfoldable pub push_byte : ℕ → ℕ → ℕ
push_byte v b = bit_or (v * 2 ^ 8 % 2 ^ 64) b

-- The loop of `proto_load64_be`, over the bytes that it reads.
unfoldable pub load_be : ℕ → List ℕ → ℕ
load_be v [] = v
load_be v (b ∷ bs) = load_be (push_byte v b) bs

-- The loop that stores the low byte and shifts it away, from the last place to the first; `acc` is
-- what already stands behind.
unfoldable pub store_be : ℕ → ℕ → List ℕ → List ℕ
store_be zero v acc = acc
store_be (suc n) v acc = store_be n (v / 2 ^ 8) (bit_and v 0xFF ∷ acc)

-- `(p[0] << 8) | p[1]`, as `uint16_t`.
unfoldable pub read_u16_be : List ℕ → ℕ
read_u16_be p = bit_or (get_or p 0 0 * 2 ^ 8) (get_or p 1 0) % 2 ^ 16

-- `memcpy(&x, p, 4)` into a `uint32_t`, and back.
unfoldable pub load32 : List ℕ → ℕ
load32 p = get_or p 0 0 + get_or p 1 0 * 2 ^ 8 + get_or p 2 0 * 2 ^ 16 + get_or p 3 0 * 2 ^ 24

-- The same for a `uint64_t`, over the bytes that it takes.
unfoldable pub load64 : List ℕ → ℕ
load64 [] = 0
load64 (b ∷ bs) = b + load64 bs * 2 ^ 8

unfoldable pub store32 : ℕ → List ℕ
store32 x = x % 2 ^ 8 ∷ x / 2 ^ 8 % 2 ^ 8 ∷ x / 2 ^ 16 % 2 ^ 8 ∷ x / 2 ^ 24 % 2 ^ 8 ∷ []

unfoldable pub store16 : ℕ → List ℕ
store16 x = x % 2 ^ 8 ∷ x / 2 ^ 8 % 2 ^ 8 ∷ []

-- `htonl` and `ntohl`: the four bytes in the other order.
unfoldable pub htonl : ℕ → ℕ
htonl x =
    x % 2 ^ 8 * 2 ^ 24
    + x / 2 ^ 8 % 2 ^ 8 * 2 ^ 16
    + x / 2 ^ 16 % 2 ^ 8 * 2 ^ 8
    + x / 2 ^ 24 % 2 ^ 8

unfoldable pub htons : ℕ → ℕ
htons x = x % 2 ^ 8 * 2 ^ 8 + x / 2 ^ 8 % 2 ^ 8
