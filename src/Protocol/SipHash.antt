-- ===== src/Protocol/SipHash.antt =====
-- `proto_siphash24` of src/protocol/protocol.c.
use tund.Base.{
  ℕ, zero, suc, ◌+◌, ◌-◌, ◌*◌, ◌/◌, ◌%◌, ◌^◌, bit_or, bit_xor, List, [], ◌∷◌, ◌≡◌, refl, length,
  take, drop,
}

-- `(x << b) | (x >> (64 - b))`.
unfoldable pub rotl64 : ℕ → ℕ → ℕ
rotl64 x b = bit_or (x * 2 ^ b % 2 ^ 64) (x / 2 ^ (64 - b))

-- The loop of `proto_load64_le` and that over the last bytes: `v |= (uint64_t)p[i] << (8 * i)`.
unfoldable pub or_bytes : ℕ → ℕ → List ℕ → ℕ
or_bytes i v [] = v
or_bytes i v (b ∷ bs) = or_bytes (i + 1) (bit_or v (b * 2 ^ (8 * i) % 2 ^ 64)) bs

unfoldable pub load64_le : List ℕ → ℕ
load64_le p = or_bytes 0 0 (take 8 p)

pub record SipState : Type 0 where
  pub v0 : ℕ
  pub v1 : ℕ
  pub v2 : ℕ
  pub v3 : ℕ

-- SIPROUND; each line of the macro is a binding.
unfoldable pub sip_round : SipState → SipState
sip_round s =
    let a0 = (s.v0 + s.v1) % 2 ^ 64 in
    let a1 = bit_xor (rotl64 s.v1 13) a0 in
    let b0 = rotl64 a0 32 in
    let a2 = (s.v2 + s.v3) % 2 ^ 64 in
    let a3 = bit_xor (rotl64 s.v3 16) a2 in
    let c0 = (b0 + a3) % 2 ^ 64 in
    let b3 = bit_xor (rotl64 a3 21) c0 in
    let b2 = (a2 + a1) % 2 ^ 64 in
    let b1 = bit_xor (rotl64 a1 17) b2 in record { v0 = c0; v1 = b1; v2 = rotl64 b2 32; v3 = b3 }

-- A block: into v3, two rounds, into v0.
unfoldable pub sip_block : SipState → ℕ → SipState
sip_block s m =
    let t = sip_round (sip_round (record s { v3 = bit_xor s.v3 m })) in
    record t { v0 = bit_xor t.v0 m }

-- The loop over the whole blocks, so many of them.
unfoldable pub sip_blocks : ℕ → SipState → List ℕ → SipState
sip_blocks zero s bytes = s
sip_blocks (suc n) s bytes = sip_blocks n (sip_block s (load64_le bytes)) (drop 8 bytes)

unfoldable pub sip_start : ℕ → ℕ → SipState
sip_start k0 k1 = record {
  v0 = bit_xor 0x736f6d6570736575 k0;
  v1 = bit_xor 0x646f72616e646f6d k1;
  v2 = bit_xor 0x6c7967656e657261 k0;
  v3 = bit_xor 0x7465646279746573 k1;
}

unfoldable pub sip_finish : SipState → ℕ
sip_finish s =
    let t = sip_round (sip_round (sip_round (sip_round (record s { v2 = bit_xor s.v2 0xff })))) in
    bit_xor (bit_xor (bit_xor t.v0 t.v1) t.v2) t.v3

unfoldable pub siphash24 : List ℕ → ℕ → ℕ → ℕ
siphash24 bytes k0 k1 =
    let len = length bytes in
    let whole = sip_blocks (len / 8) (sip_start k0 k1) bytes in
    let b = or_bytes 0 (len * 2 ^ 56 % 2 ^ 64) (drop (len / 8 * 8) bytes) in
    sip_finish (sip_block whole b)

-- The first vectors of the algorithm's authors, under the key of the bytes 0 to 15.
siphash24_empty : siphash24 [] 0x0706050403020100 0x0f0e0d0c0b0a0908 ≡ 0x726fdb47dd0e0e31
unfolding siphash24 sip_blocks sip_finish sip_block sip_round sip_start or_bytes load64_le rotl64
siphash24_empty = refl

siphash24_eight :
    siphash24 (0 ∷ 1 ∷ 2 ∷ 3 ∷ 4 ∷ 5 ∷ 6 ∷ 7 ∷ []) 0x0706050403020100 0x0f0e0d0c0b0a0908
    ≡ 0x93f5f5799a932462
unfolding siphash24 sip_blocks sip_finish sip_block sip_round sip_start or_bytes load64_le rotl64
siphash24_eight = refl
