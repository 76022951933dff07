-- ===== src/Protocol/Header.antt =====
-- The header of src/protocol/protocol.c: `proto_write_hdr`, `proto_read_hdr`, the sequence counter
-- and `proto_read_sequence`. A buffer is the list of its bytes; a builder returns the bytes that it
-- has written. The counter's loop is taken without a competing thread, where it runs at most once.
pub mod Effects
pub mod Laws
use tund.Base.{
  ℕ, suc, ◌+◌, ◌-◌, ◌/◌, ◌%◌, ◌^◌, bit_and, Bool, true, false, not, List, [], ◌∷◌, ◌++◌, Option,
  none, some, ltb, ◌==◌, if◌then◌else◌, get_or, take, drop,
}
use tund.World.{World, Os}
use tund.Protocol.Constants.{
  tund_magic, protocol_version, sequence_offset, nonce_offset, nonce_size, hdr_size, max_plaintext,
}
use tund.Protocol.Bytes.{load64, load_be, store_be, read_u16_be}

-- One request for random bytes.
unfoldable pub random_bytes : Os → World → ℕ → Option (List ℕ) × World
random_bytes os w n = (os.random w.draws n, record w { draws = w.draws + 1 })

-- The seed of `proto_initial_sequence`: eight bytes, the top bit cut, never 0.
unfoldable pub seed_of : List ℕ → ℕ
seed_of bs = let seed = bit_and (load64 bs) (2 ^ 63 - 1) in if seed == 0 then 1 else seed

unfoldable pub initial_sequence : Os → World → Option ℕ × World
unfolding random_bytes
initial_sequence os w =
    let (drawn, w') = random_bytes os w 8 in
    (elim drawn [ none ↦ none | some bs ↦ some (seed_of bs) ], w')

-- `atomic_fetch_add` on the counter.
unfoldable pub fetch_sequence : World → Option ℕ × World
fetch_sequence w = (
  if w.next_sequence == 0 then none else some w.next_sequence,
  record w { next_sequence = (w.next_sequence + 1) % 2 ^ 64 },
)

seeded : Option ℕ × World → Option ℕ × World
unfolding fetch_sequence
seeded (none, w) = (none, w)
seeded (some seed, w) = fetch_sequence (record w { next_sequence = seed })

unfoldable pub next_sequence : Os → World → Option ℕ × World
unfolding fetch_sequence initial_sequence seeded
next_sequence os w =
    if w.next_sequence == 0 then seeded (initial_sequence os w) else fetch_sequence w

-- `proto_write_payload_len` and the three bytes before it.
unfoldable pub write_prefix : ℕ → ℕ → List ℕ
write_prefix type payload_len =
    tund_magic
    ∷ protocol_version
    ∷ type
    ∷ payload_len / 2 ^ 8 % 2 ^ 8
    ∷ bit_and payload_len 0xFF % 2 ^ 8
    ∷ []

-- The header after a write that stops early keeps what stood behind the part that is written.
with_nonce : List ℕ → List ℕ → Option (List ℕ) × World → Bool × List ℕ × World
with_nonce old front (none, w) = (false, front ++ drop nonce_offset old, w)
with_nonce old front (some nonce, w) = (true, front ++ nonce, w)

with_sequence : Os → List ℕ → List ℕ → Option ℕ × World → Bool × List ℕ × World
unfolding with_nonce random_bytes
with_sequence os old front (none, w) = (false, front ++ drop sequence_offset old, w)
with_sequence os old front (some sequence, w) =
    with_nonce old (front ++ store_be 8 sequence []) (random_bytes os w nonce_size)

-- Whether the header was written, and the 37 bytes; `old` is what stood there.
unfoldable pub write_hdr : Os → World → List ℕ → ℕ → ℕ → Bool × List ℕ × World
unfolding next_sequence write_prefix with_sequence
write_hdr os w old type payload_len =
    if ltb max_plaintext payload_len
    then (false, old, w)
    else with_sequence os old (write_prefix type payload_len) (next_sequence os w)

-- The return value and the two out parameters.
pub data HdrResult : Type 0 where
  ok : ℕ → ℕ → HdrResult
  bad_magic bad_version : HdrResult

unfoldable pub read_hdr : List ℕ → HdrResult
unfolding read_u16_be
read_hdr buf =
    if not (get_or buf 0 0 == tund_magic)
    then bad_magic
    else if not (get_or buf 1 0 == protocol_version)
    then bad_version
    else ok (get_or buf 2 0) (read_u16_be (drop 3 buf))

unfoldable pub read_sequence : List ℕ → Option ℕ
read_sequence buf =
    let value = load_be 0 (take 8 (drop sequence_offset buf)) in
    if value == 0 then none else some value
