-- ===== src/Protocol/Seal.antt =====
-- `proto_encrypt` and `proto_decrypt` of src/protocol/protocol.c. A buffer is the list of its `len`
-- bytes; `none` is the return value -1. The scratch copies that the source wipes are not modelled.
pub mod Effects
pub mod Roundtrip
use tund.Base.{
  ℕ, ◌+◌, ◌-◌, ◌%◌, ◌^◌, Bool, true, false, not, List, ◌++◌, Option, none, some, ltb, ◌==◌,
  if◌then◌else◌, length, take, drop,
}
use tund.World.{World, Os}
use tund.Protocol.Constants.{hdr_size, nonce_offset, auth_tag_size, max_plaintext}
use tund.Protocol.Header.{write_hdr, write_prefix, HdrResult, ok, read_hdr}

-- `proto_write_payload_len` on a whole header.
unfoldable pub set_payload_len : List ℕ → ℕ → List ℕ
unfolding write_prefix
set_payload_len hdr n = take 3 hdr ++ drop 3 (write_prefix 0 n) ++ drop 5 hdr

-- The datagram that goes out: the new header, which is also authenticated, the ciphertext, the tag.
unfoldable pub sealed : Os → List ℕ → List ℕ → List ℕ → List ℕ
sealed os key hdr text =
    let wire_hdr = set_payload_len hdr ((length text + auth_tag_size) % 2 ^ 16) in
    let (cipher, mac) = os.aead_lock key (drop nonce_offset wire_hdr) wire_hdr text in
    wire_hdr ++ cipher ++ mac

seal_with : Os → List ℕ → List ℕ → Bool × List ℕ × World → Option (List ℕ) × World
seal_with os key text (false, _, w) = (none, w)
seal_with os key text (true, hdr, w) = (some (sealed os key hdr text), w)

-- The guards between the header check and the new header.
encrypt_checked : Os → World → List ℕ → List ℕ → ℕ → ℕ → Option (List ℕ) × World
encrypt_checked os w key buf type payload_len =
    let plaintext_len = length buf - hdr_size in
    if ltb max_plaintext plaintext_len
    then (none, w)
    else if not (payload_len == plaintext_len % 2 ^ 16)
    then (none, w)
    else seal_with os key (drop hdr_size buf)
        (write_hdr os w (take hdr_size buf) type (plaintext_len % 2 ^ 16))

encrypt_read : Os → World → List ℕ → List ℕ → HdrResult → Option (List ℕ) × World
encrypt_read os w key buf (ok type payload_len) = encrypt_checked os w key buf type payload_len
encrypt_read os w key buf _ = (none, w)

unfoldable pub encrypt : Os → World → List ℕ → List ℕ → Option (List ℕ) × World
unfolding encrypt_read encrypt_checked seal_with
encrypt os w key buf =
    if ltb (length buf) hdr_size then (none, w) else encrypt_read os w key buf (read_hdr buf)

-- The plaintext put back behind the header, whose length becomes the plaintext's.
opened : List ℕ → ℕ → Option (List ℕ) → Option (List ℕ)
opened hdr plaintext_len none = none
opened hdr plaintext_len (some text) = some (set_payload_len hdr (plaintext_len % 2 ^ 16) ++ text)

decrypt_checked : Os → List ℕ → List ℕ → ℕ → Option (List ℕ)
decrypt_checked os key buf wire_payload_len =
    if ltb wire_payload_len auth_tag_size
    then none
    else if not (hdr_size + wire_payload_len == length buf)
    then none
    else let plaintext_len = wire_payload_len - auth_tag_size in
      if ltb max_plaintext plaintext_len
      then none
      else opened (take hdr_size buf) plaintext_len (
          os.aead_unlock key (drop nonce_offset (take hdr_size buf))
            (drop (hdr_size + plaintext_len) buf) (take hdr_size buf)
            (take plaintext_len (drop hdr_size buf)))

decrypt_read : Os → List ℕ → List ℕ → HdrResult → Option (List ℕ)
decrypt_read os key buf (ok _ wire_payload_len) = decrypt_checked os key buf wire_payload_len
decrypt_read os key buf _ = none

unfoldable pub decrypt : Os → List ℕ → List ℕ → Option (List ℕ)
unfolding decrypt_read decrypt_checked opened
decrypt os key buf =
    if ltb (length buf) (hdr_size + auth_tag_size)
    then none
    else decrypt_read os key buf (read_hdr buf)
