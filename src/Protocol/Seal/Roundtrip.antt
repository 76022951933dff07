-- ===== src/Protocol/Seal/Roundtrip.antt =====
-- What `proto_decrypt` makes of what `proto_encrypt` sent.
use native.Mathlib.Nat.{mod-eq_of_lt}
use mathlib.Core.List.{append_assoc}
use tund.Base.{
  ℕ, ◌+◌, ◌-◌, ◌%◌, ◌^◌, ◌≤◌, ◌<◌, Bool, true, false, List, ◌++◌, ◌≡◌, refl, ap, ◌∙◌, arith, length,
  length-append, length-drop, take, drop, take_left, drop_left, Option, some, ◌==◌, ltb-false,
}
use tund.World.{World, Os, IsAead, HasEntropy}
use tund.Protocol.Constants.{max_plaintext}
use tund.Protocol.Header.{write_prefix, ok, read_hdr, read_sequence}
use tund.Protocol.Header.Laws.{
  Numbered, Written, write_hdr-Written, read_hdr-write_prefix, length-write_prefix,
}
use tund.Protocol.Seal.{
  set_payload_len, sealed, seal_with, encrypt_read, encrypt, opened, decrypt_read, decrypt,
}

-- A header is its first three bytes, its length field and the rest.
-- The type survives a new length.
module _ (type : ℕ) (tail : List ℕ) where
  -- A header under a payload length of its own.
  header : ℕ → List ℕ
  header n = write_prefix type n ++ tail

  set_payload_len_header : (n m : ℕ) → set_payload_len (header n) m ≡ header m
  unfolding header set_payload_len write_prefix
  set_payload_len_header n m = refl

  length-header : (n : ℕ) → length (header n) ≡ 5 + length tail
  unfolding header
  length-header n =
      omega (arith, length-append (write_prefix type n) tail, length-write_prefix type n)

  read_hdr_header : (n : ℕ) (rest : List ℕ) → n < 2 ^ 16 → read_hdr (header n ++ rest) ≡ ok type n
  unfolding header
  read_hdr_header n rest small =
      ap read_hdr (append_assoc (write_prefix type n) tail rest)
      ∙ read_hdr-write_prefix type n (tail ++ rest) small

-- The three parts of a datagram.
wire_parts :
    (hdr cipher mac : List ℕ) (h n : ℕ)
    → length hdr ≡ h
    → length cipher ≡ n
    → let wire = (hdr ++ cipher) ++ mac in
      (take h wire ≡ hdr)
      × (take n (drop h wire) ≡ cipher)
      × (drop (h + n) wire ≡ mac)
      × (length wire ≡ h + n + length mac)
wire_parts hdr cipher mac h n hl cl =
    let assoc = append_assoc hdr cipher mac in
    (
      ap (take h) assoc ∙ take_left h hdr (cipher ++ mac) hl,
      ap (λ t. take n (drop h t)) assoc
          ∙ ap (take n) (drop_left h hdr (cipher ++ mac) hl)
          ∙ take_left n cipher mac cl,
      drop_left (h + n) (hdr ++ cipher) mac (omega (arith, length-append hdr cipher)),
      omega (arith, length-append (hdr ++ cipher) mac, length-append hdr cipher),
    )

-- The path of `proto_decrypt` to the cipher, from what it reads of the datagram.
decrypt_lem :
    (os : Os) (key buf cipher mac wh : List ℕ) (type n : ℕ)
    → length buf ≡ 37 + n + 16
    → n ≤ max_plaintext
    → read_hdr buf ≡ ok type (n + 16)
    → take 37 buf ≡ wh
    → take n (drop 37 buf) ≡ cipher
    → drop (37 + n) buf ≡ mac
    → decrypt os key buf ≡ opened wh n (os.aead_unlock key (drop 13 wh) mac wh cipher)
unfolding decrypt
decrypt_lem os key buf cipher mac wh type n len fits read front middle back =
    rw (ltb-false (length buf) 53 (omega arith), read, decrypt_read)
      (rw (ltb-false (n + 16) 16 (omega arith))
        (rw (same_size, back_out) (rw (ltb-false 1600 n fits) (rw (front, middle, back)))))
  where
    same_size : (37 + (n + 16) == length buf) ≡ true
    same_size = ground arith

    back_out : n + 16 - 16 ≡ n
    back_out = omega arith

-- What was sealed opens to the same header, with the plaintext's length, and the same text.
decrypt-sealed :
    (os : Os) (key text tail : List ℕ) (type : ℕ)
    → IsAead os
    → length tail ≡ 32
    → length text ≤ max_plaintext
    → decrypt os key (sealed os key (header type tail (length text)) text)
      ≡ some (header type tail (length text) ++ text)
unfolding sealed
decrypt-sealed os key text tail type aead size fits =
    rw (set_payload_len_header, mod-eq_of_lt small)
      (decrypt_lem os key ((wh ++ cipher) ++ mac) cipher mac wh type n
          (parts.3 ∙ omega (arith, tag)) fits
          (ap read_hdr (append_assoc wh cipher mac)
            ∙ read_hdr_header type tail (n + 16) (cipher ++ mac) small)
          parts.0 parts.1 parts.2
        ∙ ap (opened wh n) (aead.unlock_lock key (drop 13 wh) wh text)
        ∙ reopen)
  where
    n : ℕ
    n = length text

    small : n + 16 < 2 ^ 16
    small = omega arith

    wh : List ℕ
    wh = header type tail (n + 16)

    cipher : List ℕ
    cipher = (os.aead_lock key (drop 13 wh) wh text).0

    mac : List ℕ
    mac = (os.aead_lock key (drop 13 wh) wh text).1

    tag : length mac ≡ 16
    tag = aead.tag_length key (drop 13 wh) wh text

    parts :
        let wire = (wh ++ cipher) ++ mac in
        (take 37 wire ≡ wh)
        × (take n (drop 37 wire) ≡ cipher)
        × (drop (37 + n) wire ≡ mac)
        × (length wire ≡ 37 + n + length mac)
    parts =
        wire_parts wh cipher mac 37 n (length-header type tail (n + 16) ∙ omega (arith, size))
          (aead.cipher_length key (drop 13 wh) wh text)

    reopen : opened wh n (some text) ≡ some (header type tail n ++ text)
    reopen =
        unfold opened in
        rw (set_payload_len_header, mod-eq_of_lt {n = n} {m = 2 ^ 16} (omega arith))

length-sealed :
    (os : Os) (key text tail : List ℕ) (type : ℕ)
    → IsAead os
    → length tail ≡ 32
    → length text ≤ max_plaintext
    → length (sealed os key (header type tail (length text)) text) ≡ 37 + length text + 16
unfolding sealed
length-sealed os key text tail type aead size fits =
    rw (set_payload_len_header, mod-eq_of_lt {n = length text + 16} {m = 2 ^ 16} (omega arith))
      (let wh = header type tail (length text + 16) in
        let (cipher, mac) = os.aead_lock key (drop 13 wh) wh text in
        omega (
          arith,
          length-append (wh ++ cipher) mac,
          length-append wh cipher,
          length-header type tail (length text + 16),
          aead.cipher_length key (drop 13 wh) wh text,
          aead.tag_length key (drop 13 wh) wh text,
          size,
        ))

-- What a datagram carries across: the type, the payload, and a sequence number of its own.
pub record Delivered (os : Os) (key : List ℕ) (w : World) (type : ℕ) (payload : List ℕ)
    (r : Option (List ℕ) × World) : Type 0 where
  pub wire : List ℕ
  pub plain : List ℕ
  pub number : ℕ
  pub sends : r.0 ≡ some wire
  pub wire_size : length wire ≡ 37 + length payload + 16
  pub receives : decrypt os key wire ≡ some plain
  pub plain_size : length plain ≡ 37 + length payload
  pub fields : read_hdr plain ≡ ok type (length payload)
  pub sequence : read_sequence plain ≡ some number
  pub same_payload : drop 37 plain ≡ payload
  pub numbered : Numbered w (some number, r.1)

seal_with-Delivered :
    (os : Os) (key : List ℕ) (w : World) (type : ℕ) (text : List ℕ) (r : Bool × List ℕ × World)
    → IsAead os
    → length text ≤ max_plaintext
    → Written w type (length text) r
    → Delivered os key w type text (seal_with os key text r)
unfolding seal_with
seal_with-Delivered os key w type text (false, hdr, w') aead fits v = cc (v.returns)
seal_with-Delivered os key w type text (true, hdr, w') aead fits v = rw (v.bytes) (record {
  wire = sealed os key (header type v.tail (length text)) text;
  plain = header type v.tail (length text) ++ text;
  number = v.number;
  sends = unfold header in refl;
  wire_size = length-sealed os key text v.tail type aead v.size fits;
  receives = decrypt-sealed os key text v.tail type aead v.size fits;
  plain_size = omega (
    arith,
    length-append (header type v.tail (length text)) text,
    length-header type v.tail (length text),
    v.size,
  );
  fields = read_hdr_header type v.tail (length text) text (omega arith);
  sequence = unfold header in v.sequence (length text) text;
  same_payload =
      drop_left 37 (header type v.tail (length text)) text
        (omega (arith, length-header type v.tail (length text), v.size));
  numbered = v.numbered;
})

-- With entropy and an AEAD that opens what it locks, a message of at most 1600 bytes of payload
-- whose header states that length is sealed, and the receiver with the same key decrypts it to a
-- message of the same type and payload, under the sender's next sequence number.
pub encrypt-Delivered :
    (os : Os) (key : List ℕ) (w : World) (buf : List ℕ) (type : ℕ)
    → IsAead os
    → HasEntropy os
    → w.next_sequence < 2 ^ 64
    → 37 ≤ length buf
    → length buf ≤ 37 + max_plaintext
    → read_hdr buf ≡ ok type (length buf - 37)
    → Delivered os key w type (drop 37 buf) (encrypt os w key buf)
unfolding encrypt
encrypt-Delivered os key w buf type aead entropy small least most read =
    rw (ltb-false (length buf) 37 least, read, encrypt_read)
      (rw (ltb-false 1600 (length buf - 37) (omega arith)) (
        rw states (
          rw cut (
            seal_with-Delivered os key w type (drop 37 buf) _ aead (omega (arith, size)) (
              rw size (
                write_hdr-Written os w (take 37 buf) type (length buf - 37) entropy small
                  (omega arith)))))))
  where
    cut : (length buf - 37) % 2 ^ 16 ≡ length buf - 37
    cut = omega arith

    states : (length buf - 37 == (length buf - 37) % 2 ^ 16) ≡ true
    states = ground arith

    size : length (drop 37 buf) ≡ length buf - 37
    size = length-drop 37 buf
