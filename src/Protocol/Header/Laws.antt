-- ===== src/Protocol/Header/Laws.antt =====
-- What a header holds once it is written, and the run of sequence numbers.
use tund.Base.{
  ℕ, ◌+◌, ◌*◌, ◌/◌, ◌%◌, ◌^◌, ◌≤◌, ◌<◌, bit_or, Bool, true, List, [], ◌++◌, ◌≡◌, ◌≢◌, refl, ap, ◌∙◌,
  arith, length, length-append, sym, take, take_left, Option, none, some, ◌⊎◌, inl, inr, ◌==◌,
  Bool-cases, ltb-false,
}
use mathlib.Core.List.{append_assoc}
use tund.Base.Bits.{bit_and_mask, bit_or_fields}
use tund.World.{World, Os, HasEntropy}
use tund.Protocol.Constants.{max_plaintext}
use tund.Protocol.Bytes.{load64, store_be}
use tund.Protocol.Bytes.Laws.{load_be-store_be, length-store_be}
use tund.Protocol.Header.{
  random_bytes, seed_of, initial_sequence, fetch_sequence, next_sequence, seeded, write_prefix,
  with_nonce, with_sequence, write_hdr, ok, read_hdr, read_sequence,
}

-- The length field of a prefix reads back.
pub read_hdr-write_prefix :
    (type payload_len : ℕ) (rest : List ℕ)
    → payload_len < 2 ^ 16
    → read_hdr (write_prefix type payload_len ++ rest) ≡ ok type payload_len
unfolding read_hdr write_prefix
read_hdr-write_prefix type payload_len rest h = ap (ok type) (
    ap (λ t. bit_or (payload_len / 256 % 256 * 256) (t % 256) % 65536) (bit_and_mask 8 payload_len)
    ∙ ap (λ t. t % 65536)
        (bit_or_fields 8 (payload_len / 256 % 256) (payload_len % 256 % 256) (omega arith))
    ∙ omega arith)

seed_of-bounds : (bs : List ℕ) → (0 < seed_of bs) × (seed_of bs < 2 ^ 63)
unfolding seed_of
seed_of-bounds bs = ground (arith, bit_and_mask 63 (load64 bs))

-- The outcome of a call of `proto_next_sequence` that succeeds.
pub record Numbered (w : World) (r : Option ℕ × World) : Type 0 where
  pub number : ℕ
  pub returns : r.0 ≡ some number
  pub positive : 0 < number
  pub in_word : number < 2 ^ 64
  pub origin :
      ((w.next_sequence ≢ 0) × (number ≡ w.next_sequence))
      ⊎ ((w.next_sequence ≡ 0) × (number < 2 ^ 63))
  pub next : r.1.next_sequence ≡ (number + 1) % 2 ^ 64

fetch_sequence-eq :
    (w : World)
    → w.next_sequence ≢ 0
    → fetch_sequence w
      ≡ (some w.next_sequence, record w { next_sequence = (w.next_sequence + 1) % 2 ^ 64 })
unfolding fetch_sequence
fetch_sequence-eq w h = ground arith

-- With entropy, the counter always yields a positive 64-bit number: the one that stands in it, or
-- a seed below 2 ^ 63 when it stands at 0; and it then stands at the number after.
pub next_sequence-Numbered :
    (os : Os) (w : World)
    → HasEntropy os
    → w.next_sequence < 2 ^ 64
    → Numbered w (next_sequence os w)
unfolding next_sequence
next_sequence-Numbered os w entropy small = elim (Bool-cases (w.next_sequence == 0)) [
  | inl unset ↦
      let (bs, got, _) = entropy w.draws 8 in
      let start = seed_of-bounds bs in
      rw (unset, initial_sequence, random_bytes, got, seeded)
        (rw
          (fetch_sequence-eq (record w { next_sequence = seed_of bs; draws = w.draws + 1 })
            (omega (arith, start)))
          (record {
            number = seed_of bs;
            returns = refl;
            positive = start.0;
            in_word = omega (arith, start);
            origin = inr (ground arith, start.1);
            next = refl;
          }))
  | inr set ↦ rw set (record {
    number = w.next_sequence;
    returns = refl;
    positive = ground arith;
    in_word = small;
    origin = inl (ground arith, refl);
    next = refl;
  })
]

pub length-write_prefix : (type payload_len : ℕ) → length (write_prefix type payload_len) ≡ 5
unfolding write_prefix
length-write_prefix type payload_len = refl

write_hdr_fits :
    (os : Os) (w : World) (old : List ℕ) (type payload_len : ℕ)
    → payload_len ≤ max_plaintext
    → write_hdr os w old type payload_len
      ≡ with_sequence os old (write_prefix type payload_len) (next_sequence os w)
unfolding write_hdr
write_hdr_fits os w old type payload_len fits = rw (ltb-false 1600 payload_len fits)

-- A header that was written: its prefix, and a tail that holds the sequence number under every
-- payload length (the length is written again later).
pub record Written (w : World) (type payload_len : ℕ) (r : Bool × List ℕ × World) : Type 0 where
  pub number : ℕ
  pub tail : List ℕ
  pub returns : r.0 ≡ true
  pub bytes : r.1 ≡ write_prefix type payload_len ++ tail
  pub size : length tail ≡ 32
  pub sequence :
      (n : ℕ) (rest : List ℕ) → read_sequence ((write_prefix type n ++ tail) ++ rest) ≡ some number
  pub numbered : Numbered w (some number, r.2)

read_sequence_of_prefix :
    (type payload_len number : ℕ) (rest : List ℕ)
    → 0 < number
    → number < 2 ^ 64
    → read_sequence ((write_prefix type payload_len ++ store_be 8 number []) ++ rest) ≡ some number
unfolding read_sequence write_prefix
read_sequence_of_prefix type payload_len number rest pos small =
    let here : take 8 (store_be 8 number [] ++ rest) ≡ store_be 8 number [] =
      take_left 8 (store_be 8 number []) rest (length-store_be 8 number []) in
    let value = load_be-store_be 8 number small small in rw (here, value) (ground arith)

with_sequence-Written :
    (os : Os) (w : World) (old : List ℕ) (type payload_len : ℕ) (r : Option ℕ × World)
    → HasEntropy os
    → payload_len < 2 ^ 16
    → Numbered w r
    → Written w type payload_len (with_sequence os old (write_prefix type payload_len) r)
unfolding with_sequence with_nonce random_bytes
with_sequence-Written os w old type payload_len (none, w1) entropy small v = cc (v.returns)
with_sequence-Written os w old type payload_len (some number, w1) entropy small v =
    let (nonce, got, size) = entropy w1.draws 24 in
    let pos : 0 < number = ground (arith, v.returns, v.positive) in
    let word : number < 2 ^ 64 = ground (arith, v.returns, v.in_word) in
    rw got (record {
      number = number;
      tail = store_be 8 number [] ++ nonce;
      returns = refl;
      bytes = append_assoc (write_prefix type payload_len) (store_be 8 number []) nonce;
      size =
          omega
            (arith, length-append (store_be 8 number []) nonce, length-store_be 8 number [], size);
      sequence = λ n rest.
          ap (λ t. read_sequence (t ++ rest))
            (sym (append_assoc (write_prefix type n) (store_be 8 number []) nonce))
          ∙ ap read_sequence (append_assoc (write_prefix type n ++ store_be 8 number []) nonce rest)
          ∙ read_sequence_of_prefix type n number (nonce ++ rest) pos word;
      numbered = record {
        number = number;
        returns = refl;
        positive = pos;
        in_word = word;
        origin = elim v.origin [
          | inl (running, e) ↦ inl (running, ground (arith, v.returns))
          | inr (unset, e) ↦ inr (unset, ground (arith, v.returns))
        ];
        next = ground (arith, v.returns, v.next);
      };
    })

-- With entropy, proto_write_hdr on a payload length of at most 1600 succeeds and writes 37 bytes:
-- the prefix with the type and length, and a tail whose sequence number reads back as the next one
-- of the counter under whatever length is written over it.
pub write_hdr-Written :
    (os : Os) (w : World) (old : List ℕ) (type payload_len : ℕ)
    → HasEntropy os
    → w.next_sequence < 2 ^ 64
    → payload_len ≤ max_plaintext
    → Written w type payload_len (write_hdr os w old type payload_len)
write_hdr-Written os w old type payload_len entropy small fits =
    rw (write_hdr_fits os w old type payload_len fits) (
      with_sequence-Written os w old type payload_len (next_sequence os w) entropy (omega arith)
        (next_sequence-Numbered os w entropy small))
