-- ===== src/Protocol/Header/Effects.antt =====
-- The header's functions touch nothing outside but the counters.
use tund.Base.{
  ℕ, ◌+◌, ◌^◌, ◌<◌, List, [], Option, none, some, ltb, ◌==◌, refl, arith, inl, inr, Bool-cases,
}
use tund.World.{World, Os}
use tund.World.Effects.{Sends, Sends-refl, Sends-trans, Sends-small}
use tund.Protocol.Constants.{max_plaintext}
use tund.Protocol.Header.{
  random_bytes, initial_sequence, fetch_sequence, next_sequence, seeded, with_nonce, with_sequence,
  write_prefix, write_hdr,
}

-- The counters alone.
counters :
    (w : World) (next drawn : ℕ)
    → next < 2 ^ 64
    → Sends w (record w { next_sequence = next; draws = drawn })
counters w next drawn small = record {
  next = next;
  drawn = drawn;
  more = [];
  in_word = small;
  result = refl;
}

fetch_sequence-Sends : (w : World) → Sends w (fetch_sequence w).1
unfolding fetch_sequence
fetch_sequence-Sends w = counters w _ w.draws (omega arith)

seeded-Sends : (w : World) (r : Option ℕ × World) → Sends w r.1 → Sends w (seeded r).1
unfolding seeded fetch_sequence
seeded-Sends w (none, w1) s = s
seeded-Sends w (some seed, w1) s = Sends-trans s (counters w1 _ w1.draws (omega arith))

next_sequence-Sends :
    (os : Os) (w : World) → w.next_sequence < 2 ^ 64 → Sends w (next_sequence os w).1
unfolding next_sequence initial_sequence random_bytes
next_sequence-Sends os w small = elim (Bool-cases (w.next_sequence == 0)) [
  | inl unset ↦ rw unset (seeded-Sends w _ (counters w w.next_sequence (w.draws + 1) small))
  | inr running ↦ rw running (fetch_sequence-Sends w)
]

with_nonce-Sends :
    (old front : List ℕ) (w : World) (r : Option (List ℕ) × World)
    → Sends w r.1
    → Sends w (with_nonce old front r).2
unfolding with_nonce
with_nonce-Sends old front w (none, w1) s = s
with_nonce-Sends old front w (some nonce, w1) s = s

with_sequence-Sends :
    (os : Os) (old front : List ℕ) (w : World) (r : Option ℕ × World)
    → Sends w r.1
    → Sends w (with_sequence os old front r).2
unfolding with_sequence random_bytes
with_sequence-Sends os old front w (none, w1) s = s
with_sequence-Sends os old front w (some n, w1) s =
    with_nonce-Sends old _ w _
      (Sends-trans s (counters w1 w1.next_sequence (w1.draws + 1) (Sends-small s)))

pub write_hdr-Sends :
    (os : Os) (w : World) (old : List ℕ) (type payload_len : ℕ)
    → w.next_sequence < 2 ^ 64
    → Sends w (write_hdr os w old type payload_len).2
unfolding write_hdr
write_hdr-Sends os w old type payload_len small =
    elim (Bool-cases (ltb max_plaintext payload_len)) [
      | inl long ↦ rw long (Sends-refl w small)
      | inr fits ↦ rw fits (
          with_sequence-Sends os old (write_prefix type payload_len) w (next_sequence os w)
            (next_sequence-Sends os w small))
    ]
