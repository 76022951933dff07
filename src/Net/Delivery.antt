-- ===== src/Net/Delivery.antt =====
-- From `net_send` to the receiver's `net_recv`, in src/net/network.c.
use tund.Base.{
  ℕ, ◌+◌, ◌-◌, ◌^◌, ◌≤◌, ◌<◌, Bool, List, Option, none, some, ◌≡◌, inl, inr, refl, sym, arith, ap,
  ◌∙◌, length, drop, get_elem?, ltb-false,
}
use tund.World.{Addr, World, Os, IsAead, HasEntropy}
use tund.Protocol.Constants.{max_plaintext}
use tund.Protocol.Header.{read_hdr, read_sequence, ok}
use tund.World.Effects.{Sends, Sends-small, Sends-key, Sends-trans}
use tund.Protocol.Header.Laws.{Numbered}
use tund.Protocol.Seal.Effects.{encrypt-Sends}
use tund.Net.Effects.{sent_sealed-Sends}
use tund.Protocol.Messages.Framing.{Built}
use tund.Protocol.Seal.{encrypt, decrypt}
use tund.Protocol.Seal.Roundtrip.{Delivered, encrypt-Delivered}
use tund.Net.{transmit, sent_sealed, net_send, arrived, packet, net_recv}

-- The datagram that went out last, and what a receiver with the same key makes of it.
pub record Arrives (os : Os) (w : World) (least type : ℕ) (payload : List ℕ) (dest : Addr)
    (k : World) (from : Addr) (r : Bool × World) : Type 0 where
  pub wire : List ℕ
  pub plain : List ℕ
  pub last : get_elem? r.1.sent 0 ≡ some (record { dest = dest; wire = wire })
  pub received : net_recv os k (arrived wire from) ≡ packet plain from
  pub fields : read_hdr plain ≡ ok type (length payload)
  pub same_payload : drop 37 plain ≡ payload
  pub plain_size : length plain ≡ 37 + length payload
  pub number : ℕ
  pub positive : 0 < number
  pub sequence : read_sequence plain ≡ some number
  pub effects : Sends w r.1
  -- no number below this one was used
  pub above : least ≤ number

-- A number is the counter's, or a seed where the counter stood at 0.
not_below : {w w' : World} (n : ℕ) → Numbered w (some n, w') → w.next_sequence ≤ n
not_below {w} n v = elim v.origin [
  | inl (running, e) ↦ ground (arith, v.returns)
  | inr (unset, e) ↦ omega arith
]

sent_sealed-Arrives :
    (os : Os) (w : World) (type : ℕ) (payload : List ℕ) (dest : Addr) (k : World) (from : Addr)
    (r : Option (List ℕ) × World)
    → k.crypto_key ≡ w.crypto_key
    → Delivered os w.crypto_key w type payload r
    → Sends w (sent_sealed os dest r).1
    → Arrives os w w.next_sequence type payload dest k from (sent_sealed os dest r)
unfolding sent_sealed transmit net_recv
sent_sealed-Arrives os w type payload dest k from (none, w1) key d s = cc (d.sends)
sent_sealed-Arrives os w type payload dest k from (some wire, w1) key d s = record {
  wire = wire;
  plain = d.plain;
  last = refl;
  received = rw (opens, net_recv) refl;
  fields = d.fields;
  same_payload = d.same_payload;
  plain_size = d.plain_size;
  number = d.number;
  positive = ground (arith, d.numbered.returns, d.numbered.positive);
  sequence = d.sequence;
  effects = s;
  above = not_below d.number d.numbered;
}
  where
    same_wire : some wire ≡ some d.wire → wire ≡ d.wire
    same_wire e = cc

    opens : decrypt os k.crypto_key wire ≡ some d.plain
    opens =
        ap (λ x. decrypt os x wire) key
        ∙ ap (decrypt os w.crypto_key) (same_wire d.sends)
        ∙ d.receives

-- With entropy and an AEAD that opens what it locks, net_send of a message of at most 1600 bytes
-- of payload whose header states that length hands the socket a datagram for the destination, of
-- which net_recv makes, in any world with the same key, a packet of the same type and payload.
pub net_send-Arrives :
    (os : Os) (w : World) (buf : List ℕ) (type : ℕ) (dest : Addr) (k : World) (from : Addr)
    → k.crypto_key ≡ w.crypto_key
    → IsAead os
    → HasEntropy os
    → w.next_sequence < 2 ^ 64
    → 37 ≤ length buf
    → length buf ≤ 37 + max_plaintext
    → read_hdr buf ≡ ok type (length buf - 37)
    → Arrives os w w.next_sequence type (drop 37 buf) dest k from (net_send os w (some buf) dest)
unfolding net_send
net_send-Arrives os w buf type dest k from key aead entropy small least most read =
    rw (ltb-false (length buf) 37 least, ltb-false 1637 (length buf) most)
      (sent_sealed-Arrives os w type (drop 37 buf) dest k from (encrypt os w w.crypto_key buf) key
        (encrypt-Delivered os w.crypto_key w buf type aead entropy small least most read)
        (sent_sealed-Sends os w dest (encrypt os w w.crypto_key buf)
          (encrypt-Sends os w w.crypto_key buf small)))

-- A message that was just built, sent on.
pub post-Arrives :
    (os : Os) (w : World) (least type : ℕ) (payload : List ℕ) (dest : Addr) (k : World)
    (from : Addr) (r : Option (List ℕ) × World)
    → k.crypto_key ≡ w.crypto_key
    → IsAead os
    → HasEntropy os
    → least ≤ r.1.next_sequence
    → length payload ≤ max_plaintext
    → Built w type payload r
    → Arrives os w least type payload dest k from (net_send os r.1 r.0 dest)
post-Arrives os w least type payload dest k from (none, w1) key aead entropy low fits b =
    cc (b.returns)
post-Arrives os w least type payload dest k from (some msg, w1) key aead entropy low fits b =
    record {
      wire = a.wire;
      plain = a.plain;
      last = a.last;
      received = a.received;
      fields = a.fields ∙ ap (λ p. ok type (length p)) payload_of;
      same_payload = a.same_payload ∙ payload_of;
      plain_size = a.plain_size ∙ ap (λ p. 37 + length p) payload_of;
      number = a.number;
      positive = a.positive;
      sequence = a.sequence;
      effects = Sends-trans b.effects a.effects;
      above = omega (arith, a.above);
    }
  where
    same_buf : some msg ≡ some b.buf → msg ≡ b.buf
    same_buf e = cc

    msg_of : msg ≡ b.buf
    msg_of = same_buf b.returns

    payload_of : drop 37 msg ≡ payload
    payload_of = ap (drop 37) msg_of ∙ b.same_payload

    size : length msg ≡ 37 + length payload
    size = ap length msg_of ∙ b.size

    states : length payload ≡ length msg - 37
    states = omega (arith, size)

    a :
        Arrives os w1 w1.next_sequence type
          (drop 37 msg)
          dest
          k
          from
          (net_send os w1 (some msg) dest)
    a =
        net_send-Arrives os w1 msg type dest k from (key ∙ sym (Sends-key b.effects)) aead entropy
          (Sends-small b.effects) (omega (arith, size)) (omega (arith, size))
          (ap read_hdr msg_of ∙ b.fields ∙ ap (ok type) states)
