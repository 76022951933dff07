-- ===== src/Tun/Darwin/Frames.antt =====
-- Packets in frames, and the other end of the interface.
use tund.Base.{
  ℕ, ◌+◌, ◌*◌, ◌/◌, ◌^◌, ◌≤◌, ◌<◌, bit_and, true, false, List, Option, none, some, ◌≡◌, refl, sym,
  ap, ◌∙◌, arith, inl, inr, Bool-cases, ◌==◌, ◌&&◌, ◌%◌, leb, ltb-false, length, length-append,
  take, drop, min, take_all, drop_left, length-take, ==→eq, ==_self,
}
use tund.Base.Bits.{bit_or_one, bit_or_two, bit_and-lt, bit_and_again, bit_and_high, bit_and_lowest}
use tund.Protocol.Constants.{max_plaintext}
use tund.Protocol.Bytes.{htonl, store32}
use tund.Protocol.Bytes.Laws.{htonl-htonl, htonl-lt}
use tund.Tun.{Kernel}
use tund.Tun.Darwin.{other_end, payload_of, tun_read, tun_write, frame_of}

four : length (store32 (htonl 2)) ≡ 4
unfolding store32
four = refl

payload_of-frame_of :
    (pkt : List ℕ) (bufsize : ℕ)
    → 0 < length pkt
    → length pkt ≤ bufsize
    → payload_of bufsize (some (frame_of pkt)) ≡ some pkt
unfolding payload_of
payload_of-frame_of pkt bufsize some_byte fits =
    let size = length-append (store32 (htonl 2)) pkt in
    let long : leb (length (frame_of pkt)) 4 ≡ false = ground (arith, size, four) in
    rw long (
      ap some
        (ap (take bufsize) (drop_left 4 (store32 (htonl 2)) pkt four) ∙ take_all bufsize pkt fits))

-- On macOS, if the kernel takes the whole frame of tun_write for a packet of 1 to 1600 bytes and
-- gives a later read as much of that frame as it asks for, then tun_write reports the packet's
-- length, and tun_read into a buffer that the packet fits gives the packet.
pub tun_read-tun_write :
    (k : Kernel) (n m : ℕ) (pkt : List ℕ) (bufsize : ℕ)
    → 0 < length pkt
    → length pkt ≤ max_plaintext
    → length pkt ≤ bufsize
    → k.write n (frame_of pkt) ≡ some (length (frame_of pkt))
    → k.readable m ≡ true
    → k.read (m + 1) (min (bufsize + 4) (max_plaintext + 4))
      ≡ some (take (min (bufsize + 4) (max_plaintext + 4)) (frame_of pkt))
    → (tun_write k n pkt ≡ some (length pkt)) × (tun_read k m bufsize ≡ some pkt)
unfolding tun_read tun_write
tun_read-tun_write k n m pkt bufsize some_byte most fits taken ready given =
    let size = length-append (store32 (htonl 2)) pkt in
    (
      rw (ltb-false 1604 (length pkt + 4) (omega arith), taken, tun_write)
          (ground (arith, size, four)),
      rw (ready, tun_read)
          (rw
            (given
              ∙ ap some (
                  take_all (min (bufsize + 4) (max_plaintext + 4)) (frame_of pkt)
                    (omega (arith, size, four))))
            (payload_of-frame_of pkt bufsize some_byte fits)),
    )

payload_of-bounded :
    (bufsize : ℕ) (r : Option (List ℕ)) (buf : List ℕ)
    → payload_of bufsize r ≡ some buf
    → length buf ≤ bufsize
unfolding payload_of
payload_of-bounded bufsize none buf got = ground arith
payload_of-bounded bufsize (some frame) buf got = ground (arith, length-take bufsize (drop 4 frame))

-- x
pub tun_read-bounded :
    (k : Kernel) (n bufsize : ℕ) (buf : List ℕ)
    → tun_read k n bufsize ≡ some buf
    → length buf ≤ bufsize
unfolding tun_read
tun_read-bounded k n bufsize buf got = elim (Bool-cases (k.readable n)) [
  | inl ready ↦
      payload_of-bounded bufsize (k.read (n + 1) (min (bufsize + 4) (max_plaintext + 4))) buf
        (ground arith)
  | inr idle ↦ ground arith
]

module _ (h m : ℕ) where
  -- An address with the last two bits of its own in the network of another.
  same_network : (x : ℕ) → x / 4 ≡ bit_and h m / 4 → bit_and x (m / 4 * 4) ≡ bit_and h (m / 4 * 4)
  same_network x same =
      bit_and_high 2 x (m / 4)
      ∙ ap (λ n. n * 4)
          (ap (λ n. bit_and n (m / 4)) (same ∙ (bit_and_lowest h m).2)
            ∙ bit_and_again (h / 4) (h / 4) (m / 4) (omega arith))
      ∙ sym (bit_and_high 2 h (m / 4))

==_sym : (a b : ℕ) → (a == b) ≡ (b == a)
==_sym a b = ground arith

-- Two words are compared in either byte order.
htonl-test : (x ip : ℕ) → x < 2 ^ 32 → ip < 2 ^ 32 → (htonl x == ip) ≡ (x == htonl ip)
htonl-test x ip first second =
    let back = htonl-htonl ip second in
    let forth = htonl-htonl x first in
    elim (Bool-cases (x == htonl ip)) [
      | inl same ↦ rw same (rw (==→eq x (htonl ip) same, back) (==_self ip))
      | inr other ↦ elim (Bool-cases (htonl x == ip)) [
        | inl same ↦
            absurd
              (ground (arith, other, forth, ap htonl (==→eq (htonl x) ip same), ==_self (htonl ip)))
        | inr also ↦ also ∙ sym other
      ]
    ]

-- On macOS, for any 32-bit address and any mask, the address that tun_set_ip gives the other end
-- of the interface is the interface's own exactly when the mask leaves the address whole and its
-- last two bits are set; and it always lies in the address's network under the mask without its
-- last two bits.
pub other_end-exact :
    (ip mask : ℕ)
    → ip < 2 ^ 32
    → ((other_end ip mask == ip)
        ≡ ((bit_and (htonl ip) (htonl mask) == htonl ip) && (htonl ip % 4 == 3)))
      × (bit_and (htonl (other_end ip mask)) (htonl mask / 4 * 4)
          ≡ bit_and (htonl ip) (htonl mask / 4 * 4))
unfolding other_end
other_end-exact ip mask word =
    let h = htonl ip in
    let m = htonl mask in
    let n = bit_and h m in
    let (low, next, high) = bit_and_lowest h m in
    let small : n < 2 ^ 32 = bit_and-lt 32 h m (htonl-lt ip) in
    let back = htonl-htonl ip word in
    let one = htonl-htonl (n / 2 * 2 + 1) (omega (arith, small)) in
    let two = htonl-htonl (n / 4 * 4 + 2 + n % 2) (omega (arith, small)) in
    let first = htonl-test (n / 2 * 2 + 1) ip (omega (arith, small)) word in
    elim (Bool-cases (ip == htonl (n / 2 * 2 + 1))) [
      | inl same ↦
          let own : h ≡ n / 2 * 2 + 1 = ap htonl (==→eq ip _ same) ∙ one in
          rw (bit_or_one n, bit_or_two n, same, other_end)
            (
              htonl-test (n / 4 * 4 + 2 + n % 2) ip (omega (arith, small)) word
                  ∙ ground (arith, own),
              same_network h m (htonl (htonl (n / 4 * 4 + 2 + n % 2))) (omega (arith, two)),
            )
      | inr other ↦
          rw (bit_or_one n, bit_or_two n, other, other_end)
            (
              first ∙ ground (arith, ==_sym ip (htonl (n / 2 * 2 + 1)), first),
              same_network h m (htonl (htonl (n / 2 * 2 + 1))) (omega (arith, one)),
            )
    ]
