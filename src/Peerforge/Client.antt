-- ===== src/Peerforge/Client.antt =====
-- tools/peerforge/client.c. Sockets and clocks are the operating system's: for each wait, what arrives
-- before its end is given. The socket that a client has is not modelled.
use tund.Base.{
  ℕ, zero, suc, ◌+◌, ◌/◌, ◌%◌, Bool, true, false, not, ◌&&◌, List, [], ◌∷◌, ◌++◌, Option, none,
  some, ltb, leb, ◌==◌, if◌then◌else◌, length, drop, get_or,
}
use tund.World.{Addr, World, Os}
use tund.Protocol.Constants.{hdr_size, msg_assign, msg_data, msg_keepalive, msg_keepalive_ack}
use tund.Protocol.Bytes.{load32, store32, store16, htons}
use tund.Protocol.Header.{HdrResult, ok, read_hdr}
use tund.Protocol.Seal.{encrypt, decrypt}
use tund.Protocol.Ipv4.{get_src_ip, get_dst_ip}
use tund.Protocol.Messages.{
  build_register, build_keepalive, build_keepalive_ack, build_data, read_keepalive_timestamp,
}
use tund.Net.{sent_sealed}

-- `peerforge_client_t` and `peerforge_session_t`.
pub record Tester : Type 0 where
  pub virt_ip : ℕ
  pub assigned : Bool

pub record Session : Type 0 where
  pub server : Addr
  pub key : List ℕ

-- `peerforge_client_init`.
abbrev pub new_tester : Tester
new_tester = record { virt_ip = 0; assigned = false }

-- `send_encrypted`: whether it returns 0.
unfoldable pub send_encrypted : Os → World → Option (List ℕ) → Session → Bool × World
send_encrypted os w none session = (false, w)
send_encrypted os w (some buf) session =
    sent_sealed os session.server (encrypt os w session.key buf)

-- A whole message.
pub record Heard : Type 0 where
  pub type : ℕ
  pub payload_len : ℕ
  pub payload : List ℕ

unfoldable pub heard_in : List ℕ → HdrResult → Option Heard
heard_in buf (ok type payload_len) =
    if ltb (length buf) (hdr_size + payload_len)
    then none
    else some (record { type = type; payload_len = payload_len; payload = drop hdr_size buf })
heard_in buf _ = none

-- `recv_message`: none stands for every result that is not positive. Nothing may arrive.
unfoldable pub recv_message : Os → Session → Option (List ℕ) → Option Heard
unfolding heard_in
recv_message os session none = none
recv_message os session (some wire) = elim (decrypt os session.key wire) [
  | none ↦ none
  | some buf ↦ if ltb (length buf) hdr_size then none else heard_in buf (read_hdr buf)
]

unfoldable pub answer_keepalive : Os → World → Session → Heard → World
answer_keepalive os w session m = elim (read_keepalive_timestamp m.payload m.payload_len) [
  | none ↦ w
  | some timestamp ↦
      let (msg, w1) = build_keepalive_ack os w timestamp in (send_encrypted os w1 msg session).1
]

-- `handle_server_keepalive`, where the message is a KEEPALIVE.
unfoldable pub if_keepalive : Os → World → Session → Heard → World
unfolding answer_keepalive
if_keepalive os w session m = if m.type == msg_keepalive then answer_keepalive os w session m else w

-- `peerforge_client_drain`, which stops at the first wait that brings no message.
unfoldable pub drain : Os → World → Session → List (Option (List ℕ)) → World
unfolding if_keepalive
drain os w session [] = w
drain os w session (a ∷ later) = elim (recv_message os session a) [
  | none ↦ w
  | some m ↦ drain os (if_keepalive os w session m) session later
]

-- "forge-%03d" of a number below 1000.
unfoldable pub forge_name : ℕ → List ℕ
forge_name n =
    b'f'
    ∷ b'o'
    ∷ b'r'
    ∷ b'g'
    ∷ b'e'
    ∷ b'-'
    ∷ (48 + n / 100)
    ∷ (48 + n / 10 % 10)
    ∷ (48 + n % 10)
    ∷ []

unfoldable pub is_assign : Heard → Bool
is_assign m = (m.type == msg_assign) && leb 10 m.payload_len

-- The wait for an ASSIGN. A KEEPALIVE is answered.
unfoldable pub await_assign :
    Os → World → Session → Tester → List (Option (List ℕ)) → Bool × Tester × World
unfolding if_keepalive
await_assign os w session t [] = (false, t, w)
await_assign os w session t (a ∷ later) = elim (recv_message os session a) [
  | none ↦ await_assign os w session t later
  | some m ↦
      let rest = await_assign os (if_keepalive os w session m) session t later in
      if is_assign m
      then (true, record { virt_ip = load32 m.payload; assigned = true }, w)
      else rest
]

-- `peerforge_register_client`.
unfoldable pub register_tester :
    Os → World → Session → Tester → ℕ → List (Option (List ℕ)) → Bool × Tester × World
unfolding await_assign
register_tester os w session t index arrivals =
    let (msg, w1) = build_register os w (forge_name (index + 1)) in
    let (sent, w2) = send_encrypted os w1 msg session in
    let waited = await_assign os w2 session t arrivals in
    if not sent then (false, t, w2) else waited

unfoldable pub is_echo : Heard → ℕ → Bool
is_echo m timestamp =
    (m.type == msg_keepalive_ack) && elim (read_keepalive_timestamp m.payload m.payload_len) [
      | none ↦ false
      | some echoed ↦ echoed == timestamp
    ]

unfoldable pub await_ack : Os → World → Session → ℕ → List (Option (List ℕ)) → Bool × World
unfolding if_keepalive is_echo
await_ack os w session timestamp [] = (false, w)
await_ack os w session timestamp (a ∷ later) = elim (recv_message os session a) [
  | none ↦ await_ack os w session timestamp later
  | some m ↦
      let rest = await_ack os (if_keepalive os w session m) session timestamp later in
      if is_echo m timestamp then (true, w) else rest
]

-- A tester's turn in a round: the clock when it comes, and what arrives before its deadline.
pub record Wait : Type 0 where
  pub tester : Tester
  pub timestamp : ℕ
  pub arrivals : List (Option (List ℕ))

-- Whether a tester gets its KEEPALIVE back.
unfoldable pub keepalive_turn : Os → World → Session → Wait → Bool × World
unfolding await_ack
keepalive_turn os w session t =
    let (msg, w1) = build_keepalive os w t.timestamp in
    let (sent, w2) = send_encrypted os w1 msg session in
    let waited = await_ack os w2 session t.timestamp t.arrivals in
    if not t.tester.assigned then (false, w) else if not sent then (false, w2) else waited

-- `peerforge_keepalive_round`.
unfoldable pub keepalive_round : Os → World → Session → List Wait → ℕ × World
unfolding keepalive_turn
keepalive_round os w session [] = (0, w)
keepalive_round os w session (t ∷ ts) =
    let (answered, w1) = keepalive_turn os w session t in
    let (count, w2) = keepalive_round os w1 session ts in
    (if answered then suc count else count, w2)

-- `build_ipv4_probe`: twenty bytes, with the total length, a TTL of 64 and the protocol 253.
unfoldable pub build_ipv4_probe : ℕ → ℕ → List ℕ
build_ipv4_probe src dst =
    (0x45 ∷ 0 ∷ (store16 (htons 20) ++ (0 ∷ 0 ∷ 0 ∷ 0 ∷ 64 ∷ 253 ∷ 0 ∷ 0 ∷ [])))
    ++ (store32 src ++ store32 dst)

-- The probe has come out at its destination.
unfoldable pub is_probe : Heard → ℕ → ℕ → Bool
is_probe m src dst =
    (m.type == msg_data)
    && leb 20 m.payload_len
    && (get_src_ip m.payload m.payload_len == src)
    && (get_dst_ip m.payload m.payload_len == dst)

unfoldable pub await_probe : Os → World → Session → ℕ → ℕ → List (Option (List ℕ)) → Bool × World
unfolding if_keepalive is_probe
await_probe os w session src dst [] = (false, w)
await_probe os w session src dst (a ∷ later) = elim (recv_message os session a) [
  | none ↦ await_probe os w session src dst later
  | some m ↦
      let rest = await_probe os (if_keepalive os w session m) session src dst later in
      if is_probe m src dst then (true, w) else rest
]

unfoldable pub probe_turn :
    Os → World → Session → Tester → Tester → List (Option (List ℕ)) → Bool × World
unfolding await_probe build_ipv4_probe
probe_turn os w session src dst arrivals =
    let (msg, w1) = build_data os w (build_ipv4_probe src.virt_ip dst.virt_ip) 20 in
    let (sent, w2) = send_encrypted os w1 msg session in
    let waited = await_probe os w2 session src.virt_ip dst.virt_ip arrivals in
    if not sent then (false, w2) else waited

-- The testers that have an address.
unfoldable pub active : List Tester → List Tester
active [] = []
active (t ∷ ts) = let rest = active ts in if t.assigned then t ∷ rest else rest

-- The loop over the pairs from the i-th on, with what arrives in each turn.
unfoldable pub probe_loop :
    Os → World → Session → List Tester → ℕ → ℕ → (ℕ → List (Option (List ℕ))) → ℕ × World
unfolding probe_turn
probe_loop os w session ts i zero arrivals = (0, w)
probe_loop os w session ts i (suc left) arrivals =
    let src = get_or ts (i % length ts) new_tester in
    let dst = get_or ts ((i + 1) % length ts) new_tester in
    let (came, w1) = probe_turn os w session src dst (arrivals i) in
    let (count, w2) = probe_loop os w1 session ts (i + 1) left arrivals in
    (if came then suc count else count, w2)

-- `peerforge_data_probe`.
unfoldable pub data_probe :
    Os → World → Session → List Tester → ℕ → (ℕ → List (Option (List ℕ))) → ℕ × World
unfolding active probe_loop
data_probe os w session testers pairs arrivals =
    let probed = probe_loop os w session (active testers) 0 pairs arrivals in
    if ltb (length (active testers)) 2 then (0, w) else probed
