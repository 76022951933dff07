-- ===== src/Net.antt =====
-- src/net/network.c: sending and receiving sealed datagrams. Sockets, resolution and polling are the
-- operating system's; what `recvfrom` gives is an input.
pub mod Effects
pub mod Delivery
pub mod Socket
use tund.Base.{
  ℕ, ◌+◌, Bool, true, false, List, [], ◌∷◌, Option, none, some, ltb, if◌then◌else◌, length,
}
use tund.World.{Addr, Datagram, World, Os}
use tund.Protocol.Constants.{hdr_size, max_plaintext}
use tund.Protocol.Seal.{encrypt, decrypt}
use tund.Peers.{Peer}

-- `sendto`, which is logged.
transmit : Os → World → Datagram → Bool × World
transmit os w d = (os.sendto (length w.sent) d, record w { sent = d ∷ w.sent })

unfoldable pub sent_sealed : Os → Addr → Option (List ℕ) × World → Bool × World
unfolding transmit
sent_sealed os dest (none, w) = (false, w)
sent_sealed os dest (some wire, w) = transmit os w (record { dest = dest; wire = wire })

-- `true` is the return value 0. A message that could not be built has length -1.
unfoldable pub net_send : Os → World → Option (List ℕ) → Addr → Bool × World
unfolding sent_sealed transmit
net_send os w none dest = (false, w)
net_send os w (some buf) dest =
    if ltb (length buf) hdr_size
    then (false, w)
    else if ltb (hdr_size + max_plaintext) (length buf)
    then (false, w)
    else sent_sealed os dest (encrypt os w w.crypto_key buf)

-- What `recvfrom` returns, with the bytes and the sender.
pub data Incoming : Type 0 where
  arrived : List ℕ → Addr → Incoming
  would_block failed : Incoming

-- The return values of `net_recv`.
pub data Received : Type 0 where
  packet : List ℕ → Addr → Received
  auth_failed : Addr → Received
  no_data recv_error : Received

unfoldable pub net_recv : Os → World → Incoming → Received
net_recv os w (arrived buf from) = elim (decrypt os w.crypto_key buf) [
  | none ↦ auth_failed from
  | some plain ↦ packet plain from
]
net_recv os w would_block = no_data
net_recv os w failed = recv_error

-- A row of `tui_peer_t`.
pub record TuiPeer : Type 0 where
  pub virt_ip : ℕ
  pub name : List ℕ
  pub last_seen : ℕ
  pub bytes_in : ℕ
  pub bytes_out : ℕ
  pub rtt_ms : ℕ
  pub has_rtt : Bool
  pub active : Bool

-- The rows that `net_poll_peers` counts: every slot is copied, and one that is not active is
-- overwritten by the next.
unfoldable pub poll_rows : List Peer → List TuiPeer
poll_rows [] = []
poll_rows (p ∷ ps) =
    if p.active
    then record {
      virt_ip = p.virt_ip;
      name = p.name;
      last_seen = p.last_seen;
      bytes_in = p.bytes_in;
      bytes_out = p.bytes_out;
      rtt_ms = p.rtt_ms;
      has_rtt = p.has_rtt;
      active = p.active;
    }
      ∷ poll_rows ps
    else poll_rows ps
