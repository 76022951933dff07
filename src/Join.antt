-- ===== src/Join.antt =====
-- A client joins: the server's registration of src/core/server/handlers.c and the client's handshake
-- of src/core/client/register.c, with the network between them.
use tund.Base.{
  ℕ, ◌^◌, ◌<◌, true, false, List, none, some, ◌≡◌, refl, sym, ap, ◌∙◌, arith, get_elem?,
  get_elem?-lt, get_elem?-set_self, drop,
}
use tund.World.{Addr, World, Os, IsAead, HasEntropy, addr_eq}
use tund.World.Effects.{IsSent}
use tund.Protocol.Constants.{netmask, msg_assign}
use tund.Protocol.Bytes.{htonl, load32, store32, store16}
use tund.Protocol.Bytes.Laws.{load32-store32, htonl-lt}
use tund.Protocol.Replay.{replay_accept}
use tund.Peers.{Peer}
use tund.Peers.Table.{Holds}
use tund.Net.{arrived, net_recv}
use tund.Server.State.{Server, find_peer_by_addr}
use tund.Server.Invariant.{IsValid, find_free_slot-some}
use tund.Server.Register.{Registration, register_locked, handle_register, announce, new_peer}
use tund.Server.Admission.{Admits, refused, admitted, register_locked-Admits}
use tund.Protocol.Header.{ok}
use tund.Server.Announce.{length-assign_payload, assign_payload, assign-Arrives, announce-IsSent}
use tund.Client.State.{Client}
use tund.Client.Register.{Flags, received, registered, take_answer}
use tund.Client.Assigned.{with_address, take_answer-registered}

-- A datagram that the server sent to an endpoint, the client that its receipt makes, and the slot
-- in which the server keeps the same address for the endpoint.
pub record Joins (os : Os) (k : World) (cli : Client) (flags : Flags) (from : Addr)
    (r : Server × World) : Type 0 where
  pub wire : List ℕ
  pub member : Client
  pub sent : IsSent (record { dest = from; wire = wire }) r.1
  pub registers :
      take_answer cli flags (received (net_recv os k (arrived wire cli.server_addr)))
      ≡ registered member
  pub mask : member.netmask ≡ htonl netmask
  pub slot : ℕ
  pub peer : Peer
  pub held : Holds r.0.peers slot peer
  pub same_address : peer.virt_ip ≡ member.virt_ip
  pub same_endpoint : peer.real_addr ≡ from

addr_eq_self : (a : Addr) → addr_eq a a ≡ true
addr_eq_self a = ground arith

first_number :
    (cli : Client) (n : ℕ)
    → cli.server_replay.highest ≡ 0
    → 0 < n
    → (replay_accept cli.server_replay n).0 ≡ true
unfolding replay_accept
first_number cli n fresh pos = ground arith

read_payload :
    (vip : ℕ)
    → vip < 2 ^ 32
    → (load32 (assign_payload vip) ≡ vip) × (load32 (drop 4 (assign_payload vip)) ≡ htonl netmask)
unfolding load32 store32 store16
read_payload vip small =
    (load32-store32 vip small, load32-store32 (htonl netmask) (htonl-lt netmask))

-- An ASSIGN that arrives at a client that has had no answer yet.
assign_registers :
    (os : Os) (w : World) (vip : ℕ) (from : Addr) (k : World) (cli : Client) (flags : Flags)
    (key : k.crypto_key ≡ w.crypto_key) (aead : IsAead os) (entropy : HasEntropy os)
    (small : w.next_sequence < 2 ^ 64)
    → cli.server_replay.highest ≡ 0
    → let a = assign-Arrives os w vip from k cli.server_addr key aead entropy small in
      take_answer cli flags (received (net_recv os k (arrived a.wire cli.server_addr)))
      ≡ registered (with_address cli a.number (assign_payload vip))
assign_registers os w vip from k cli flags key aead entropy small fresh =
    let a = assign-Arrives os w vip from k cli.server_addr key aead entropy small in
    ap (λ r. take_answer cli flags (received r)) a.received
    ∙ take_answer-registered cli flags a.plain cli.server_addr 10 a.number
        (addr_eq_self cli.server_addr) (a.fields ∙ ap (ok msg_assign) (length-assign_payload vip))
        (omega (arith, a.plain_size, length-assign_payload vip)) (omega arith) a.sequence
        (first_number cli a.number fresh a.positive)
    ∙ ap (λ p. registered (with_address cli a.number p)) a.same_payload

-- With entropy and an AEAD that opens what it locks, when a valid table has a free slot,
-- server_handle_register for an endpoint that no active peer has sends that endpoint a datagram
-- from which a client with the same key that has had no answer yet becomes registered, with the
-- netmask of the network and with the address that the server's table now holds for an active peer
-- at that endpoint.
pub handle_register-Joins :
    (os : Os) (w : World) (srv : Server) (payload : List ℕ) (plen : ℕ) (from : Addr)
    (sequence now : ℕ) (k : World) (cli : Client) (flags : Flags) (i : ℕ) (p : Peer)
    → IsAead os
    → HasEntropy os
    → w.next_sequence < 2 ^ 64
    → k.crypto_key ≡ w.crypto_key
    → IsValid srv
    → find_peer_by_addr srv.peers from ≡ none
    → get_elem? srv.peers i ≡ some p
    → p.active ≡ false
    → cli.server_replay.highest ≡ 0
    → Joins os k cli flags from (handle_register os w srv payload plen from sequence now)
unfolding handle_register
handle_register-Joins os w srv payload plen from sequence now k cli flags i p aead entropy small key
      valid unknown slot free fresh =
    by_outcome (register_locked srv payload plen from sequence now)
      (register_locked-Admits srv payload plen from sequence now valid unknown)
  where
    by_outcome :
        (r : Registration × Server)
        → Admits srv payload plen from sequence now r
        → Joins os k cli flags from (r.1, announce os w r.0)
    by_outcome _ (refused full) = absurd (ground (arith, full i p slot))
    by_outcome _ (admitted j host peers place lo hi unheld becomes) =
        let vip = htonl host in
        let v = new_peer payload plen j vip from sequence now in
        let a = assign-Arrives os w vip from k cli.server_addr key aead entropy small in
        let (address, mask) = read_payload vip (htonl-lt host) in
        let (here, _) = find_free_slot-some srv.peers j place in
        record {
          wire = a.wire;
          member = with_address cli a.number (assign_payload vip);
          sent = announce-IsSent os w vip _ from _ k cli.server_addr key aead entropy small;
          registers = assign_registers os w vip from k cli flags key aead entropy small fresh;
          mask = mask;
          slot = j;
          peer = v;
          held = (
            ap (λ l. get_elem? l j) becomes
                ∙ get_elem?-set_self srv.peers j v (get_elem?-lt srv.peers j here),
            unfold new_peer in refl,
          );
          same_address = unfold new_peer in sym address;
          same_endpoint = unfold new_peer in refl;
        }
