-- ===== src/Server/Announce.antt =====
-- The messages that follow a registration.
use tund.Base.{ℕ, ◌+◌, ◌^◌, ◌<◌, List, [], ◌∷◌, ◌++◌, Option, some, ◌≡◌, refl, arith, length}
use tund.World.{Addr, World, Os, peer_join, IsAead, HasEntropy}
use tund.World.Effects.{Sends, Sends-refl, Sends-trans, Sends-small, IsSent, Sends-IsSent}
use tund.Protocol.Constants.{msg_assign, msg_peer_list, netmask, tun_mtu, msg_peer_join, name_len}
use tund.Protocol.Bytes.{htonl, store32, store16, htons}
use tund.Protocol.Header.Effects.{write_hdr-Sends}
use tund.Protocol.Messages.{build_assign, build_peer_join}
use tund.Protocol.Messages.Framing.{build-Built, build-Sends}
use tund.Net.{net_send}
use tund.Net.Effects.{net_send-Sends}
use tund.Net.Delivery.{Arrives, post-Arrives}
use tund.Server.State.{Snapshot}
use tund.Server.Register.{build_peer_list, peer_list_payload, send_joins, joined, announce}

-- The ten bytes of an ASSIGN.
abbrev pub assign_payload : ℕ → List ℕ
assign_payload vip = (store32 vip ++ store32 (htonl netmask)) ++ store16 (htons tun_mtu)

pub length-assign_payload : (vip : ℕ) → length (assign_payload vip) ≡ 10
unfolding store32 store16
length-assign_payload vip = refl

-- The ASSIGN, from its builder to the socket.
pub assign-Arrives :
    (os : Os) (w : World) (vip : ℕ) (dest : Addr) (k : World) (from : Addr)
    → k.crypto_key ≡ w.crypto_key
    → IsAead os
    → HasEntropy os
    → w.next_sequence < 2 ^ 64
    → let (msg, w1) = build_assign os w vip (htonl netmask) tun_mtu in
      Arrives os w 0 msg_assign (assign_payload vip) dest k from (net_send os w1 msg dest)
unfolding build_assign
assign-Arrives os w vip dest k from key aead entropy small =
    post-Arrives os w 0 msg_assign (assign_payload vip) dest k from
      (build_assign os w vip (htonl netmask) tun_mtu) key aead entropy (omega arith)
      (omega (arith, length-assign_payload vip))
      (build-Built os w msg_assign 10 (assign_payload vip) entropy small (length-assign_payload vip)
        (omega arith))

build_peer_list-Sends :
    (os : Os) (w : World) (old : List ℕ) (entries : List Snapshot)
    → w.next_sequence < 2 ^ 64
    → Sends w (build_peer_list os w old entries).1
unfolding build_peer_list
build_peer_list-Sends os w old entries small =
    write_hdr-Sends os w old msg_peer_list (length (peer_list_payload 0 entries)) small

send_joins-Sends :
    (os : Os) (w : World) (msg : Option (List ℕ)) (ss : List Snapshot)
    → w.next_sequence < 2 ^ 64
    → Sends w (send_joins os w msg ss)
unfolding send_joins
send_joins-Sends os w msg [] small = Sends-refl w small
send_joins-Sends os w msg (s ∷ ss) small =
    let first = net_send-Sends os w msg s.real_addr small in
    Sends-trans first
      (send_joins-Sends os (net_send os w msg s.real_addr).1 msg ss (Sends-small first))

-- What follows the event of a new peer.
after_event-Sends :
    (os : Os) (w : World) (old : List ℕ) (vip : ℕ) (name : List ℕ) (addr : Addr)
    (others : List Snapshot)
    → w.next_sequence < 2 ^ 64
    → let (list, w4) = build_peer_list os w old others in
      let (_, w5) = net_send os w4 (some list) addr in
      let (join, w6) = build_peer_join os w5 vip name in Sends w (send_joins os w6 join others)
unfolding build_peer_join
after_event-Sends os w old vip name addr others small =
    let (list, w4) = build_peer_list os w old others in
    let s4 = build_peer_list-Sends os w old others small in
    let s5 = Sends-trans s4 (net_send-Sends os w4 (some list) addr (Sends-small s4)) in
    let (sent, w5) = net_send os w4 (some list) addr in
    let s6 = Sends-trans s5 (build-Sends os w5 msg_peer_join (4 + name_len) _ (Sends-small s5)) in
    let (join, w6) = build_peer_join os w5 vip name in
    Sends-trans s6 (send_joins-Sends os w6 join others (Sends-small s6))

-- The ASSIGN of a new peer is among what was sent when all has been announced.
pub announce-IsSent :
    (os : Os) (w : World) (vip : ℕ) (name : List ℕ) (dest : Addr) (others : List Snapshot)
    (k : World) (from : Addr) (key : k.crypto_key ≡ w.crypto_key) (aead : IsAead os)
    (entropy : HasEntropy os) (small : w.next_sequence < 2 ^ 64)
    → IsSent
        (record {
          dest = dest;
          wire = (assign-Arrives os w vip dest k from key aead entropy small).wire;
        })
        (announce os w (joined vip name dest others))
unfolding announce
announce-IsSent os w vip name dest others k from key aead entropy small =
    let a = assign-Arrives os w vip dest k from key aead entropy small in
    let (msg, w1) = build_assign os w vip (htonl netmask) tun_mtu in
    let (_, w2) = net_send os w1 msg dest in
    let w3 = record w2 { events = peer_join name vip dest ∷ w2.events } in
    Sends-IsSent (record { dest = dest; wire = a.wire })
      (after_event-Sends os w3 _ vip name dest others (Sends-small a.effects)) (0, a.last)
