-- ===== src/Examples/Network.antt =====
-- Runs of the theorems that join the server, the network and the client.
use tund.Base.{
  [], ◌∷◌, false, none, some, ◌≡◌, refl, arith, replicate, get_elem?, get_elem?-set_cases, set,
  true, inl, inr, ℕ,
}
use tund.World.{World, Addr}
use tund.Peers.{Peer, empty_peer, find_index}
use tund.Peers.Table.{Holds}
use tund.Protocol.Ipv4.{ok, validate_ipv4_packet, validate_addresses, get_src_ip, get_dst_ip}
use tund.Protocol.Bytes.{htonl, load32, read_u16_be}
use tund.Server.State.{Server, server_init_table, find_peer_by_addr}
use tund.Server.Register.{handle_register}
use tund.Server.Invariant.{IsValid, InPool, enter-IsValid}
use tund.Server.Threads.{server_init_table-IsValid, not-Holds_empty}
use tund.Server.Data.{handle_data}
use tund.Client.Register.{Flags}
use tund.Examples.{
  plain_os, plain_os-IsAead, plain_os-HasEntropy, first_world, alice_addr, small_packet, alice,
}
use tund.Examples.Client.{newcomer}
use tund.Join.{Joins, handle_register-Joins}
use tund.Relay.{Relays, handle_data-Relays}

unregistered : find_peer_by_addr server_init_table.peers alice_addr ≡ none
unfolding find_peer_by_addr find_index server_init_table
unregistered = refl

first_slot : get_elem? server_init_table.peers 0 ≡ some empty_peer
unfolding server_init_table
first_slot = refl

abbrev flags : Flags
flags = record { auth = false; mismatch = false; bad = false; reply = false }

handle_register-Joins_example :
    Joins plain_os first_world newcomer flags alice_addr
      (handle_register plain_os first_world server_init_table (97 ∷ []) 1 alice_addr 7 50)
handle_register-Joins_example =
    handle_register-Joins plain_os first_world server_init_table (97 ∷ []) 1 alice_addr 7 50
      first_world newcomer flags 0 empty_peer plain_os-IsAead plain_os-HasEntropy (omega arith) refl
      server_init_table-IsValid unregistered first_slot refl refl

abbrev bob_addr : Addr
bob_addr = record { family = 2; ip = 200; port = 6000 }

-- alice in the first slot and bob, with 10.9.0.3, in the second.
abbrev pub bob : Peer
bob = record empty_peer {
  active = true;
  virt_ip = 0x0300090A;
  real_addr = record { family = 2; ip = 200; port = 6000 };
}

abbrev pub alice_only : Server
alice_only = record { peers = set (replicate 253 empty_peer) 0 alice; peer_count = 1 }

abbrev pub both : Server
both = record { peers = set alice_only.peers 1 bob; peer_count = 2 }

abbrev nobody : Server
nobody = record { peers = replicate 253 empty_peer; peer_count = 0 }

nobody-IsValid : IsValid nobody
unfolding server_init_table
nobody-IsValid = server_init_table-IsValid

alice-InPool : InPool alice
unfolding htonl
alice-InPool = omega arith

bob-InPool : InPool bob
unfolding htonl
bob-InPool = omega arith

alice_only-IsValid : IsValid alice_only
alice_only-IsValid =
    enter-IsValid nobody 0 empty_peer alice nobody-IsValid refl refl refl alice-InPool
      (λ j q h. absurd (not-Holds_empty 253 j q h)) (λ j q h. absurd (not-Holds_empty 253 j q h))

only_alice : (j : ℕ) (q : Peer) → Holds alice_only.peers j q → q ≡ alice
only_alice j q h = elim (get_elem?-set_cases (replicate 253 empty_peer) 0 j alice h.0) [
  | inl (same, e) ↦ e
  | inr (ne, old) ↦ absurd (not-Holds_empty 253 j q (old, h.1))
]

pub both-IsValid : IsValid both
both-IsValid =
    enter-IsValid alice_only 1 empty_peer bob alice_only-IsValid refl refl refl bob-InPool
      (λ j q h e. absurd (ground (arith, only_alice j q h)))
      (λ j q h e. absurd (ground (arith, only_alice j q h)))

abbrev pub second_world : World
second_world = record first_world { next_sequence = 5 }

small_packet-valid : validate_ipv4_packet small_packet 20 ≡ ok
unfolding validate_ipv4_packet validate_addresses get_src_ip get_dst_ip load32 read_u16_be htonl
small_packet-valid = refl

small_packet_from : alice.virt_ip ≡ get_src_ip small_packet 20
unfolding get_src_ip load32
small_packet_from = refl

small_packet_to : bob.virt_ip ≡ get_dst_ip small_packet 20
unfolding get_dst_ip load32
small_packet_to = refl

handle_data-Relays_example :
    Relays plain_os first_world newcomer small_packet bob.real_addr newcomer.server_addr 60 60000
      (handle_data plain_os second_world both small_packet 20 alice_addr).1
handle_data-Relays_example =
    handle_data-Relays plain_os second_world both 0 1 alice bob small_packet alice_addr first_world
      newcomer 60 60000 plain_os-IsAead plain_os-HasEntropy (omega arith) refl (omega arith)
      both-IsValid (refl, refl) (refl, refl) refl refl small_packet_from small_packet_to
      (omega arith) small_packet-valid
