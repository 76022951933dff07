-- ===== src/Tun/Darwin.antt =====
-- src/tun/darwin/tun.c and config.c. Log lines are not modelled.
pub mod Laws
pub mod Frames
use tund.Base.{
  ℕ, ◌+◌, ◌-◌, ◌≤◌, bit_and, bit_or, min, Bool, true, false, not, List, [], ◌∷◌, ◌++◌, Option, none,
  some, leb, ltb, ◌==◌, if◌then◌else◌, take, drop, length,
}
use tund.Protocol.Constants.{tun_mtu, max_plaintext}
use tund.Protocol.Bytes.{htonl, store32}
use tund.Protocol.Text.{c_string, char_array}
use tund.Tun.{
  Device, Request, ctl_info, get_ifname, connect, alias_addr, route_add, Kernel, Sys,
  new_descriptor, request, close, configure_mtu,
}

-- With the control socket open: the control is found, unit 0 is connected to, and the name is read.
unfoldable pub create : Kernel → Sys → Device → ℕ → Bool × Device × Sys
create k s dev fd =
    let (found, s1) = request k s (ctl_info fd) in
    if not found
    then (false, dev, close s1 fd)
    else let (connected, s2) = request k s1 (connect fd 0) in
      if not connected
      then (false, dev, close s2 fd)
      else let (named, s3) = request k s2 (get_ifname fd) in
        if not named
        then (false, dev, close s3 fd)
        else (true, record { fd = some fd; ifname = k.if_name s2.calls; mtu = tun_mtu }, s3)

unfoldable pub tun_open : Kernel → Sys → Device → Bool × Device × Sys
unfolding create
tun_open k s dev =
    let (got, s1) = new_descriptor k s in
    elim got [ none ↦ (false, dev, s1) | some fd ↦ create k s1 dev fd ]

-- The address of the other end: the first of the network, or the second where the first is our own.
unfoldable pub other_end : ℕ → ℕ → ℕ
other_end ip mask =
    let net = bit_and (htonl ip) (htonl mask) in
    if ip == htonl (bit_or net 1) then htonl (bit_or net 2) else htonl (bit_or net 1)

-- The result of `fork` and of the program is not looked at.
unfoldable pub add_route : Kernel → Sys → Device → ℕ → ℕ → Sys
add_route k s dev ip mask =
    (request k s (route_add (htonl (bit_and (htonl ip) (htonl mask))) mask dev.ifname)).1

unfoldable pub configure : Kernel → Sys → Device → ℕ → ℕ → ℕ → Bool × Sys
unfolding add_route other_end
configure k s dev ip mask sock =
    let name = char_array 16 (take 15 (c_string dev.ifname)) in
    let (assigned, s1) = request k s (alias_addr sock name ip (other_end ip mask) mask) in
    if not assigned then (false, close s1 sock) else (true, add_route k (close s1 sock) dev ip mask)

unfoldable pub tun_set_ip : Kernel → Sys → Device → ℕ → ℕ → Bool × Sys
unfolding configure
tun_set_ip k s dev ip mask =
    let (got, s1) = new_descriptor k s in
    elim got [ none ↦ (false, s1) | some sock ↦ configure k s1 dev ip mask sock ]

unfoldable pub tun_set_mtu : Kernel → Sys → Device → ℕ → Bool × Device × Sys
unfolding configure_mtu
tun_set_mtu k s dev mtu =
    let (got, s1) = new_descriptor k s in
    elim got [ none ↦ (false, dev, s1) | some sock ↦ configure_mtu k s1 dev mtu sock ]

-- What is left of a frame behind its address family, cut to the buffer.
unfoldable pub payload_of : ℕ → Option (List ℕ) → Option (List ℕ)
payload_of bufsize none = none
payload_of bufsize (some frame) =
    if leb (length frame) 4 then none else some (take bufsize (drop 4 frame))

-- The bytes that arrived; none for a negative result. The frame's array has 1604 bytes.
unfoldable pub tun_read : Kernel → ℕ → ℕ → Option (List ℕ)
unfolding payload_of
tun_read k n bufsize =
    if k.readable n
    then payload_of bufsize (k.read (n + 1) (min (bufsize + 4) (max_plaintext + 4)))
    else some []

-- AF_INET before the packet.
abbrev pub frame_of : List ℕ → List ℕ
frame_of buf = store32 (htonl 2) ++ buf

unfoldable pub tun_write : Kernel → ℕ → List ℕ → Option ℕ
tun_write k n buf =
    if ltb (max_plaintext + 4) (length buf + 4) then none else elim (k.write n (frame_of buf)) [
      | none ↦ none
      | some sent ↦ if leb sent 4 then none else some (sent - 4)
    ]
