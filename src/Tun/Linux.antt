-- ===== src/Tun/Linux.antt =====
-- src/tun/linux/tun.c. Log lines are not modelled.
pub mod Laws
use tund.Base.{
  ℕ, ◌+◌, bit_or, Bool, true, false, not, List, [], ◌∷◌, Option, none, some, if◌then◌else◌, take,
}
use tund.Protocol.Constants.{tun_mtu}
use tund.Protocol.Text.{c_string, char_array}
use tund.Tun.{
  Device, Request, tunsetiff, set_if_addr, set_if_netmask, get_if_flags, set_if_flags, set_if_mtu,
  Kernel, Sys, new_descriptor, request, close, ifr_name, configure_mtu,
}

-- "tund%d"
abbrev pub name_pattern : List ℕ
name_pattern = b't' ∷ b'u' ∷ b'n' ∷ b'd' ∷ b'%' ∷ b'd' ∷ []

-- IFF_TUN | IFF_NO_PI
abbrev pub tun_flags : ℕ
tun_flags = 0x1001

-- IFF_UP | IFF_RUNNING
abbrev pub up_flags : ℕ
up_flags = 0x41

-- With /dev/net/tun open.
unfoldable pub create : Kernel → Sys → Device → ℕ → Bool × Device × Sys
create k s dev fd =
    let (made, s1) = request k s (tunsetiff fd (ifr_name name_pattern) tun_flags) in
    if not made then (false, dev, close s1 fd) else (
      true,
      record {
        fd = some fd;
        ifname = char_array 32 (take 31 (c_string (k.if_name s.calls)));
        mtu = tun_mtu;
      },
      s1,
    )

unfoldable pub tun_open : Kernel → Sys → Device → Bool × Device × Sys
unfolding create
tun_open k s dev =
    let (got, s1) = new_descriptor k s in
    elim got [ none ↦ (false, dev, s1) | some fd ↦ create k s1 dev fd ]

-- The last of the requests on the socket: the interface is switched on.
unfoldable pub switch_on : Kernel → Sys → ℕ → List ℕ → Bool × Sys
switch_on k s sock name =
    let (read, s1) = request k s (get_if_flags sock name) in
    if not read
    then (false, close s1 sock)
    else let (set, s2) =
        request k s1 (set_if_flags sock name (bit_or (k.if_flags s.calls) up_flags)) in
      (set, close s2 sock)

-- AF_INET is 2.
unfoldable pub configure : Kernel → Sys → ℕ → List ℕ → ℕ → ℕ → Bool × Sys
unfolding switch_on
configure k s sock name ip mask =
    let (addressed, s1) = request k s (set_if_addr sock name 2 ip) in
    if not addressed
    then (false, close s1 sock)
    else let (masked, s2) = request k s1 (set_if_netmask sock name 2 mask) in
      if not masked then (false, close s2 sock) else switch_on k s2 sock name

unfoldable pub tun_set_ip : Kernel → Sys → Device → ℕ → ℕ → Bool × Sys
unfolding configure
tun_set_ip k s dev ip mask =
    let (got, s1) = new_descriptor k s in
    elim got [ none ↦ (false, s1) | some sock ↦ configure k s1 sock (ifr_name dev.ifname) ip mask ]

unfoldable pub tun_set_mtu : Kernel → Sys → Device → ℕ → Bool × Device × Sys
unfolding configure_mtu
tun_set_mtu k s dev mtu =
    let (got, s1) = new_descriptor k s in
    elim got [ none ↦ (false, dev, s1) | some sock ↦ configure_mtu k s1 dev mtu sock ]

-- The bytes that arrived; none for a negative result.
unfoldable pub tun_read : Kernel → ℕ → ℕ → Option (List ℕ)
tun_read k n bufsize = if k.readable n then k.read (n + 1) bufsize else some []

unfoldable pub tun_write : Kernel → ℕ → List ℕ → Option ℕ
tun_write k n buf = k.write n buf
