-- ===== src/Tun/Windows/Network.antt =====
-- src/tun/windows/config.c. The texts of the commands and the log are not modelled.
use tund.Base.{
  ℕ, zero, suc, ◌+◌, ◌*◌, ◌/◌, ◌%◌, ◌^◌, bit_and, Bool, true, false, not, ◌&&◌, ◌||◌, List, [], ◌∷◌,
  Option, none, some, ◌==◌, if◌then◌else◌,
}
use tund.Protocol.Bytes.{htonl}
use tund.Tun.Windows.{Device, AddressRow, set_address, set_subinterface, Windows, WinSys, called}

-- The loop of `prefix_len_from_netmask`, over the bits that are left.
unfoldable pub leading_ones : ℕ → ℕ → ℕ
leading_ones zero mask = 0
leading_ones (suc left) mask =
    let rest = leading_ones left (mask * 2 % 2 ^ 32) in
    if mask / 2 ^ 31 % 2 == 1 then suc rest else 0

unfoldable pub prefix_len_from_netmask : ℕ → ℕ
unfolding leading_ones
prefix_len_from_netmask mask = leading_ones 32 (htonl mask)

-- A row of the interface for an IPv4 address and a prefix.
abbrev pub matches : ℕ → ℕ → ℕ → AddressRow → Bool
matches luid address prefix row =
    (row.luid == luid) && (row.family == 2) && (row.address == address) && (row.prefix == prefix)

unfoldable pub any_row : ℕ → ℕ → ℕ → List AddressRow → Bool
any_row luid address prefix [] = false
any_row luid address prefix (row ∷ rows) =
    matches luid address prefix row || any_row luid address prefix rows

unfoldable pub in_table : Device → Option (List AddressRow) → ℕ → ℕ → Bool
unfolding any_row prefix_len_from_netmask
in_table dev table address mask = elim dev.luid [
  | none ↦ false
  | some luid ↦ elim table [
    | none ↦ false
    | some rows ↦ any_row luid address (prefix_len_from_netmask mask) rows
  ]
]

-- `windows_ip_config_applied` and `windows_route_applied` at the n-th call.
unfoldable pub ip_applied : Windows → Device → ℕ → ℕ → ℕ → Bool
unfolding in_table
ip_applied k dev ip mask n = in_table dev (k.address_table n) ip mask

unfoldable pub route_applied : Windows → Device → ℕ → ℕ → ℕ → Bool
unfolding in_table
route_applied k dev network mask n = in_table dev (k.route_table n) network mask

unfoldable pub mtu_applied : Windows → Device → ℕ → ℕ → Bool
mtu_applied k dev mtu n = elim dev.luid [
  | none ↦ false
  | some luid ↦ elim (k.interface_mtu n) [ none ↦ false | some m ↦ m == mtu ]
]

-- `wait_for_ip`, `wait_for_route` and `wait_for_mtu`: a test that is made again after a while, so
-- many times.
unfoldable pub wait_for : (ℕ → Bool) → WinSys → ℕ → Bool × WinSys
wait_for test s zero = (false, s)
wait_for test s (suc left) =
    let (found, s') = wait_for test (called s) left in
    if test s.calls then (true, called s) else (found, s')

-- The network of an address.
abbrev pub network_of : ℕ → ℕ → ℕ
network_of ip mask = htonl (bit_and (htonl ip) (htonl mask))

-- The route is there, or it is added.
unfoldable pub ensure_route : Windows → WinSys → Device → ℕ → ℕ → Bool × WinSys
unfolding route_applied
ensure_route k s dev network mask =
    if route_applied k dev network mask s.calls then (true, called s) else elim dev.luid [
      | none ↦ (false, called s)
      | some luid ↦ (k.create_route (s.calls + 1), called (called s))
    ]

unfoldable pub set_route : Windows → WinSys → Device → ℕ → ℕ → Bool × WinSys
unfolding ensure_route wait_for route_applied
set_route k s dev network mask =
    let (there, s1) = ensure_route k s dev network mask in
    if not there then (false, s1) else wait_for (route_applied k dev network mask) s1 20

unfoldable pub tun_set_ip : Windows → WinSys → Device → ℕ → ℕ → Bool × WinSys
unfolding set_route wait_for ip_applied
tun_set_ip k s dev ip mask =
    if not (k.netsh s.calls (set_address dev.ifname ip mask))
    then (false, called s)
    else let (shown, s1) = wait_for (ip_applied k dev ip mask) (called s) 20 in
      if not shown then (false, s1) else set_route k s1 dev (network_of ip mask) mask

unfoldable pub tun_set_mtu : Windows → WinSys → Device → ℕ → Bool × Device × WinSys
unfolding wait_for mtu_applied
tun_set_mtu k s dev mtu =
    if not (k.netsh s.calls (set_subinterface dev.ifname mtu))
    then (false, dev, called s)
    else let (shown, s1) = wait_for (mtu_applied k dev mtu) (called s) 20 in
      if not shown then (false, dev, s1) else (true, record dev { mtu = mtu }, s1)
