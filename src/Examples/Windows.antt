-- ===== src/Examples/Windows.antt =====
-- Runs of the theorems on the Windows driver.
use tund.Base.{ℕ, ◌-◌, ◌^◌, true, false, [], ◌∷◌, none, some, ◌≡◌, refl, arith}
use tund.Protocol.Bytes.{htonl}
use tund.Tun.Windows.{Device, Windows, WinSys, set_address, tun_open, tun_close}
use tund.Tun.Windows.Sessions.{Opens, tun_open-Opens}
use tund.Tun.Windows.Network.{
  tun_set_ip, wait_for, set_route, ensure_route, ip_applied, route_applied, in_table, any_row,
  prefix_len_from_netmask, leading_ones, network_of,
}
use tund.Tun.Windows.Waits.{tun_set_ip-applied, prefix_len_from_netmask-mask}

-- 10.9.0.1, 255.255.255.0 and 10.9.0.0, in network byte order.
abbrev ip : ℕ
ip = 0x0100090A

abbrev mask : ℕ
mask = 0x00FFFFFF

abbrev network : ℕ
network = 0x0000090A

-- Every call succeeds at once.
abbrev windows : Windows
windows = record {
  load_library = λ n. true;
  has_symbol = λ n symbol. true;
  open_adapter = λ n. none;
  create_adapter = λ n. some 7;
  start_session = λ n. some 8;
  read_event = λ n. some 9;
  adapter_luid = λ n. 5;
  luid_name = λ n. some (b't' ∷ b'u' ∷ b'n' ∷ b'_' ∷ b'1' ∷ []);
  address_table = λ n. some (record { luid = 5; family = 2; address = ip; prefix = 24 } ∷ []);
  route_table = λ n. some (record { luid = 5; family = 2; address = network; prefix = 24 } ∷ []);
  create_route = λ n. true;
  interface_mtu = λ n. some 1400;
  netsh = λ n command. true;
}

abbrev boot : WinSys
boot = record { calls = 0; opened = []; loaded = false }

abbrev closed : Device
closed = record {
  adapter = none;
  session = none;
  read_event = none;
  luid = none;
  ifname = [];
  mtu = 0;
}

tun_open-Opens_example :
    Opens boot (tun_open windows boot closed)
    × ((tun_close (tun_open windows boot closed).2 (tun_open windows boot closed).1).opened ≡ [])
tun_open-Opens_example = tun_open-Opens windows boot closed

abbrev device : Device
device = record closed { luid = some 5 }

configured : (tun_set_ip windows boot device ip mask).0 ≡ true
unfolding tun_set_ip wait_for set_route ensure_route ip_applied route_applied in_table any_row
    prefix_len_from_netmask leading_ones htonl
configured = refl

tun_set_ip-applied_example :
    (windows.netsh 0 (set_address [] ip mask) ≡ true)
    × ((n : ℕ) × (ip_applied windows device ip mask n ≡ true))
    × ((m : ℕ) × (route_applied windows device (network_of ip mask) mask m ≡ true))
tun_set_ip-applied_example = tun_set_ip-applied windows boot device ip mask configured

prefix_len_from_netmask-mask_example : prefix_len_from_netmask (htonl (2 ^ 32 - 2 ^ (32 - 24))) ≡ 24
prefix_len_from_netmask-mask_example = prefix_len_from_netmask-mask 24 (omega arith)
