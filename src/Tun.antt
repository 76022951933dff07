-- ===== src/Tun.antt =====
-- TUN devices: `tun_device_t` of src/tun/tun.h as the two Unix systems use it, and what its drivers
-- ask the kernel for. The kernel's answers are a parameter.
pub mod Linux
pub mod Darwin
pub mod Windows
pub mod Driver
pub mod Descriptors
use tund.Base.{
  ℕ, ◌+◌, Bool, List, [], ◌∷◌, Option, none, some, ◌==◌, if◌then◌else◌, true, false, not, take,
}
use tund.Protocol.Text.{c_string, char_array}

-- `tun_device_t` without the Windows fields. `fd` is none where the source has -1.
pub record Device : Type 0 where
  pub fd : Option ℕ
  pub ifname : List ℕ
  pub mtu : ℕ

-- What was asked of the kernel. The first number is the descriptor, where the call has one.
pub data Request : Type 0 where
  -- TUNSETIFF with the name pattern and the flags
  tunsetiff : ℕ → List ℕ → ℕ → Request
  -- SIOCSIFADDR, SIOCSIFNETMASK: a name, a family and an address
  set_if_addr set_if_netmask : ℕ → List ℕ → ℕ → ℕ → Request
  get_if_flags : ℕ → List ℕ → Request
  set_if_flags : ℕ → List ℕ → ℕ → Request
  set_if_mtu : ℕ → List ℕ → ℕ → Request
  -- CTLIOCGINFO, the connection to a control unit, and UTUN_OPT_IFNAME
  ctl_info get_ifname : ℕ → Request
  connect : ℕ → ℕ → Request
  -- SIOCAIFADDR: a name, its address, the other end's and the mask
  alias_addr : ℕ → List ℕ → ℕ → ℕ → ℕ → Request
  -- the program `route add -net`: a network, a mask and an interface
  route_add : ℕ → ℕ → List ℕ → Request
  -- SO_REUSEADDR, and `bind` to a port
  reuse_addr : ℕ → Request
  bind : ℕ → ℕ → Request

-- The kernel's answer to its n-th call.
pub record Kernel : Type 0 where
  -- `open` and `socket`: a descriptor, or none where the call fails
  pub descriptor : ℕ → Option ℕ
  -- whether a request succeeds
  pub succeeds : ℕ → Bool
  -- the name that TUNSETIFF or UTUN_OPT_IFNAME writes, and the flags that SIOCGIFFLAGS reads
  pub if_name : ℕ → List ℕ
  pub if_flags : ℕ → ℕ
  -- whether `poll` finds the descriptor readable within its time
  pub readable : ℕ → Bool
  -- `read` of at most so many bytes and `write`; none where they return -1
  pub read : ℕ → ℕ → Option (List ℕ)
  pub write : ℕ → List ℕ → Option ℕ

-- The number of calls made, the open descriptors, the latest first, and the requests that
-- succeeded, the latest first.
pub record Sys : Type 0 where
  pub calls : ℕ
  pub opened : List ℕ
  pub performed : List Request

-- `open` or `socket`.
unfoldable pub new_descriptor : Kernel → Sys → Option ℕ × Sys
new_descriptor k s = elim (k.descriptor s.calls) [
  | none ↦ (none, record s { calls = s.calls + 1 })
  | some fd ↦ (some fd, record s { calls = s.calls + 1; opened = fd ∷ s.opened })
]

-- `ioctl`, `connect`, `getsockopt` or `bind`.
abbrev pub request : Kernel → Sys → Request → Bool × Sys
request k s r = (
  k.succeeds s.calls,
  record s {
    calls = s.calls + 1;
    performed = if k.succeeds s.calls then r ∷ s.performed else s.performed;
  },
)

unfoldable pub without : ℕ → List ℕ → List ℕ
without fd [] = []
without fd (x ∷ xs) = let rest = without fd xs in if x == fd then xs else x ∷ rest

-- `close`.
abbrev pub close : Sys → ℕ → Sys
close s fd = record s { opened = without fd s.opened }

-- `tun_close` of src/tun/linux/tun.c and src/tun/darwin/tun.c.
unfoldable pub tun_close : Sys → Device → Device × Sys
tun_close s dev = elim dev.fd [ none ↦ (dev, s) | some fd ↦ (record dev { fd = none }, close s fd) ]

-- `strncpy` into `ifr_name`, of IFNAMSIZ bytes, without a NUL where the name fills it.
abbrev pub ifr_name : List ℕ → List ℕ
ifr_name name = char_array 16 (take 16 (c_string name))

-- On a socket, as both Unix drivers do it.
unfoldable pub configure_mtu : Kernel → Sys → Device → ℕ → ℕ → Bool × Device × Sys
configure_mtu k s dev mtu sock =
    let (set, s1) = request k s (set_if_mtu sock (ifr_name dev.ifname) mtu) in
    if not set then (false, dev, close s1 sock) else (true, record dev { mtu = mtu }, close s1 sock)
