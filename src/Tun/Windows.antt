-- ===== src/Tun/Windows.antt =====
-- src/tun/windows: wintun_loader.c, and the opening and closing of tun.c. The driver's library, the
-- adapter and the session are Windows' own: what their calls give is a parameter.
pub mod Network
pub mod Sessions
pub mod Waits
use tund.Base.{
  ℕ, zero, suc, ◌+◌, Bool, true, false, not, List, [], ◌∷◌, Option, none, some, if◌then◌else◌, take,
}
use tund.Protocol.Constants.{tun_mtu}
use tund.Protocol.Text.{c_string, char_array}
use tund.Tun.{without}

-- `tun_device_t` on Windows; a handle that is NULL is none.
pub record Device : Type 0 where
  pub adapter : Option ℕ
  pub session : Option ℕ
  pub read_event : Option ℕ
  pub luid : Option ℕ
  pub ifname : List ℕ
  pub mtu : ℕ

-- A row of the table of addresses, and one of the table of routes.
pub record AddressRow : Type 0 where
  pub luid : ℕ
  pub family : ℕ
  pub address : ℕ
  pub prefix : ℕ

-- What is asked of netsh.
pub data Command : Type 0 where
  set_address : List ℕ → ℕ → ℕ → Command
  set_subinterface : List ℕ → ℕ → Command

-- What Windows gives at its n-th call.
pub record Windows : Type 0 where
  pub load_library : ℕ → Bool
  -- GetProcAddress of the symbol of that number
  pub has_symbol : ℕ → ℕ → Bool
  pub open_adapter : ℕ → Option ℕ
  pub create_adapter : ℕ → Option ℕ
  pub start_session : ℕ → Option ℕ
  pub read_event : ℕ → Option ℕ
  pub adapter_luid : ℕ → ℕ
  -- ConvertInterfaceLuidToNameW: the name where it returns NO_ERROR, which is 0, and none else
  pub luid_name : ℕ → Option (List ℕ)
  pub address_table : ℕ → Option (List AddressRow)
  pub route_table : ℕ → Option (List AddressRow)
  -- CreateIpForwardEntry2: whether the route is there then
  pub create_route : ℕ → Bool
  pub interface_mtu : ℕ → Option ℕ
  -- `run_cmd` with netsh
  pub netsh : ℕ → Command → Bool

-- The number of calls, the handles of adapters and sessions that are open, the latest first, and
-- whether `g_wintun_dll` is set.
pub record WinSys : Type 0 where
  pub calls : ℕ
  pub opened : List ℕ
  pub loaded : Bool

abbrev pub called : WinSys → WinSys
called s = record s { calls = s.calls + 1 }

-- The run of WINTUN_LOAD over the symbols that are left.
unfoldable pub load_symbols : Windows → WinSys → ℕ → Bool × WinSys
load_symbols k s zero = (true, s)
load_symbols k s (suc left) =
    let (rest, s') = load_symbols k (called s) left in
    if not (k.has_symbol s.calls left) then (false, called s) else (rest, s')

-- There are eleven symbols.
unfoldable pub wintun_load : Windows → WinSys → Bool × WinSys
unfolding load_symbols
wintun_load k s =
    if s.loaded
    then (true, s)
    else if not (k.load_library s.calls)
    then (false, called s)
    else load_symbols k (record (called s) { loaded = true }) 11

-- A handle that is open.
unfoldable pub hold : WinSys → Option ℕ → Option ℕ × WinSys
hold s none = (none, called s)
hold s (some h) = (some h, record (called s) { opened = h ∷ s.opened })

abbrev pub drop_handle : WinSys → ℕ → WinSys
drop_handle s h = record s { opened = without h s.opened }

-- An adapter of that name, opened or created.
unfoldable pub find_adapter : Windows → WinSys → Option ℕ × WinSys
unfolding hold
find_adapter k s = elim (k.open_adapter s.calls) [
  | some h ↦ hold s (some h)
  | none ↦ hold (called s) (k.create_adapter (s.calls + 1))
]

-- "tund"
abbrev pub fallback_name : List ℕ
fallback_name = b't' ∷ b'u' ∷ b'n' ∷ b'd' ∷ []

-- `ifname_a`: a name is converted where the call for it returns what is not 0, and the buffer of a
-- call that failed is empty.
unfoldable pub converted_name : Option (List ℕ) → List ℕ
converted_name none = []
converted_name (some name) = []

unfoldable pub name_or_fallback : List ℕ → List ℕ
name_or_fallback [] = fallback_name
name_or_fallback (c ∷ cs) = c ∷ cs

unfoldable pub opened_device : Windows → WinSys → ℕ → ℕ → ℕ → Device × WinSys
unfolding converted_name name_or_fallback
opened_device k s adapter session event = (
  record {
    adapter = some adapter;
    session = some session;
    read_event = some event;
    luid = some (k.adapter_luid s.calls);
    ifname =
        char_array 32 (take 31 (name_or_fallback (converted_name (k.luid_name (s.calls + 1)))));
    mtu = tun_mtu;
  },
  called (called s),
)

-- With an adapter.
unfoldable pub start : Windows → WinSys → Device → ℕ → Bool × Device × WinSys
unfolding hold opened_device
start k s dev adapter =
    let (session, s1) = hold s (k.start_session s.calls) in
    elim session [
      | none ↦ (false, dev, drop_handle s1 adapter)
      | some h ↦ elim (k.read_event s1.calls) [
        | none ↦ (false, dev, drop_handle (drop_handle (called s1) h) adapter)
        | some event ↦
            let (dev', s2) = opened_device k (called s1) adapter h event in (true, dev', s2)
      ]
    ]

unfoldable pub tun_open : Windows → WinSys → Device → Bool × Device × WinSys
unfolding wintun_load find_adapter start
tun_open k s dev =
    let dev0 = record dev { adapter = none; session = none; read_event = none; luid = none } in
    let (loaded, s1) = wintun_load k s in
    let (adapter, s2) = find_adapter k s1 in
    if not loaded
    then (false, dev0, s1)
    else elim adapter [ none ↦ (false, dev0, s2) | some h ↦ start k s2 dev0 h ]

unfoldable pub close_handle : WinSys → Option ℕ → WinSys
close_handle s none = s
close_handle s (some h) = drop_handle s h

-- The session ends first; the device keeps its handles.
unfoldable pub tun_close : WinSys → Device → WinSys
unfolding close_handle
tun_close s dev = close_handle (close_handle s dev.session) dev.adapter
