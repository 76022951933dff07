-- ===== src/Tun/Windows/Sessions.antt =====
-- Adapters and sessions that come and go.
use tund.Base.{
  ℕ, zero, suc, ◌+◌, Bool, true, false, List, ◌∷◌, Option, none, some, ◌≡◌, refl, ap, ◌∙◌, arith,
  inl, inr, Bool-cases, Option-cases, take,
}
use tund.Protocol.Text.{char_array}
use tund.Tun.Descriptors.{without-head}
use tund.Tun.Windows.{
  Device, Windows, WinSys, called, load_symbols, wintun_load, hold, drop_handle, find_adapter,
  opened_device, start, tun_open, close_handle, tun_close, converted_name, name_or_fallback,
  fallback_name,
}

-- A device with an open adapter and an open session above it, under the name that stands for none;
-- or nothing more open than before, and no handle in the device.
pub data Opens (s : WinSys) (r : Bool × Device × WinSys) : Type 0 where
  fails : r.0 ≡ false → r.1.adapter ≡ none → r.1.session ≡ none → r.2.opened ≡ s.opened → Opens s r
  opens :
      (adapter session : ℕ)
      → r.0 ≡ true
      → r.1.adapter ≡ some adapter
      → r.1.session ≡ some session
      → r.1.ifname ≡ char_array 32 fallback_name
      → r.2.opened ≡ session ∷ adapter ∷ s.opened
      → Opens s r

load_symbols-opened :
    (k : Windows) (s : WinSys) (left : ℕ) → (load_symbols k s left).1.opened ≡ s.opened
unfolding load_symbols
load_symbols-opened k s zero = refl
load_symbols-opened k s (suc left) = elim (Bool-cases (k.has_symbol s.calls left)) [
  | inl there ↦ rw (there, load_symbols) (load_symbols-opened k (called s) left)
  | inr missing ↦ rw (missing, load_symbols) refl
]

wintun_load-opened : (k : Windows) (s : WinSys) → (wintun_load k s).1.opened ≡ s.opened
unfolding wintun_load
wintun_load-opened k s = elim (Bool-cases s.loaded) [
  | inl already ↦ rw (already, wintun_load) refl
  | inr first ↦ elim (Bool-cases (k.load_library s.calls)) [
    | inl found ↦ rw (first, found, wintun_load) (load_symbols-opened k _ 11)
    | inr missing ↦ rw (first, missing, wintun_load) refl
  ]
]

-- A handle, open, or none and nothing open.
data Held (s : WinSys) (r : Option ℕ × WinSys) : Type 0 where
  nothing : r.0 ≡ none → r.1.opened ≡ s.opened → Held s r
  handle : (h : ℕ) → r.0 ≡ some h → r.1.opened ≡ h ∷ s.opened → Held s r

hold-Held : (s : WinSys) (o : Option ℕ) → Held s (hold s o)
unfolding hold
hold-Held s none = nothing refl refl
hold-Held s (some h) = handle h refl refl

called-Held : (s : WinSys) (r : Option ℕ × WinSys) → Held (called s) r → Held s r
called-Held s r (nothing e o) = nothing e o
called-Held s r (handle h e o) = handle h e o

find_adapter-Held : (k : Windows) (s : WinSys) → Held s (find_adapter k s)
unfolding find_adapter
find_adapter-Held k s = elim (Option-cases (k.open_adapter s.calls)) [
  | inl missing ↦
      rw (missing, find_adapter)
        (called-Held s _ (hold-Held (called s) (k.create_adapter (s.calls + 1))))
  | inr (h, found) ↦ rw (found, find_adapter) (hold-Held s (some h))
]

-- The name that the device gets, whatever Windows calls it.
no_name : (o : Option (List ℕ)) → name_or_fallback (converted_name o) ≡ fallback_name
unfolding converted_name name_or_fallback
no_name none = refl
no_name (some name) = refl

with_event :
    (k : Windows) (s t : WinSys) (dev : Device) (adapter session : ℕ) (event : Option ℕ)
    → s.opened ≡ session ∷ adapter ∷ t.opened
    → dev.adapter ≡ none
    → dev.session ≡ none
    → Opens t (elim event as (λ _. Bool × Device × WinSys) [
      | none ↦ (false, dev, drop_handle (drop_handle (called s) session) adapter)
      | some e ↦ let (dev', s2) = opened_device k (called s) adapter session e in (true, dev', s2)
    ])
unfolding opened_device
with_event k s t dev adapter session none held clear bare =
    fails refl clear bare
      (ground (arith, without-head session (adapter ∷ t.opened), without-head adapter t.opened))
with_event k s t dev adapter session (some e) held clear bare =
    opens adapter session refl refl refl
      (ap (λ n. char_array 32 (take 31 n)) (no_name (k.luid_name (s.calls + 1 + 1)))) held

start-Opens :
    (k : Windows) (s t : WinSys) (dev : Device) (adapter : ℕ)
    → s.opened ≡ adapter ∷ t.opened
    → dev.adapter ≡ none
    → dev.session ≡ none
    → Opens t (start k s dev adapter)
unfolding start
start-Opens k s t dev adapter held clear bare = by_session (hold-Held s (k.start_session s.calls))
  where
    by_session : Held s (hold s (k.start_session s.calls)) → Opens t (start k s dev adapter)
    by_session (nothing refused still) =
        rw (refused, start) (fails refl clear bare (ground (arith, without-head adapter t.opened)))
    by_session (handle h started above) =
        rw (started, start)
          (with_event k (hold s (k.start_session s.calls)).1 t dev adapter h
            (k.read_event (hold s (k.start_session s.calls)).1.calls) (above ∙ ap (λ l. h ∷ l) held)
            clear bare)

-- What was opened is closed again.
tun_close-opened :
    (s : WinSys) (r : Bool × Device × WinSys) → Opens s r → (tun_close r.2 r.1).opened ≡ s.opened
unfolding tun_close close_handle
tun_close-opened s r (fails e no_adapter no_session same) =
    ap (λ o. (close_handle (close_handle r.2 o) r.1.adapter).opened) no_session
    ∙ ap (λ o. (close_handle r.2 o).opened) no_adapter
    ∙ same
tun_close-opened s r (opens adapter session e some_adapter some_session name held) =
    ap (λ o. (close_handle (close_handle r.2 o) r.1.adapter).opened) some_session
    ∙ ap (λ o. (close_handle (close_handle r.2 (some session)) o).opened) some_adapter
    ∙ ground (arith, without-head session (adapter ∷ s.opened), without-head adapter s.opened)

-- A state in which the same is open.
Opens-moved :
    (s t : WinSys) (r : Bool × Device × WinSys) → s.opened ≡ t.opened → Opens s r → Opens t r
Opens-moved s t r same (fails e a b o) = fails e a b (o ∙ same)
Opens-moved s t r same (opens adapter session e a b n o) =
    opens adapter session e a b n (o ∙ ap (λ l. session ∷ adapter ∷ l) same)

tun_open-lem : (k : Windows) (s : WinSys) (dev : Device) → Opens s (tun_open k s dev)
unfolding tun_open
tun_open-lem k s dev = elim (Bool-cases (wintun_load k s).0) [
  | inl loaded ↦ by_adapter loaded (find_adapter-Held k (wintun_load k s).1)
  | inr unloaded ↦ rw (unloaded, tun_open) (fails refl refl refl (wintun_load-opened k s))
]
  where
    by_adapter :
        (wintun_load k s).0 ≡ true
        → Held (wintun_load k s).1 (find_adapter k (wintun_load k s).1)
        → Opens s (tun_open k s dev)
    by_adapter loaded (nothing missing still) =
        rw (loaded, tun_open)
          (rw (missing, tun_open) (fails refl refl refl (still ∙ wintun_load-opened k s)))
    by_adapter loaded (handle h found above) =
        rw (loaded, tun_open)
          (rw (found, tun_open)
            (start-Opens k (find_adapter k (wintun_load k s).1).1 s _ h
              (above ∙ ap (λ l. h ∷ l) (wintun_load-opened k s)) refl refl))

-- On Windows, tun_open either fails, and then nothing more is open than before and the device has
-- no handle; or it succeeds with the session open above the adapter, and the device is then called
-- tund, whatever name Windows gives the interface. In both cases tun_close leaves open just what
-- was open before.
pub tun_open-Opens :
    (k : Windows) (s : WinSys) (dev : Device)
    → Opens s (tun_open k s dev)
      × ((tun_close (tun_open k s dev).2 (tun_open k s dev).1).opened ≡ s.opened)
tun_open-Opens k s dev =
    let o = tun_open-lem k s dev in (o, tun_close-opened s (tun_open k s dev) o)
