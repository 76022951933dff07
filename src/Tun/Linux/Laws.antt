-- ===== src/Tun/Linux/Laws.antt =====
-- What the Linux driver promises.
use tund.Base.{
  ℕ, ◌+◌, bit_or, true, false, List, [], ◌∷◌, ◌++◌, ◌⊎◌, ◌&&◌, some, ◌≡◌, refl, arith, inl, inr,
  Bool-cases, Option-cases,
}
use tund.Tun.{
  Device, Request, set_if_addr, set_if_netmask, get_if_flags, set_if_flags, Kernel, Sys, ifr_name,
}
use tund.Tun.Descriptors.{
  new_descriptor-none, new_descriptor-some, without-head, configure_mtu-opened,
}
use tund.Tun.Driver.{Opens, fails, opens, Driver}
use tund.Tun.Linux.{up_flags, create, tun_open, switch_on, configure, tun_set_ip, tun_set_mtu}

create-Opens :
    (k : Kernel) (s t : Sys) (dev : Device) (fd : ℕ)
    → s.opened ≡ fd ∷ t.opened
    → Opens t dev (create k s dev fd)
unfolding create
create-Opens k s t dev fd held = elim (Bool-cases (k.succeeds s.calls)) [
  | inl made ↦ rw (made, create) (opens fd refl refl held)
  | inr refused ↦ rw (refused, create) (fails refl refl (ground (arith, without-head fd t.opened)))
]

pub tun_open-Opens : (k : Kernel) (s : Sys) (dev : Device) → Opens s dev (tun_open k s dev)
unfolding tun_open
tun_open-Opens k s dev = elim (Option-cases (k.descriptor s.calls)) [
  | inl failed ↦
      rw (new_descriptor-none k s failed, tun_open)
        (rw (new_descriptor-none k s failed) (fails refl refl refl))
  | inr (fd, got) ↦
      rw (new_descriptor-some k s fd got, tun_open)
        (rw (new_descriptor-some k s fd got) (create-Opens k _ s dev fd refl))
]

-- The requests that configure an interface, the latest first; the fourth call reads its flags.
abbrev pub configured : Kernel → ℕ → ℕ → List ℕ → ℕ → ℕ → List Request
configured k calls sock name ip mask =
    set_if_flags sock name (bit_or (k.if_flags (calls + 3)) up_flags)
    ∷ get_if_flags sock name
    ∷ set_if_netmask sock name 2 mask
    ∷ set_if_addr sock name 2 ip
    ∷ []

switch_on-opened :
    (k : Kernel) (s t : Sys) (sock : ℕ) (name : List ℕ)
    → s.opened ≡ sock ∷ t.opened
    → (switch_on k s sock name).1.opened ≡ t.opened
unfolding switch_on
switch_on-opened k s t sock name held = ground (arith, without-head sock t.opened)

configure-opened :
    (k : Kernel) (s t : Sys) (sock : ℕ) (name : List ℕ) (ip mask : ℕ)
    → s.opened ≡ sock ∷ t.opened
    → (configure k s sock name ip mask).1.opened ≡ t.opened
unfolding configure switch_on
configure-opened k s t sock name ip mask held = ground (arith, without-head sock t.opened)

pub tun_set_ip-opened :
    (k : Kernel) (s : Sys) (dev : Device) (ip mask : ℕ)
    → (tun_set_ip k s dev ip mask).1.opened ≡ s.opened
unfolding tun_set_ip
tun_set_ip-opened k s dev ip mask = elim (Option-cases (k.descriptor s.calls)) [
  | inl failed ↦
      rw (new_descriptor-none k s failed, tun_set_ip) (rw (new_descriptor-none k s failed) refl)
  | inr (sock, got) ↦
      rw (new_descriptor-some k s sock got, tun_set_ip)
        (rw (new_descriptor-some k s sock got)
          (configure-opened k _ s sock (ifr_name dev.ifname) ip mask refl))
]

pub tun_set_mtu-opened :
    (k : Kernel) (s : Sys) (dev : Device) (mtu : ℕ)
    → ((tun_set_mtu k s dev mtu).2.opened ≡ s.opened) × ((tun_set_mtu k s dev mtu).1.fd ≡ dev.fd)
unfolding tun_set_mtu
tun_set_mtu-opened k s dev mtu = elim (Option-cases (k.descriptor s.calls)) [
  | inl failed ↦
      rw (new_descriptor-none k s failed, tun_set_mtu)
        (rw (new_descriptor-none k s failed) (refl, refl))
  | inr (sock, got) ↦
      rw (new_descriptor-some k s sock got, tun_set_mtu)
        (rw (new_descriptor-some k s sock got) (configure_mtu-opened k _ s dev mtu sock refl))
]

abbrev pub linux_driver : (k : Kernel) → Driver k
linux_driver k = record {
  open_device = tun_open k;
  set_ip = tun_set_ip k;
  set_mtu = tun_set_mtu k;
  open-Opens = tun_open-Opens k;
  set_ip-opened = tun_set_ip-opened k;
  set_mtu-opened = λ s dev mtu. (tun_set_mtu-opened k s dev mtu).0;
  set_mtu-fd = λ s dev mtu. (tun_set_mtu-opened k s dev mtu).1;
}

-- The calls of `tun_set_ip` that follow the socket all succeed.
abbrev pub AllSucceed : Kernel → ℕ → Type 0
AllSucceed k calls =
    (k.succeeds (calls + 1) ≡ true)
    × (k.succeeds (calls + 2) ≡ true)
    × (k.succeeds (calls + 3) ≡ true)
    × (k.succeeds (calls + 4) ≡ true)

-- On Linux, once tun_set_ip has its socket, it closes it again in every case; it succeeds exactly
-- when all four requests do, and the kernel was then asked in this order for the address, the
-- mask, the flags and the flags with IFF_UP and IFF_RUNNING.
pub tun_set_ip-configured :
    (k : Kernel) (s : Sys) (dev : Device) (ip mask sock : ℕ)
    → k.descriptor s.calls ≡ some sock
    → let r = tun_set_ip k s dev ip mask in
      (r.1.opened ≡ s.opened)
      × (((r.0 ≡ true)
            × AllSucceed k s.calls
            × (r.1.performed
                ≡ configured k s.calls sock (ifr_name dev.ifname) ip mask ++ s.performed))
          ⊎ ((r.0 ≡ false) × ¬ AllSucceed k s.calls))
unfolding tun_set_ip configure switch_on
tun_set_ip-configured k s dev ip mask sock got = (
  tun_set_ip-opened k s dev ip mask,
  elim (Bool-cases (
      k.succeeds (s.calls + 1)
      && k.succeeds (s.calls + 2)
      && k.succeeds (s.calls + 3)
      && k.succeeds (s.calls + 4))) [
        | inl all ↦ inl (
            rw (new_descriptor-some k s sock got, tun_set_ip)
              (rw (new_descriptor-some k s sock got) (ground arith)))
        | inr some_fails ↦ inr (
            rw (new_descriptor-some k s sock got, tun_set_ip)
              (rw (new_descriptor-some k s sock got) (ground arith)))
      ],
)
