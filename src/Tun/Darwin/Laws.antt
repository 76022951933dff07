-- ===== src/Tun/Darwin/Laws.antt =====
-- What the macOS driver promises.
use tund.Base.{ℕ, ◌+◌, ◌∷◌, ◌≡◌, refl, arith, inl, inr, Bool-cases, Option-cases}
use tund.Tun.{Device, Kernel, Sys}
use tund.Tun.Descriptors.{
  new_descriptor-none, new_descriptor-some, without-head, configure_mtu-opened,
}
use tund.Tun.Driver.{Opens, fails, opens, Driver}
use tund.Tun.Darwin.{create, tun_open, configure, tun_set_ip, tun_set_mtu}

create-Opens :
    (k : Kernel) (s t : Sys) (dev : Device) (fd : ℕ)
    → s.opened ≡ fd ∷ t.opened
    → Opens t dev (create k s dev fd)
unfolding create
create-Opens k s t dev fd held = elim (Bool-cases (k.succeeds s.calls)) [
  | inl found ↦ elim (Bool-cases (k.succeeds (s.calls + 1))) [
    | inl connected ↦ elim (Bool-cases (k.succeeds (s.calls + 1 + 1))) [
      | inl named ↦ rw (found, connected, named, create) (opens fd refl refl held)
      | inr nameless ↦
          rw (found, connected, nameless, create)
            (fails refl refl (ground (arith, without-head fd t.opened)))
    ]
    | inr alone ↦
        rw (found, alone, create) (fails refl refl (ground (arith, without-head fd t.opened)))
  ]
  | inr missing ↦ rw (missing, create) (fails refl refl (ground (arith, without-head fd t.opened)))
]

pub tun_open-Opens : (k : Kernel) (s : Sys) (dev : Device) → Opens s dev (tun_open k s dev)
unfolding tun_open
tun_open-Opens k s dev = elim (Option-cases (k.descriptor s.calls)) [
  | inl failed ↦
      rw (new_descriptor-none k s failed, tun_open)
        (rw (new_descriptor-none k s failed) (fails refl refl refl))
  | inr (fd, got) ↦
      rw (new_descriptor-some k s fd got, tun_open)
        (rw (new_descriptor-some k s fd got) (create-Opens k _ s dev fd refl))
]

configure-opened :
    (k : Kernel) (s t : Sys) (dev : Device) (ip mask sock : ℕ)
    → s.opened ≡ sock ∷ t.opened
    → (configure k s dev ip mask sock).1.opened ≡ t.opened
unfolding configure
configure-opened k s t dev ip mask sock held = ground (arith, without-head sock t.opened)

pub tun_set_ip-opened :
    (k : Kernel) (s : Sys) (dev : Device) (ip mask : ℕ)
    → (tun_set_ip k s dev ip mask).1.opened ≡ s.opened
unfolding tun_set_ip
tun_set_ip-opened k s dev ip mask = elim (Option-cases (k.descriptor s.calls)) [
  | inl failed ↦
      rw (new_descriptor-none k s failed, tun_set_ip) (rw (new_descriptor-none k s failed) refl)
  | inr (sock, got) ↦
      rw (new_descriptor-some k s sock got, tun_set_ip)
        (rw (new_descriptor-some k s sock got) (configure-opened k _ s dev ip mask sock refl))
]

pub tun_set_mtu-opened :
    (k : Kernel) (s : Sys) (dev : Device) (mtu : ℕ)
    → ((tun_set_mtu k s dev mtu).2.opened ≡ s.opened) × ((tun_set_mtu k s dev mtu).1.fd ≡ dev.fd)
unfolding tun_set_mtu
tun_set_mtu-opened k s dev mtu = elim (Option-cases (k.descriptor s.calls)) [
  | inl failed ↦
      rw (new_descriptor-none k s failed, tun_set_mtu)
        (rw (new_descriptor-none k s failed) (refl, refl))
  | inr (sock, got) ↦
      rw (new_descriptor-some k s sock got, tun_set_mtu)
        (rw (new_descriptor-some k s sock got) (configure_mtu-opened k _ s dev mtu sock refl))
]

abbrev pub darwin_driver : (k : Kernel) → Driver k
darwin_driver k = record {
  open_device = tun_open k;
  set_ip = tun_set_ip k;
  set_mtu = tun_set_mtu k;
  open-Opens = tun_open-Opens k;
  set_ip-opened = tun_set_ip-opened k;
  set_mtu-opened = λ s dev mtu. (tun_set_mtu-opened k s dev mtu).0;
  set_mtu-fd = λ s dev mtu. (tun_set_mtu-opened k s dev mtu).1;
}
