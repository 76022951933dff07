-- ===== src/Tun/Descriptors.antt =====
-- Descriptors that come and go.
use tund.Base.{ℕ, ◌+◌, List, ◌∷◌, none, some, ◌≡◌, refl, arith, ==_self}
use tund.Tun.{Kernel, Sys, Device, new_descriptor, without, configure_mtu}

pub new_descriptor-none :
    (k : Kernel) (s : Sys)
    → k.descriptor s.calls ≡ none
    → new_descriptor k s ≡ (none, record s { calls = s.calls + 1 })
unfolding new_descriptor
new_descriptor-none k s failed = rw (failed, new_descriptor) refl

pub new_descriptor-some :
    (k : Kernel) (s : Sys) (fd : ℕ)
    → k.descriptor s.calls ≡ some fd
    → new_descriptor k s ≡ (some fd, record s { calls = s.calls + 1; opened = fd ∷ s.opened })
unfolding new_descriptor
new_descriptor-some k s fd got = rw (got, new_descriptor) refl

pub without-head : (fd : ℕ) (xs : List ℕ) → without fd (fd ∷ xs) ≡ xs
unfolding without
without-head fd xs = rw (==_self fd) refl

pub configure_mtu-opened :
    (k : Kernel) (s t : Sys) (dev : Device) (mtu sock : ℕ)
    → s.opened ≡ sock ∷ t.opened
    → ((configure_mtu k s dev mtu sock).2.opened ≡ t.opened)
      × ((configure_mtu k s dev mtu sock).1.fd ≡ dev.fd)
unfolding configure_mtu
configure_mtu-opened k s t dev mtu sock held = ground (arith, without-head sock t.opened)
