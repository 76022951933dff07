-- ===== src/Tun/Driver.antt =====
-- What the server and the client rely on in a TUN driver.
use tund.Base.{ℕ, Bool, true, false, ◌∷◌, some, ◌≡◌}
use tund.Tun.{Device, Kernel, Sys}

-- An attempt to open a device: a device with a descriptor that is open, or nothing changed.
pub data Opens (s : Sys) (dev : Device) (r : Bool × Device × Sys) : Type 0 where
  fails : r.0 ≡ false → r.1 ≡ dev → r.2.opened ≡ s.opened → Opens s dev r
  opens : (fd : ℕ) → r.0 ≡ true → r.1.fd ≡ some fd → r.2.opened ≡ fd ∷ s.opened → Opens s dev r

pub record Driver (k : Kernel) : Type 0 where
  pub open_device : Sys → Device → Bool × Device × Sys
  pub set_ip : Sys → Device → ℕ → ℕ → Bool × Sys
  pub set_mtu : Sys → Device → ℕ → Bool × Device × Sys
  pub open-Opens : (s : Sys) (dev : Device) → Opens s dev (open_device s dev)
  pub set_ip-opened :
      (s : Sys) (dev : Device) (ip mask : ℕ) → (set_ip s dev ip mask).1.opened ≡ s.opened
  pub set_mtu-opened : (s : Sys) (dev : Device) (mtu : ℕ) → (set_mtu s dev mtu).2.opened ≡ s.opened
  pub set_mtu-fd : (s : Sys) (dev : Device) (mtu : ℕ) → (set_mtu s dev mtu).1.fd ≡ dev.fd
