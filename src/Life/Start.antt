-- ===== src/Life/Start.antt =====
-- What a start leaves: the devices, and no thread yet.
use tund.Base.{
  ℕ, Bool, true, false, not, [], ◌∷◌, Option, some, ◌≡◌, refl, sym, ap, ◌∙◌, if◌then◌else◌,
}
use tund.Protocol.Constants.{tun_mtu}
use tund.Tun.{Device, Kernel, Sys, close, without}
use tund.Tun.Descriptors.{without-head}
use tund.Tun.Driver.{Driver}
use tund.Life.{Life, Threading, fresh_life, give_up, set_up_tun, start_threads, wind_up, close_tun}
use tund.Life.Entropy.{Process, Drawn, unchanged, Drawn-trans, holding, closed-Drawn}
use tund.Life.Balance.{
  SetUp, aborted, ready, set_up_tun-SetUp, wind_up-opened, wind_up-threads, start_threads-same,
}

-- No thread runs, and none has been started.
pub record NoThread (l : Life) : Type 0 where
  pub none_left : l.threads ≡ []
  pub no_timer : l.timer_started ≡ false
  pub no_reader : l.tun_started ≡ false

-- A start: nothing that was not open before, or a device and a socket.
pub data Started (t : Sys) (r : Bool × Life × Sys) : Type 0 where
  not_started : r.0 ≡ false → NoThread r.1 → r.2.opened ≡ t.opened → Started t r
  is_started :
      (fd sock : ℕ)
      → r.0 ≡ true
      → NoThread r.1
      → r.1.tun.fd ≡ some fd
      → r.1.sockfd ≡ some sock
      → r.2.opened ≡ fd ∷ sock ∷ t.opened
      → Started t r

-- The same in a process, which may have opened the source of random bytes after the socket.
pub data Begun (p : Process) (r : Bool × Life × Process) : Type 0 where
  not_begun : r.0 ≡ false → NoThread r.1 → Drawn p r.2 → Begun p r
  begun :
      (fd sock : ℕ) (m : Process)
      → r.0 ≡ true
      → NoThread r.1
      → r.1.tun.fd ≡ some fd
      → r.1.sockfd ≡ some sock
      → Drawn (holding sock p) m
      → r.2.random_fd ≡ m.random_fd
      → r.2.sys.opened ≡ fd ∷ m.sys.opened
      → Begun p r

pub fresh-NoThread : (o : Option ℕ) → NoThread (record fresh_life { sockfd = o })
fresh-NoThread o = record { none_left = refl; no_timer = refl; no_reader = refl }

-- Nothing but the device has changed.
abbrev OnlyTun : Life → Bool × Life × Sys → Type 0
OnlyTun l r = (dev : Device) × (r.1 ≡ record l { tun = dev })

either :
    (l : Life) (b : Bool) (x y : Bool × Life × Sys)
    → OnlyTun l x
    → OnlyTun l y
    → OnlyTun l (if b then x else y)
either l true x y p q = p
either l false x y p q = q

set_up_tun-OnlyTun :
    {k : Kernel} (d : Driver k) (l : Life) (s : Sys) (sock ip mask : ℕ)
    → OnlyTun l (set_up_tun d l s sock ip mask)
unfolding set_up_tun give_up close_tun
set_up_tun-OnlyTun d l s sock ip mask =
    let (made, dev, s1) = d.open_device s l.tun in
    let (addressed, s2) = d.set_ip s1 dev ip mask in
    let (sized, dev', s3) = d.set_mtu s2 dev tun_mtu in
    either l (not made) (false, record l { tun = dev }, close s1 sock) _ (dev, refl)
      (either l (not addressed) (give_up (record l { tun = dev }) s2 sock) _ (_, refl)
        (either l (not sized) (give_up (record l { tun = dev' }) s3 sock) _ (_, refl) (dev', refl)))

OnlyTun-same :
    (l : Life) (r : Bool × Life × Sys)
    → OnlyTun l r
    → NoThread l
    → NoThread r.1 × (r.1.sockfd ≡ l.sockfd)
OnlyTun-same l r (dev, same) v =
    rw same
      (record { none_left = v.none_left; no_timer = v.no_timer; no_reader = v.no_reader }, refl)

-- The set-up with what it leaves of the fields.
module _ {k : Kernel} (d : Driver k) (l : Life) (s : Sys) (sock ip mask : ℕ) (quiet : NoThread l)
    (socket : l.sockfd ≡ some sock) where
  abbrev start : Bool × Life × Sys
  start = set_up_tun d l s sock ip mask

  pub set_up_tun-fields : NoThread start.1 × (start.1.sockfd ≡ some sock)
  set_up_tun-fields =
      let (still, same) = OnlyTun-same l start (set_up_tun-OnlyTun d l s sock ip mask) quiet in
      (still, same ∙ socket)

  pub set_up_tun-Started : (t : Sys) → s.opened ≡ sock ∷ t.opened → Started t start
  set_up_tun-Started t held = by_end (set_up_tun-SetUp d l s sock ip mask)
    where
      by_end : SetUp s sock start → Started t start
      by_end (aborted unready gone) =
          not_started unready set_up_tun-fields.0
            (gone ∙ ap (without sock) held ∙ without-head sock t.opened)
      by_end (ready fd done device above) =
          is_started fd sock done set_up_tun-fields.0 device set_up_tun-fields.1
            (above ∙ ap (λ x. fd ∷ x) held)

  -- The same where the source of random bytes may have been opened after the socket.
  pub set_up_tun-Begun :
      (p m : Process)
      → Drawn (holding sock p) m
      → m.sys ≡ s
      → Begun p (start.0, start.1, record m { sys = start.2 })
  set_up_tun-Begun p m drawn at = by_end (set_up_tun-SetUp d l s sock ip mask)
    where
      by_end : SetUp s sock start → Begun p (start.0, start.1, record m { sys = start.2 })
      by_end (aborted unready gone) = not_begun unready set_up_tun-fields.0 (
          closed-Drawn sock p m start.2 drawn
            (gone ∙ ap (λ (x : Sys). without sock x.opened) (sym at)))
      by_end (ready fd done device above) =
          begun fd sock m done set_up_tun-fields.0 device set_up_tun-fields.1 drawn refl
            (above ∙ ap (λ (x : Sys). fd ∷ x.opened) (sym at))

pub Started-Begun :
    (p : Process) (r : Bool × Life × Sys)
    → Started p.sys r
    → Begun p (r.0, r.1, record p { sys = r.2 })
Started-Begun p r (not_started unready quiet still) = not_begun unready quiet (unchanged refl still)
Started-Begun p r (is_started fd sock done quiet device socket above) =
    begun fd sock (holding sock p) done quiet device socket (unchanged refl refl) refl above

-- The end of what was started: no thread is left to join, and every descriptor that was opened is
-- closed, but the one of /dev/urandom where that was opened.
pub record IsOver (p : Process) (r : Life × Process) : Type 0 where
  pub given_back : Drawn p r.1
  pub all_joined : r.0.threads ≡ []

pub wind_up-IsOver :
    (th : Threading) (l : Life) (p m b q : Process) (fd sock : ℕ)
    → NoThread l
    → l.tun.fd ≡ some fd
    → l.sockfd ≡ some sock
    → Drawn (holding sock p) m
    → b.random_fd ≡ m.random_fd
    → b.sys.opened ≡ fd ∷ m.sys.opened
    → Drawn b q
    → IsOver p (
      (wind_up (start_threads th l).1 q.sys).0,
      record q { sys = (wind_up (start_threads th l).1 q.sys).1 },
    )
wind_up-IsOver th l p m b q fd sock v device socket drawn same above later =
    let (same_tun, same_socket) = start_threads-same th l in
    let ends =
      wind_up-opened (start_threads th l).1 q.sys fd sock
        (ap (λ (d : Device). d.fd) same_tun ∙ device) (same_socket ∙ socket) in
    let after = Drawn-trans (unchanged same above) later in
    let closed = closed-Drawn fd m q (close q.sys fd) after refl in
    record {
      given_back =
          closed-Drawn sock p (record q { sys = close q.sys fd })
            (wind_up (start_threads th l).1 q.sys).1 (Drawn-trans drawn closed)
            (ap (λ (s : Sys). s.opened) ends);
      all_joined = wind_up-threads th l q.sys v.none_left v.no_timer v.no_reader;
    }
