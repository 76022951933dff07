-- ===== src/Life/Balance.antt =====
-- What is opened is closed, and what is started is joined.
use tund.Base.{
  ℕ, Bool, true, false, [], ◌∷◌, none, some, ◌≡◌, refl, ap, ◌∙◌, arith, inl, inr, Bool-cases,
  Option-cases,
}
use tund.Protocol.Constants.{tun_mtu}
use tund.Tun.{Kernel, Sys, close, tun_close, without}
use tund.Tun.Descriptors.{without-head}
use tund.Tun.Driver.{Driver, Opens, fails, opens}
use tund.Life.{
  Life, Threading, close_tun, close_socket, give_up, set_up_tun, start_threads, join_threads,
  join_timer, join_reader, wind_up,
}

-- The end of the set-up: a device that is open above all that was, or the socket closed.
pub data SetUp (s : Sys) (sock : ℕ) (r : Bool × Life × Sys) : Type 0 where
  aborted : r.0 ≡ false → r.2.opened ≡ without sock s.opened → SetUp s sock r
  ready : (fd : ℕ) → r.0 ≡ true → r.1.tun.fd ≡ some fd → r.2.opened ≡ fd ∷ s.opened → SetUp s sock r

give_up-SetUp :
    (l : Life) (s t : Sys) (sock fd : ℕ)
    → l.tun.fd ≡ some fd
    → t.opened ≡ fd ∷ s.opened
    → SetUp s sock (give_up l t sock)
unfolding give_up close_tun tun_close
give_up-SetUp l s t sock fd device held = aborted refl (
    rw (device, tun_close, close_tun)
      (ap (without sock) (ap (without fd) held ∙ without-head fd s.opened)))

module _ {k : Kernel} (d : Driver k) (l : Life) (s : Sys) (sock ip mask : ℕ) where
  opened_device :
      (fd : ℕ)
      → (d.open_device s l.tun).0 ≡ true
      → (d.open_device s l.tun).1.fd ≡ some fd
      → (d.open_device s l.tun).2.opened ≡ fd ∷ s.opened
      → SetUp s sock (set_up_tun d l s sock ip mask)
  unfolding set_up_tun
  opened_device fd made device above =
      let o = d.open_device s l.tun in
      let dev = o.1 in
      let s1 = o.2 in
      let s2 = (d.set_ip s1 dev ip mask).1 in
      let kept = d.set_ip-opened s1 dev ip mask ∙ above in
      let kept' = d.set_mtu-opened s2 dev tun_mtu ∙ kept in
      let same = d.set_mtu-fd s2 dev tun_mtu ∙ device in
      elim (Bool-cases (d.set_ip s1 dev ip mask).0) [
        | inl addressed ↦ elim (Bool-cases (d.set_mtu s2 dev tun_mtu).0) [
          | inl sized ↦ rw (made, addressed, sized, set_up_tun) (ready fd refl same kept')
          | inr unsized ↦
              rw (made, addressed, unsized, set_up_tun) (give_up-SetUp _ s _ sock fd same kept')
        ]
        | inr bare ↦ rw (made, bare, set_up_tun) (give_up-SetUp _ s s2 sock fd device kept)
      ]

  pub set_up_tun-SetUp : SetUp s sock (set_up_tun d l s sock ip mask)
  unfolding set_up_tun
  set_up_tun-SetUp = by_device (d.open-Opens s l.tun)
    where
      by_device :
          Opens s l.tun (d.open_device s l.tun) → SetUp s sock (set_up_tun d l s sock ip mask)
      by_device (fails unmade same still) =
          rw (unmade, set_up_tun) (aborted refl (ap (without sock) still))
      by_device (opens fd made device above) = opened_device fd made device above

close_tun-eq :
    (l : Life) (s : Sys) (fd : ℕ)
    → l.tun.fd ≡ some fd
    → close_tun l s ≡ (record l { tun = record l.tun { fd = none } }, close s fd)
unfolding close_tun tun_close
close_tun-eq l s fd device = rw (device, tun_close) refl

close_tun-keeps :
    (l : Life) (s : Sys)
    → ((close_tun l s).0.threads ≡ l.threads)
      × ((close_tun l s).0.timer_started ≡ l.timer_started)
      × ((close_tun l s).0.tun_started ≡ l.tun_started)
unfolding close_tun
close_tun-keeps l s = (refl, refl, refl)

close_socket-threads : (l : Life) (s : Sys) → (close_socket l s).0.threads ≡ l.threads
unfolding close_socket
close_socket-threads l s = elim (Option-cases l.sockfd) [
  | inl absent ↦ rw (absent, close_socket) refl
  | inr (fd, held) ↦ rw (held, close_socket) refl
]

close_socket-eq :
    (l : Life) (s : Sys) (fd : ℕ)
    → l.sockfd ≡ some fd
    → close_socket l s ≡ (record l { sockfd = none }, close s fd)
unfolding close_socket
close_socket-eq l s fd held = rw (held, close_socket) refl

join_threads-tun :
    (l : Life) → ((join_threads l).tun ≡ l.tun) × ((join_threads l).sockfd ≡ l.sockfd)
unfolding join_threads
join_threads-tun l = (refl, refl)

-- The device and then the socket are closed.
pub wind_up-opened :
    (l : Life) (s : Sys) (fd sock : ℕ)
    → l.tun.fd ≡ some fd
    → l.sockfd ≡ some sock
    → (wind_up l s).1 ≡ close (close s fd) sock
unfolding wind_up join_threads
wind_up-opened l s fd sock device socket =
    let l1 = record l { timer_quit = true; tun_quit = true } in
    let l2 = join_threads (record l1 { tun = record l.tun { fd = none } }) in
    ap (λ (x : Life × Sys). (close_socket (join_threads x.0) x.1).1) (close_tun-eq l1 s fd device)
    ∙ ap (λ (x : Life × Sys). x.1) (close_socket-eq l2 (close s fd) sock socket)

-- What the start leaves is what the end joins.
joined :
    (th : Threading) (l : Life)
    → l.threads ≡ []
    → l.timer_started ≡ false
    → l.tun_started ≡ false
    → (join_threads (start_threads th l).1).threads ≡ []
unfolding start_threads join_threads join_timer join_reader
joined th l none_yet no_timer no_reader = elim (Bool-cases th.timer_starts) [
  | inl first ↦ elim (Bool-cases th.reader_starts) [
    | inl second ↦ rw (first, second, none_yet) refl
    | inr failed ↦ rw (first, failed, none_yet, no_reader) refl
  ]
  | inr failed ↦ rw (failed, none_yet, no_timer, no_reader) refl
]

join_threads-cong :
    (l m : Life)
    → l.threads ≡ m.threads
    → l.timer_started ≡ m.timer_started
    → l.tun_started ≡ m.tun_started
    → (join_threads l).threads ≡ (join_threads m).threads
unfolding join_threads
join_threads-cong l m ts timers readers = rw (ts, timers, readers) refl

-- Every thread that was started is joined, by the start itself where the second could not be.
pub wind_up-threads :
    (th : Threading) (l : Life) (s : Sys)
    → l.threads ≡ []
    → l.timer_started ≡ false
    → l.tun_started ≡ false
    → (wind_up (start_threads th l).1 s).0.threads ≡ []
unfolding wind_up
wind_up-threads th l s none_yet no_timer no_reader =
    let m = (start_threads th l).1 in
    let m1 = record m { timer_quit = true; tun_quit = true } in
    let (ts, timers, readers) = close_tun-keeps m1 s in
    close_socket-threads (join_threads (close_tun m1 s).0) (close_tun m1 s).1
    ∙ join_threads-cong (close_tun m1 s).0 m ts timers readers
    ∙ joined th l none_yet no_timer no_reader

-- The devices are untouched by the start of the threads.
pub start_threads-same :
    (th : Threading) (l : Life)
    → ((start_threads th l).1.tun ≡ l.tun) × ((start_threads th l).1.sockfd ≡ l.sockfd)
unfolding start_threads
start_threads-same th l = ground arith
