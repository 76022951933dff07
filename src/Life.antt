-- ===== src/Life.antt =====
-- From start to end: src/core/server/server.c, src/core/client/client.c and src/app/main.c. Devices and
-- threads come and go here; what the threads do to the tables stands with the server and the client.
pub mod Entropy
pub mod Balance
pub mod Start
pub mod Server
pub mod Client
pub mod Main
use tund.Base.{
  ℕ, Bool, false, List, [], ◌∷◌, Option, none, some, replicate, not, true, if◌then◌else◌,
}
use tund.Protocol.Constants.{tun_mtu}
use tund.Tun.{Device, Sys, close, tun_close, Kernel}
use tund.Tun.Driver.{Driver}

-- The threads that exist beside the receive loop.
pub data Thread : Type 0 where
  -- the server's timeout thread, or the client's keepalive thread
  timer : Thread
  tun_reader : Thread

-- What `pthread_create` gives for the two threads.
pub record Threading : Type 0 where
  pub timer_starts : Bool
  pub reader_starts : Bool

-- The fields that `server_t` and `client_t` share, and the threads that have not been joined. The
-- flags `timer_*` are `timeout_*` of the server and `ka_*` of the client.
pub record Life : Type 0 where
  pub sockfd : Option ℕ
  pub tun : Device
  pub timer_started : Bool
  pub tun_started : Bool
  pub timer_quit : Bool
  pub tun_quit : Bool
  pub threads : List Thread

-- The fields as both initialisers set them.
abbrev pub fresh_life : Life
fresh_life = record {
  sockfd = none;
  tun = record { fd = none; ifname = replicate 32 0; mtu = 0 };
  timer_started = false;
  tun_started = false;
  timer_quit = false;
  tun_quit = false;
  threads = [];
}

-- `pthread_join`: the thread is gone.
unfoldable pub join_timer : List Thread → List Thread
join_timer [] = []
join_timer (timer ∷ ts) = ts
join_timer (tun_reader ∷ ts) = tun_reader ∷ join_timer ts

unfoldable pub join_reader : List Thread → List Thread
join_reader [] = []
join_reader (tun_reader ∷ ts) = ts
join_reader (timer ∷ ts) = timer ∷ join_reader ts

-- `tun_close` on the device of a server or a client.
unfoldable pub close_tun : Life → Sys → Life × Sys
unfolding tun_close
close_tun l s = let (dev, s1) = tun_close s l.tun in (record l { tun = dev }, s1)

-- `sock_close` if the socket is valid, which is then made invalid.
unfoldable pub close_socket : Life → Sys → Life × Sys
close_socket l s = elim l.sockfd [
  | none ↦ (l, s)
  | some fd ↦ (record l { sockfd = none }, close s fd)
]

-- What was opened is given back.
unfoldable pub give_up : Life → Sys → ℕ → Bool × Life × Sys
unfolding close_tun
give_up l s sock = let (l1, s1) = close_tun l s in (false, l1, close s1 sock)

-- The device is opened and gets its address and its MTU, with the socket open.
unfoldable pub set_up_tun : {k : Kernel} → Driver k → Life → Sys → ℕ → ℕ → ℕ → Bool × Life × Sys
unfolding give_up
set_up_tun d l s sock ip mask =
    let (made, dev, s1) = d.open_device s l.tun in
    let l1 = record l { tun = dev } in
    if not made
    then (false, l1, close s1 sock)
    else let (addressed, s2) = d.set_ip s1 dev ip mask in
      if not addressed
      then give_up l1 s2 sock
      else let (sized, dev', s3) = d.set_mtu s2 dev tun_mtu in
        let l2 = record l { tun = dev' } in if not sized then give_up l2 s3 sock else (true, l2, s3)

-- The start of `server_run` and `client_run`; where it fails the program is asked to stop.
unfoldable pub start_threads : Threading → Life → Bool × Life
unfolding join_timer
start_threads th l =
    let l0 = record l { timer_quit = false; tun_quit = false } in
    let l1 = record l0 { timer_started = true; threads = timer ∷ l0.threads } in
    if not th.timer_starts
    then (false, l0)
    else if not th.reader_starts
    then (
      false,
      record l1 { timer_quit = true; threads = join_timer l1.threads; timer_started = false },
    )
    else (true, record l1 { tun_started = true; threads = tun_reader ∷ l1.threads })

unfoldable pub join_threads : Life → Life
unfolding join_timer join_reader
join_threads l =
    let ts = if l.timer_started then join_timer l.threads else l.threads in
    record l { threads = if l.tun_started then join_reader ts else ts }

-- `server_shutdown` and `client_shutdown` but for the farewell, which goes out before the device is
-- closed.
unfoldable pub wind_up : Life → Sys → Life × Sys
unfolding close_tun join_threads close_socket
wind_up l s =
    let (l1, s1) = close_tun (record l { timer_quit = true; tun_quit = true }) s in
    close_socket (join_threads l1) s1
