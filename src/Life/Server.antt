-- ===== src/Life/Server.antt =====
-- `server_init`, `server_run` and `server_shutdown` of src/core/server/server.c. The terminal interface and
-- the log are not modelled.
pub mod Laws
use tund.Base.{
  ℕ, Bool, true, false, not, List, [], ◌∷◌, Option, none, some, if◌then◌else◌, ◌≡◌, refl, ◌∙◌, inl,
  inr, Bool-cases, Option-cases, ap,
}
use tund.World.{World, Os}
use tund.Protocol.Constants.{server_ip, netmask}
use tund.Protocol.Bytes.{htonl}
use tund.Net.{Incoming, Received, packet, net_recv}
use tund.Net.Socket.{create_socket, Creates, no_socket, socket, create_socket-Creates}
use tund.Server.State.{Server, server_init_table}
use tund.Server.Data.{tun_round}
use tund.Server.Timeout.{timeout_round, shutdown_farewell}
use tund.Server.Dispatch.{Clock, handle_packet}
use tund.Server.Invariant.{IsValid}
use tund.Server.Threads.{server_init_table-IsValid, Reach-IsValid}
use tund.Server.Handlers.{handlers_keep-IsValid, send_peer_snapshots-Reach}
use tund.Tun.{Kernel, Sys}
use tund.Tun.Driver.{Driver}
use tund.Life.Entropy.{Process, draw}
use tund.Life.{Life, Threading, fresh_life, set_up_tun, start_threads, wind_up}
use tund.Life.Balance.{
  SetUp, aborted, ready, set_up_tun-SetUp, wind_up-opened, wind_up-threads, start_threads-same,
}

unfoldable pub server_init : {k : Kernel} → Driver k → Sys → ℕ → Bool × Life × Sys
server_init {k} d s port =
    let (sock, s1) = create_socket k s port in
    elim sock [
      | none ↦ (false, fresh_life, s1)
      | some fd ↦
          set_up_tun d (record fresh_life { sockfd = some fd }) s1 fd (htonl server_ip)
            (htonl netmask)
    ]

-- What happens next while the server runs: to its loop, which polls, or in one of its threads.
pub data Turn : Type 0 where
  stop_requested poll_failed idle : Turn
  datagram : Incoming → Clock → Turn
  tun_packet : List ℕ → Turn
  timer_round : Clock → Turn

unfoldable pub received : Os → World → Server → Received → Clock → Server × World
received os w srv (packet buf from) clock = handle_packet os w srv buf from clock
received os w srv _ clock = (srv, w)

-- Whether the loop goes on, and what the turn makes of the table and the world.
abbrev go_on : Server × World → Bool × Server × World
go_on r = (true, r.0, r.1)

unfoldable pub take_turn : Os → World → Server → Turn → Bool × Server × World
unfolding received
take_turn os w srv stop_requested = (false, srv, record w { running = false })
take_turn os w srv poll_failed = (false, srv, w)
take_turn os w srv idle = (true, srv, w)
take_turn os w srv (datagram i clock) = go_on (received os w srv (net_recv os w i) clock)
take_turn os w srv (tun_packet pkt) = go_on (tun_round os w srv pkt)
take_turn os w srv (timer_round clock) = go_on (timeout_round os w srv clock.time clock.ms)

unfoldable pub server_loop : Os → World → Server → List Turn → Server × World
unfolding take_turn
server_loop os w srv [] = (srv, w)
server_loop os w srv (t ∷ ts) =
    let (goes_on, srv', w') = take_turn os w srv t in
    let rest = server_loop os w' srv' ts in
    if not w.running then (srv, w) else if goes_on then rest else (srv', w')

unfoldable pub server_run :
    Kernel
    → Os
    → World
    → Server
    → Threading
    → Life
    → Process
    → List Turn
    → (Life × Process) × Server × World
unfolding server_loop
server_run k os w srv th l p turns =
    let (started, l') = start_threads th l in
    let (end, w') = server_loop os w srv turns in
    if started then ((l', draw k w w' p), end, w') else ((l', p), srv, record w { running = false })

unfoldable pub server_shutdown :
    Kernel → Os → World → Server → Life → Process → (Life × Process) × Server × World
server_shutdown k os w srv l p =
    let (srv', w') = shutdown_farewell os w srv in
    let p' = draw k w w' p in
    let (l', s) = wind_up l p'.sys in ((l', record p' { sys = s }), srv', w')

-- The branch of `main` for server mode.
unfoldable pub serve :
    {k : Kernel}
    → Driver k
    → Os
    → World
    → Process
    → ℕ
    → Threading
    → List Turn
    → Bool × (Life × Process) × Server × World
unfolding server_init server_run server_shutdown
serve {k} d os w p port th turns =
    let (started, l, s1) = server_init d p.sys port in
    let p1 = record p { sys = s1 } in
    let ((l', p2), srv, w') = server_run k os w server_init_table th l p1 turns in
    let (ended, last, w2) = server_shutdown k os w' srv l' p2 in
    if started then (true, ended, last, w2) else (false, (l, p1), server_init_table, w)
