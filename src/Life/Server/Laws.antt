-- ===== src/Life/Server/Laws.antt =====
-- A server from start to end.
use tund.Base.{
  ℕ, Bool, true, false, not, List, [], ◌∷◌, none, some, ◌≡◌, refl, inl, inr, Bool-cases,
  if◌then◌else◌,
}
use tund.World.{Addr, World, Os}
use tund.Protocol.Constants.{server_ip, netmask}
use tund.Protocol.Bytes.{htonl}
use tund.Protocol.Messages.{build_disconnect}
use tund.Net.{Received, packet, net_recv}
use tund.Net.Socket.{create_socket, Creates, no_socket, socket, create_socket-Creates}
use tund.Server.State.{Server, server_init_table, snapshot_broadcast}
use tund.Server.Timeout.{shutdown_farewell}
use tund.Server.Dispatch.{Clock}
use tund.Server.Invariant.{IsValid}
use tund.Server.Threads.{server_init_table-IsValid, Reach-IsValid}
use tund.Server.Handlers.{handlers_keep-IsValid, send_peer_snapshots-Reach}
use tund.Tun.{Kernel, Sys}
use tund.Tun.Driver.{Driver}
use tund.Life.{Life, Threading, start_threads}
use tund.Life.Entropy.{Process, draw, Drawn, unchanged, Drawn-trans, draw-Drawn}
use tund.Life.Start.{
  Started, not_started, Begun, not_begun, begun, Started-Begun, fresh-NoThread, set_up_tun-Started,
  IsOver, wind_up-IsOver,
}
use tund.Life.Server.{
  server_init, Turn, stop_requested, poll_failed, idle, datagram, tun_packet, timer_round, received,
  take_turn, server_loop, server_run, server_shutdown, serve,
}

-- Server_init over any TUN driver that keeps the driver's laws either fails with just the
-- descriptors open that were open before, or succeeds with the device and the socket open above
-- them; no thread runs yet.
pub server_init-Started :
    {k : Kernel} (d : Driver k) (s : Sys) (port : ℕ) → Started s (server_init d s port)
unfolding server_init
server_init-Started {k} d s port = by_socket (create_socket-Creates k s port)
  where
    by_socket : Creates s (create_socket k s port) → Started s (server_init d s port)
    by_socket (no_socket missing still) =
        rw (missing, server_init) (not_started refl (fresh-NoThread none) still)
    by_socket (socket fd got above) =
        rw (got, server_init)
          (set_up_tun-Started d _ _ fd (htonl server_ip) (htonl netmask) (fresh-NoThread (some fd))
            refl s above)

received-IsValid :
    (os : Os) (w : World) (srv : Server) (r : Received) (clock : Clock)
    → IsValid srv
    → IsValid (received os w srv r clock).0
unfolding received
received-IsValid os w srv (packet buf from) clock v =
    (handlers_keep-IsValid os w srv buf [] from clock v).0
received-IsValid os w srv _ clock v = v

abbrev nobody : Addr
nobody = record { family = 0; ip = 0; port = 0 }

take_turn-IsValid :
    (os : Os) (w : World) (srv : Server) (t : Turn) → IsValid srv → IsValid (take_turn os w srv t).1
unfolding take_turn
take_turn-IsValid os w srv (datagram i clock) v =
    received-IsValid os w srv (net_recv os w i) clock v
take_turn-IsValid os w srv (tun_packet pkt) v =
    (handlers_keep-IsValid os w srv [] pkt nobody (record { time = 0; ms = 0 }) v).1
take_turn-IsValid os w srv (timer_round clock) v =
    (handlers_keep-IsValid os w srv [] [] nobody clock v).2
take_turn-IsValid os w srv stop_requested v = v
take_turn-IsValid os w srv poll_failed v = v
take_turn-IsValid os w srv idle v = v

choose :
    (b : Bool) (x y : Server × World) → IsValid x.0 → IsValid y.0 → IsValid (if b then x else y).0
choose true x y p q = p
choose false x y p q = q

server_loop-IsValid :
    (os : Os) (w : World) (srv : Server) (ts : List Turn)
    → IsValid srv
    → IsValid (server_loop os w srv ts).0
unfolding server_loop
server_loop-IsValid os w srv [] v = v
server_loop-IsValid os w srv (t ∷ ts) v =
    let next = take_turn-IsValid os w srv t v in
    let (goes_on, srv', w') = take_turn os w srv t in
    choose (not w.running) (srv, w) _ v
      (choose goes_on (server_loop os w' srv' ts) (srv', w')
        (server_loop-IsValid os w' srv' ts next) next)

-- The table stays valid, and only the source of random bytes is opened.
server_run-lem :
    (k : Kernel) (os : Os) (w : World) (srv : Server) (th : Threading) (l : Life) (p : Process)
    (ts : List Turn)
    → IsValid srv
    → IsValid (server_run k os w srv th l p ts).1
      × ((server_run k os w srv th l p ts).0.0 ≡ (start_threads th l).1)
      × Drawn p (server_run k os w srv th l p ts).0.1
unfolding server_run
server_run-lem k os w srv th l p ts v = elim (Bool-cases (start_threads th l).0) [
  | inl started ↦
      rw (started, server_run)
        (server_loop-IsValid os w srv ts v, refl, draw-Drawn k w (server_loop os w srv ts).1 p)
  | inr failed ↦ rw (failed, server_run) (v, refl, unchanged refl refl)
]

shutdown_farewell-IsValid :
    (os : Os) (w : World) (srv : Server) → IsValid srv → IsValid (shutdown_farewell os w srv).0
unfolding shutdown_farewell
shutdown_farewell-IsValid os w srv v =
    let (msg, w1) = build_disconnect os w in
    Reach-IsValid v (send_peer_snapshots-Reach os w1 srv (snapshot_broadcast srv.peers none) msg 0)

pub serve-IsOver :
    {k : Kernel} (d : Driver k) (os : Os) (w : World) (p : Process) (port : ℕ) (th : Threading)
    (turns : List Turn)
    → IsOver p (serve d os w p port th turns).1 × IsValid (serve d os w p port th turns).2
unfolding serve server_shutdown
serve-IsOver {k} d os w p port th turns =
    by_start (Started-Begun p (server_init d p.sys port) (server_init-Started d p.sys port))
  where
    by_start :
        Begun p (
          (server_init d p.sys port).0,
          (server_init d p.sys port).1,
          record p { sys = (server_init d p.sys port).2 },
        )
        → IsOver p (serve d os w p port th turns).1 × IsValid (serve d os w p port th turns).2
    by_start (not_begun no_start quiet drawn) =
        rw (no_start, serve)
          (record { given_back = drawn; all_joined = quiet.none_left }, server_init_table-IsValid)
    by_start (begun fd sock m done quiet device held drawn same above) =
        let l = (server_init d p.sys port).1 in
        let p1 = record p { sys = (server_init d p.sys port).2 } in
        let run = server_run k os w server_init_table th l p1 turns in
        let (valid, life, ran) =
          server_run-lem k os w server_init_table th l p1 turns server_init_table-IsValid in
        let w' = (shutdown_farewell os run.2 run.1).1 in
        rw (done, serve)
          (
            rw life (
                wind_up-IsOver th l p m p1 (draw k run.2 w' run.0.1) fd sock quiet device held drawn
                  same above (Drawn-trans ran (draw-Drawn k run.2 w' run.0.1))),
            shutdown_farewell-IsValid os run.2 run.1 valid,
          )
