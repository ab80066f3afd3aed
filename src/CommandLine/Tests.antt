-- ===== src/CommandLine/Tests.antt =====
-- Runs of the command line, and its theorem at concrete addresses.
use p2ptest.Base.{
  lit, contains, true, false, if◌then◌else◌, some, [], ◌∷◌, ◌≡◌, ◌≢◌, refl, arith, done,
}
use p2ptest.Proto.{unknown}
use p2ptest.Config.{NodeConfig}
use p2ptest.Addr.{decimal, format_node_addr}
use p2ptest.Notification.{new_peer_discovered}
use p2ptest.CommandLine.{
  new_app, options, run, on_notification, init_logger, start_node, node_started,
  handshake_and_connect, wait, stop_node,
}
use p2ptest.CommandLine.Discovered.{on_notification_lem}

abbrev config : NodeConfig
config = record { node_name = lit "n"; listen_ip = lit "127.0.0.1"; listen_port = 1; proto_ver = 0 }

default_version : (new_app config []).config.proto_ver ≡ 1
unfolding new_app
default_version = refl

seeded :
    run (new_app config (options (record { peer_ip = lit "a"; peer_port = 7; debug = false }))) true
    ≡ init_logger
      ∷ start_node
      ∷ node_started
      ∷ handshake_and_connect (lit "a:7")
      ∷ wait
      ∷ stop_node
      ∷ []
unfolding run new_app options format_node_addr decimal lit
seeded = refl

no_open : contains b'[' (lit "::1") ≡ false
unfolding lit
no_open = refl

no_close : contains b']' (lit "::1") ≡ false
unfolding lit
no_close = refl

other : lit "b" ≢ lit "a"
unfolding lit
other = ground arith

elsewhere : format_node_addr (lit "::1") 7 ≢ lit "a:1"
unfolding format_node_addr decimal lit
elsewhere = ground arith

on_notification_lem_example :
    on_notification
      (lit "a")
      (lit "a:1")
      (new_peer_discovered (lit "n") (format_node_addr (lit "::1") 7) (lit "b") 5)
    ≡ done (
        some (record {
          id = some (record { uuid = lit "b"; name = lit "n"; public_key = [] });
          addrs = record { ip = lit "::1"; port = if contains b':' (lit "::1") then 0 else 7 } ∷ [];
          status = unknown;
          last_seen = 0;
        }))
unfolding lit
on_notification_lem_example =
    on_notification_lem (lit "a") (lit "a:1") (lit "::1") (lit "b") (lit "n") 7 5 no_open no_close
      (omega arith) refl other elsewhere
