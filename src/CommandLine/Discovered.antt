-- ===== src/CommandLine/Discovered.antt =====
-- The peers that `runNode` of cmd/p2pnode/root/root.go connects to when they are discovered.
use p2ptest.Base.{
  ℕ, ◌<◌, ◌%◌, ◌^◌, ◌≢◌, ◌≡◌, Str, lit, str_eq, str_beq, str_beq_iff, ◌==◌, false, if◌then◌else◌,
  is_empty, some, [], ◌∷◌, contains, last_index-append, take-append, done, arith, refl, ap,
}
use p2ptest.Proto.{unknown}
use p2ptest.Addr.{decimal, format_node_addr}
use p2ptest.Addr.Digits.{contains-decimal}
use p2ptest.Addr.RoundTrip.{must_parse_port-format_node_addr}
use p2ptest.Notification.{field, new_peer_discovered}
use p2ptest.CommandLine.{before_last_colon, peer_info, discovered_peer, on_notification}

before_last_colon-format :
    (ip : Str) (port : ℕ) → before_last_colon (format_node_addr ip port) ≡ done ip
unfolding before_last_colon format_node_addr
before_last_colon-format ip port =
    let digits = decimal (port % 2 ^ 32) in
    rw
      (
        last_index-append b':' ip digits (contains-decimal b':' (port % 2 ^ 32) refl),
        before_last_colon,
      )
      (ap done (take-append ip (b':' ∷ digits)))

format-filled : (ip : Str) (port : ℕ) → is_empty (format_node_addr ip port) ≡ false
unfolding format_node_addr
format-filled [] port = refl
format-filled (c ∷ ip) port = refl

differs : (s t : Str) → s ≢ t → (s == t) ≡ false
differs s t h = ground (arith, str_beq_iff s t)

-- A peer that is discovered under an address without brackets and a port of 32 bits, and is
-- another node at another address, is connected to at that address: without a panic, and with its
-- port, except that for an address with a colon, as those of IPv6 have, the port is 0.
pub on_notification_lem :
    (own_uuid self_addr ip uuid name : Str) (port now : ℕ)
    → contains b'[' ip ≡ false
    → contains b']' ip ≡ false
    → port < 2 ^ 32
    → is_empty uuid ≡ false
    → uuid ≢ own_uuid
    → format_node_addr ip port ≢ self_addr
    → on_notification own_uuid self_addr
        (new_peer_discovered name (format_node_addr ip port) uuid now)
      ≡ done (
          some (record {
            id = some (record { uuid = uuid; name = name; public_key = [] });
            addrs = record { ip = ip; port = if contains b':' ip then 0 else port } ∷ [];
            status = unknown;
            last_seen = 0;
          }))
unfolding on_notification discovered_peer peer_info new_peer_discovered field lit str_beq
on_notification_lem own_uuid self_addr ip uuid name port now no_open no_close small named other
      away =
    let addr : Str = format_node_addr ip port in
    let not_own : (uuid == own_uuid) ≡ false = differs uuid own_uuid other in
    let not_here : (addr == self_addr) ≡ false = differs addr self_addr away in
    rw
      (
        format-filled ip port,
        named,
        not_own,
        not_here,
        before_last_colon-format ip port,
        must_parse_port-format_node_addr ip port no_open no_close small,
        on_notification,
      )
      refl
