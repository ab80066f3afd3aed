-- ===== src/Addr/Tests.antt =====
-- The theorems about addresses at concrete texts, and runs of `net.SplitHostPort`.
use p2ptest.Base.{Str, lit, contains, false, none, some, if◌then◌else◌, refl, ◌≡◌, arith}
use p2ptest.Addr.{format_node_addr}
use p2ptest.Addr.Parse.{split_host_port, parse_host_port}
use p2ptest.Addr.RoundTrip.{parse_host_port-format_node_addr}

abbrev seed : Str
seed = lit "127.0.0.1"

no_open : contains b'[' seed ≡ false
unfolding lit
no_open = refl

no_close : contains b']' seed ≡ false
unfolding lit
no_close = refl

bracketed : split_host_port (lit "[::1]:80") ≡ some (lit "::1", lit "80")
unfolding split_host_port lit
bracketed = refl

unbracketed : split_host_port (lit "::1:80") ≡ none
unfolding split_host_port lit
unbracketed = refl

portless : split_host_port (lit "[::1]") ≡ none
unfolding split_host_port lit
portless = refl

signs : parse_host_port (lit "a:+7") ≡ some (lit "a", 7)
unfolding parse_host_port lit
signs = refl

parse_host_port-format_node_addr_example :
    parse_host_port (format_node_addr seed 50051)
    ≡ (if contains b':' seed then none else some (seed, 50051))
parse_host_port-format_node_addr_example =
    parse_host_port-format_node_addr seed 50051 no_open no_close (omega arith)

parsed : parse_host_port (lit "a:4294967297") ≡ some (lit "a", 1)
unfolding parse_host_port lit
parsed = refl
