-- ===== src/Addr/RoundTrip.antt =====
-- `formatNodeAddr` and `parseHostPort` of internal/node/node.go, and `mustParsePort` of
-- cmd/p2pnode/root/root.go: what the first writes, the others read.
use p2ptest.Base.{
  ℕ, ◌<◌, ◌%◌, ◌^◌, Str, false, if◌then◌else◌, none, some, contains, contains-append,
  last_index-append, take-append, drop-append_suc, starts_with, ◌≡◌, refl, arith, ◌∷◌, [], ◌++◌,
  natural, Parsed, syntax_error, range_error, negative, atoi, Option-cases, inl, inr, ap,
}
use p2ptest.Addr.{decimal, format_node_addr}
use p2ptest.Addr.Digits.{contains-decimal, atoi-decimal}
use p2ptest.Addr.Parse.{split_plain, split_host_port, parse_host_port, port_of, must_parse_port}

not_starting : (c : ℕ) (s : Str) → contains c s ≡ false → starts_with c s ≡ false
not_starting c [] h = refl
not_starting c (x ∷ s) h = ground (arith, h)

-- A text without brackets, up to its last colon.
split_host_port-append :
    (host port : Str)
    → contains b'[' host ≡ false
    → contains b']' host ≡ false
    → contains b':' port ≡ false
    → contains b'[' port ≡ false
    → contains b']' port ≡ false
    → split_host_port (host ++ b':' ∷ port)
      ≡ (if contains b':' host then none else some (host, port))
unfolding split_host_port split_plain
split_host_port-append host port no_open no_close colon p_open p_close =
    let s = host ++ b':' ∷ port in
    let opening = contains-append b'[' host (b':' ∷ port) in
    let closing = contains-append b']' host (b':' ∷ port) in
    rw (last_index-append b':' host port colon, split_host_port)
      (ground (
        arith,
        opening,
        closing,
        no_open,
        no_close,
        p_open,
        p_close,
        not_starting b'[' s,
        take-append host (b':' ∷ port),
        drop-append_suc host port b':',
      ))

module _ (ip : Str) (port : ℕ) (no_open : contains b'[' ip ≡ false)
    (no_close : contains b']' ip ≡ false) where
  split-text :
      split_host_port (ip ++ b':' ∷ decimal port)
      ≡ (if contains b':' ip then none else some (ip, decimal port))
  split-text =
      split_host_port-append ip (decimal port) no_open no_close (contains-decimal b':' port refl)
        (contains-decimal b'[' port refl) (contains-decimal b']' port refl)

  -- The port of the text that has an address without brackets and a number that fits 63 bits loses all
  -- but its low 32 bits. An address with a colon is refused.
  pub parse_host_port-wraps :
      port < 2 ^ 63
      → parse_host_port (ip ++ b':' ∷ decimal port)
        ≡ (if contains b':' ip then none else some (ip, port % 2 ^ 32))
  unfolding parse_host_port
  parse_host_port-wraps small =
      rw (split-text, parse_host_port) (ground (arith, atoi-decimal port, small))

  format-small : port < 2 ^ 32 → format_node_addr ip port ≡ ip ++ b':' ∷ decimal port
  unfolding format_node_addr
  format-small small = ap (λ p. ip ++ b':' ∷ decimal p) (ground (arith, small))

  split-format :
      port < 2 ^ 32
      → split_host_port (format_node_addr ip port)
        ≡ (if contains b':' ip then none else some (ip, decimal port))
  split-format small = rw (format-small small) split-text

  -- For an address without brackets and a port of 32 bits, `parseHostPort` reads back what
  -- `formatNodeAddr` has written, unless the address has a colon: then it refuses the text.
  pub parse_host_port-format_node_addr :
      port < 2 ^ 32
      → parse_host_port (format_node_addr ip port)
        ≡ (if contains b':' ip then none else some (ip, port))
  parse_host_port-format_node_addr small =
      rw (format-small small) (ground (arith, parse_host_port-wraps (ground (arith, small)), small))

  -- `mustParsePort` of what `formatNodeAddr` has written, for an address without brackets and a
  -- port of 32 bits: the port, or 0 where the address has a colon.
  pub must_parse_port-format_node_addr :
      port < 2 ^ 32
      → must_parse_port (format_node_addr ip port) ≡ (if contains b':' ip then 0 else port)
  unfolding must_parse_port
  must_parse_port-format_node_addr small =
      rw (split-format small, must_parse_port) (ground (arith, atoi-decimal port, small))

port_of_bounds : (host h : Str) (r : Parsed) (p : ℕ) → port_of host r ≡ some (h, p) → p < 2 ^ 32
port_of_bounds host h syntax_error p e = ground (arith, e)
port_of_bounds host h (range_error below) p e = ground (arith, e)
port_of_bounds host h (negative k) p e = ground (arith, e)
port_of_bounds host h (natural k) p e = ground (arith, e)

-- A port that `parseHostPort` returns, for any text at all, fits the 32 bits of its field.
pub parse_host_port_bounds :
    (a host : Str) (port : ℕ) → parse_host_port a ≡ some (host, port) → port < 2 ^ 32
unfolding parse_host_port
parse_host_port_bounds a host port e = elim (Option-cases (split_host_port a)) [
  | inl refused ↦ ground (arith, rw (refused, parse_host_port) at e)
  | inr (found, split) ↦
      port_of_bounds found.0 host (atoi found.1) port (rw (split, parse_host_port) at e)
]
