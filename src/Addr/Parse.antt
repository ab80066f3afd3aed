-- ===== src/Addr/Parse.antt =====
-- `parseHostPort` of internal/node/node.go and `mustParsePort` of cmd/p2pnode/root/root.go, over
-- `net.SplitHostPort` of the standard library.
use p2ptest.Base.{
  ℕ, suc, ◌-◌, ◌%◌, ◌^◌, Str, nat_beq, ◌||◌, if◌then◌else◌, Option, none, some, take, drop, index,
  last_index, contains, starts_with, Parsed, syntax_error, range_error, negative, natural, atoi,
}

-- `hostport[0] != '['`, where the last colon is at `i`.
unfoldable pub split_plain : Str → ℕ → Option (Str × Str)
split_plain s i =
    let host = take i s in
    if contains b':' host || contains b'[' s || contains b']' s
    then none
    else some (host, drop (suc i) s)

-- `hostport[0] == '['`, where the last colon is at `i` and the first `]` at `last`.
unfoldable pub split_bracketed : Str → ℕ → ℕ → Option (Str × Str)
split_bracketed s i last =
    if nat_beq (suc last) i
    then (if contains b'[' (drop 1 s) || contains b']' (drop (suc last) s)
        then none
        else some (drop 1 (take last s), drop (suc i) s))
    else none

unfoldable pub split_at : Str → ℕ → Option (Str × Str)
unfolding split_plain split_bracketed
split_at s i =
    if starts_with b'[' s
    then (elim (index b']' s) [ none ↦ none | some last ↦ split_bracketed s i last ])
    else split_plain s i

-- `net.SplitHostPort`: the host and the port, or none where it has an error.
unfoldable pub split_host_port : Str → Option (Str × Str)
unfolding split_at
split_host_port s = elim (last_index b':' s) [ none ↦ none | some i ↦ split_at s i ]

abbrev pub port_of : Str → Parsed → Option (Str × ℕ)
port_of host syntax_error = none
port_of host (range_error below) = none
port_of host (negative k) = none
port_of host (natural k) = some (host, k % 2 ^ 32)

-- `parseHostPort`: the conversion to `uint32` keeps the low 32 bits.
unfoldable pub parse_host_port : Str → Option (Str × ℕ)
unfolding split_host_port
parse_host_port a = elim (split_host_port a) [
  | none ↦ none
  | some (host, port) ↦ port_of host (atoi port)
]

-- The number that comes with an error of `strconv.Atoi`, and the conversion to `uint32`: the
-- largest and the smallest number of 64 bits have the low bits all set and all clear.
abbrev pub uint32_of : Parsed → ℕ
uint32_of syntax_error = 0
uint32_of (range_error below) = if below then 0 else 0xffffffff
uint32_of (negative k) = (2 ^ 64 - k) % 2 ^ 32
uint32_of (natural k) = k % 2 ^ 32

-- `uint32(mustParsePort(addr))`
unfoldable pub must_parse_port : Str → ℕ
unfolding split_host_port
must_parse_port a = elim (split_host_port a) [
  | none ↦ 0
  | some (host, port) ↦ uint32_of (atoi port)
]
