-- ===== src/Config.antt =====
-- internal/types/config.go: the configuration of a node, and the intervals, in nanoseconds.
use p2ptest.Base.{ℕ, ◌*◌, Str}

pub record NodeConfig : Type 0 where
  pub node_name : Str
  pub listen_ip : Str
  pub listen_port : ℕ
  pub proto_ver : ℕ

abbrev pub second : ℕ
second = 1000000000

abbrev pub heartbeat_interval : ℕ
heartbeat_interval = 5 * second

abbrev pub gossip_interval : ℕ
gossip_interval = 30 * second

abbrev pub heartbeat_timeout : ℕ
heartbeat_timeout = 30 * second

abbrev pub clean_interval : ℕ
clean_interval = 5 * second

abbrev pub default_proto_ver : ℕ
default_proto_ver = 1
