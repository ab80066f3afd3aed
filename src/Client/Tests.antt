-- ===== src/Client/Tests.antt =====
-- The theorems about what a node sends, at a concrete node.
use p2ptest.Base.{
  List, ℕ, Str, lit, Returns, str_eq, some, [], ◌∷◌, length, replicate, length-replicate, ◌≡◌, refl,
  ◌+◌, Bool, nat_beq, str_beq,
}
use p2ptest.Base.Dict
use p2ptest.Base.Dict.{IsMap}
use p2ptest.Proto.{Envelope, text}
use p2ptest.Crypto.{public_key}
use p2ptest.Crypto.Tests.{toy, toy-IsEd25519, alice_key}
use p2ptest.Registry.Tests.{one, one-IsValid, same_order, same_order-IsVisit}
use p2ptest.ConnPool.{ConnPool, Stream}
use p2ptest.Client.{Sender, Stamp, seal, text_envelope, broadcast_text_message}
use p2ptest.Node.Tests.{moment}
use p2ptest.Node.Tests
use p2ptest.Client.Connecting.{Dialed, dialed, opened}
use p2ptest.Client.Receiving.{
  Peer, Received, HasLost, recv_peer_message_loop, in_turn, recv_peer_message_loop-HasLost,
}
use p2ptest.Client.Sending.{
  IsGenuine, Crashes, text_envelope-Crashes, accepting, one_each, broadcast_lem,
}

abbrev pub node : Sender
node = record {
  ed25519 = toy;
  wire = record { marshal = λ m. some (1 ∷ []); sha256 = λ bytes. replicate 32 (length bytes) };
  identity = alice_key;
  node_id = record { uuid = 97 ∷ []; name = 65 ∷ []; public_key = public_key toy alice_key };
  cfg = record { node_name = 65 ∷ []; listen_ip = []; listen_port = 1; proto_ver = 1 };
}

pub node-IsGenuine : IsGenuine node
node-IsGenuine = record {
  law = toy-IsEd25519;
  hash_size = λ bytes. length-replicate 32 (length bytes);
  own_key = refl;
}

abbrev pub stamp : Stamp
stamp = record { now_nano = 1; now_milli = 2 }

abbrev hello : Envelope
hello = seal node stamp (text (some (record { content = 104 ∷ [] }))) (1 ∷ [])

made_hello : text_envelope node stamp (104 ∷ []) ≡ some hello
unfolding text_envelope
made_hello = refl

text_envelope-Crashes_example : Crashes node hello
text_envelope-Crashes_example =
    text_envelope-Crashes stamp (104 ∷ []) hello node-IsGenuine made_hello

abbrev pub pool : ConnPool
pool = record {
  conns = record { entries = [] };
  streams = record { entries = (97 ∷ [], 1) ∷ (98 ∷ [], 2) ∷ [] };
}

pool-IsMap : IsMap pool.streams
unfolding Dict.lookup str_beq
pool-IsMap = (refl, (refl, tt))

abbrev only_first : Stream → Envelope → Bool
only_first s env = nat_beq s 1

broadcast_lem_example :
    let b = broadcast_text_message only_first node pool same_order (λ i. stamp) (104 ∷ []) in
    (b.sent ≡ one_each (λ i. hello) 0 pool.streams.entries)
    × (b.success ≡ accepting only_first (λ i. hello) 0 pool.streams.entries)
    × (b.success + b.failed ≡ 2)
broadcast_lem_example =
    broadcast_lem only_first node pool (λ i. stamp) (104 ∷ []) (λ i. hello) (λ i. made_hello)
      same_order pool-IsMap same_order-IsVisit

abbrev alice_peer : Peer
alice_peer = record { addr = lit "1:50051"; name = 65 ∷ []; uuid = 97 ∷ [] }

abbrev received : List Received
received = record { moment = moment []; arrival = 7; envelope = hello } ∷ []

recv_peer_message_loop-HasLost_example :
    Returns
      (HasLost one alice_peer (97 ∷ []))
      (recv_peer_message_loop Tests.node alice_peer (in_turn received (moment [])))
unfolding seal
recv_peer_message_loop-HasLost_example =
    recv_peer_message_loop-HasLost Tests.node alice_peer received (moment []) (97 ∷ []) one-IsValid
      (refl, tt)

-- The dialling of another node succeeds.
abbrev pub reachable : ℕ → Str → Dialed
reachable i addr = dialed 1 (opened 2)
