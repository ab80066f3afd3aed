-- ===== src/Messaging/Tests.antt =====
-- The theorems about the Messaging service at concrete envelopes, and runs of its handler.
use mathlib.Core.Option
use p2ptest.Base.{none, some, List, [], ◌∷◌, ◌++◌, ◌≡◌, Returns, str_eq}
use p2ptest.Proto.{NodeId, NodeInfo, Envelope, text, online}
use p2ptest.Crypto.{public_key}
use p2ptest.Crypto.Tests.{toy, alice_key}
use p2ptest.Notifier
use p2ptest.Notifier.History.{latest}
use p2ptest.Registry.Tests.{same_order}
use p2ptest.Messaging.{Wire, Service, Moment, stream, error, eof, returned}
use p2ptest.Messaging.Delivers.{Plain, says, pings, arrivals, answers, texts, stream_delivers}

abbrev pub toy_wire : Wire
toy_wire = record { marshal = λ m. some []; sha256 = λ bytes. bytes }

abbrev pub moment : Moment
moment = record { now_milli = 4; emitted_at = 5; callbacks_order = same_order }

abbrev bob_id : NodeId
bob_id = record { uuid = 98 ∷ []; name = 66 ∷ []; public_key = public_key toy alice_key }

abbrev pub bob : NodeInfo
bob = record { id = some bob_id; addrs = []; status = online; last_seen = 0 }

abbrev pub desk : Service
desk = record { self_info = some bob; notifier = some (Notifier.new 100) }

-- An envelope with a signature and a hash.
abbrev sealed : Envelope
sealed = record {
  msg_id = [];
  from = some (record { uuid = 98 ∷ []; name = 66 ∷ []; public_key = 1 ∷ [] });
  payload = text (some (record { content = 104 ∷ 105 ∷ [] }));
  timestamp = 3;
  content_hash = 1 ∷ [];
  signature = 1 ∷ [];
}

abbrev talk : List Plain
talk =
    record {
      moment = moment;
      msg_id = 1 ∷ [];
      from = bob_id;
      timestamp = 3;
      saying = says (104 ∷ []);
    }
    ∷ record {
      moment = moment;
      msg_id = 2 ∷ [];
      from = bob_id;
      timestamp = 4;
      saying = pings (9 ∷ []);
    }
    ∷ []

stream_delivers_example :
    Returns
      (λ out.
        (out.0 ≡ returned none)
        × (out.1.sent ≡ answers (some bob_id) talk)
        × (Option.map Notifier.history out.1.service.notifier ≡ some (latest 100 (texts talk))))
      (stream toy toy_wire desk (arrivals talk ++ error eof ∷ []))
stream_delivers_example = stream_delivers toy toy_wire bob 100 talk
