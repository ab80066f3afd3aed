-- ===== src/Client/Sending.antt =====
-- What internal/client/client.go and internal/client/ping.go send, and how it is received.
use mathlib.Core.List.{mem-cons}
use mathlib.Core.List.Perm
use mathlib.Core.Logic.Or
use p2ptest.Base.{
  ℕ, suc, ◌+◌, ◌≡◌, ◌∙◌, refl, ap, Str, str_eq, Bool, true, false, is_empty, if◌then◌else◌, Option,
  none, some, List, [], ◌∷◌, length, Mem, arith, panic, inl, inr, subst, Option-cases,
}
use p2ptest.Base.Dict
use p2ptest.Base.Dict.{Visit, IsVisit, IsMap, mem-entries}
use p2ptest.Proto.{Payload, Envelope}
use p2ptest.Crypto.{IsEd25519, public_key, sign, verify}
use p2ptest.Crypto.Signing.{verify-sign}
use p2ptest.ConnPool.{ConnPool, Stream, send_to_stream, stream_addrs, keys}
use p2ptest.Messaging.{text_message, ping_message, Moment, Service, handle_envelope}
use p2ptest.Messaging.Crashes.{signed_crashes}
use p2ptest.Client.{
  Sender, Stamp, Send, Broadcast, seal, text_envelope, ping_envelope, broadcast_from,
  broadcast_text_message,
}

-- The sender carries the public key of its identity, and the libraries keep to their sizes: those
-- of Ed25519, and 32 bytes for SHA-256.
pub record IsGenuine (n : Sender) : Type 0 where
  pub law : IsEd25519 n.ed25519
  pub hash_size : (bytes : Str) → length (n.wire.sha256 bytes) ≡ 32
  pub own_key : n.node_id.public_key ≡ public_key n.ed25519 n.identity

some_inj : {a b : Envelope} → some a ≡ some b → a ≡ b
some_inj e = cc

none-some : {env : Envelope} → none ≡ some env → ⊥
none-some e = cc

filled : (xs : Str) (k : ℕ) → length xs ≡ suc k → is_empty xs ≡ false
filled [] k h = absurd (omega (arith, h))
filled (x ∷ xs) k h = refl

-- What holds of every envelope that is sealed: it names the node, the signature verifies over the
-- hash, and the receiver panics.
abbrev pub Crashes : Sender → Envelope → Type 0
Crashes n env =
    (env.from ≡ some n.node_id)
    × (verify n.ed25519 n.node_id.public_key env.content_hash env.signature ≡ true)
    × ((m : Moment) (s : Service) → handle_envelope n.ed25519 n.wire m s env ≡ panic)

seal-Crashes :
    {n : Sender} (g : IsGenuine n) (t : Stamp) (payload : Payload) (bytes : Str)
    → Crashes n (seal n t payload bytes)
unfolding seal public_key sign
seal-Crashes {n} g t payload bytes =
    let hash = n.wire.sha256 bytes in
    (
      refl,
      rw (g.own_key) (verify-sign g.law n.identity hash),
      λ m s.
          signed_crashes n.ed25519 n.wire m s (seal n t payload bytes) n.node_id refl
            (filled _ 63 (g.law.signature_size n.identity.private_key hash))
            (filled _ 31 (ap length g.own_key ∙ g.law.public_size n.identity.private_key))
            (filled hash 31 (g.hash_size bytes)),
    )

-- Every envelope that `SendTextMessage` and `BroadcastTextMessage` make for a text carries a
-- signature that verifies over its content hash, and makes the node that receives it panic,
-- whatever the state of that node.
pub text_envelope-Crashes :
    {n : Sender} (t : Stamp) (content : Str) (env : Envelope)
    → IsGenuine n
    → text_envelope n t content ≡ some env
    → Crashes n env
unfolding text_envelope
text_envelope-Crashes {n} t content env g made =
    elim (Option-cases (n.wire.marshal (text_message (some (record { content = content }))))) [
      | inl failed ↦ absurd (none-some (rw (failed, text_envelope) at made))
      | inr (bytes, encoded) ↦
          subst (Crashes n) (some_inj (rw (encoded, text_envelope) at made))
            (seal-Crashes g t _ bytes)
    ]

-- The same of every envelope that `SendPing` makes.
pub ping_envelope-Crashes :
    {n : Sender} (t : Stamp) (nonce : Str) (env : Envelope)
    → IsGenuine n
    → ping_envelope n t nonce ≡ some env
    → Crashes n env
unfolding ping_envelope
ping_envelope-Crashes {n} t nonce env g made =
    elim (Option-cases (n.wire.marshal (ping_message (some (record { nonce = nonce }))))) [
      | inl failed ↦ absurd (none-some (rw (failed, ping_envelope) at made))
      | inr (bytes, encoded) ↦
          subst (Crashes n) (some_inj (rw (encoded, ping_envelope) at made))
            (seal-Crashes g t _ bytes)
    ]

-- How many of the streams take an envelope, each with the readings of the clock of its round.
unfoldable pub accepting : (Stream → Envelope → Bool) → (ℕ → Envelope) → ℕ → List (Str × Stream) → ℕ
accepting sends made i [] = 0
accepting sends made i ((addr, stream) ∷ rest) =
    let later = accepting sends made (suc i) rest in
    if sends stream (made i) then suc later else later

-- One call of `Send` for each stream.
abbrev pub one_each : (ℕ → Envelope) → ℕ → List (Str × Stream) → List Send
one_each made i [] = []
one_each made i ((addr, stream) ∷ rest) =
    record { stream = stream; envelope = made i } ∷ one_each made (suc i) rest

Stream-set : IsSet (Option Stream)
Stream-set = hlevel

module _ (sends : Stream → Envelope → Bool) (n : Sender) (pool : ConnPool) (clock : ℕ → Stamp)
    (content : Str) (made : ℕ → Envelope)
    (encodes : (i : ℕ) → text_envelope n (clock i) content ≡ some (made i)) where
  -- What is promised of the rounds over some streams.
  abbrev IsBroadcast : ℕ → List (Str × Stream) → Broadcast → Type 0
  IsBroadcast i l b =
      (b.sent ≡ one_each made i l)
      × (b.success ≡ accepting sends made i l)
      × (b.success + b.failed ≡ length l)

  broadcast_from-IsBroadcast :
      (i : ℕ) (l : List (Str × Stream))
      → ((addr : Str) (s : Stream) → Mem (addr, s) l → Dict.get pool.streams addr ≡ some s)
      → IsBroadcast i l (broadcast_from sends n pool clock content i (keys l))
  unfolding broadcast_from keys accepting send_to_stream
  broadcast_from-IsBroadcast i [] at = (refl, refl, refl)
  broadcast_from-IsBroadcast i ((addr, s) ∷ l) at = ground (
    arith,
    broadcast_from-IsBroadcast (suc i) l (λ a u m. at a u (mem-cons.1 (Or.inr m))),
    encodes i,
    at addr s (mem-cons.1 (Or.inl refl)),
  )

  -- A broadcast whose text can be encoded, to a pool whose streams are a map and are visited once
  -- each: one envelope is sent on each stream, in visiting order, the successes are the sends
  -- without an error, and successes and failures together are as many as there are streams.
  pub broadcast_lem :
      (visit : Visit (Str × Stream))
      → IsMap pool.streams
      → IsVisit visit
      → IsBroadcast 0
          (visit pool.streams.entries)
          (broadcast_text_message sends n pool visit clock content)
  unfolding broadcast_text_message stream_addrs
  broadcast_lem visit u once =
      broadcast_from-IsBroadcast 0 (visit pool.streams.entries)
        (λ addr s m. (mem-entries Stream-set pool.streams addr s u).0 ((Perm.mem_iff (once _)).0 m))
