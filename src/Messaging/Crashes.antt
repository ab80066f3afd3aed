-- ===== src/Messaging/Crashes.antt =====
-- The envelopes that make internal/messaging/application/service.go panic.
use p2ptest.Base.{
  ℕ, Str, str_eq, Bool, true, false, is_empty, none, some, [], ◌∷◌, length, done, panic, ◌≡◌, ◌↔◌,
  inl, inr, refl, arith, ap, Bool-cases, nat_beq, nat_beq_iff,
}
use p2ptest.Proto.{NodeId, Payload, empty, text, ping, pong, Envelope}
use p2ptest.Crypto.{Ed25519, IsEd25519, Identity, public_key, sign}
use p2ptest.Crypto.Signing.{verify-sign}
use p2ptest.Messaging.{
  Wire, Service, Moment, as_message, verify_envelope, handle_envelope, equal_bytes,
  equal_bytes_from,
}

true_and_false : {b : Bool} → b ≡ true → b ≡ false → ⊥
true_and_false p q = cc

-- No payload of an envelope is a message of protobuf.
no_message : (p : Payload) → as_message p ≡ panic
no_message empty = refl
no_message (text t) = refl
no_message (ping p) = refl
no_message (pong p) = refl

-- An envelope with a signature, with the sender's key and with a hash of its content makes the
-- node panic, whatever these are: the signature is never tested.
pub signed_crashes :
    (e : Ed25519) (w : Wire) (m : Moment) (s : Service) (env : Envelope) (from : NodeId)
    → env.from ≡ some from
    → is_empty env.signature ≡ false
    → is_empty from.public_key ≡ false
    → is_empty env.content_hash ≡ false
    → handle_envelope e w m s env ≡ panic
unfolding handle_envelope
signed_crashes e w m s env from has signed keyed hashed =
    ground (arith, has, signed, keyed, hashed, no_message env.payload)

-- An envelope that names no sender makes the node panic.
pub anonymous_crashes :
    (e : Ed25519) (w : Wire) (m : Moment) (s : Service) (env : Envelope)
    → env.from ≡ none
    → handle_envelope e w m s env ≡ panic
unfolding handle_envelope
anonymous_crashes e w m s env anonymous = ground (arith, anonymous)

equal_from_iff : (a b : Str) → length a ≡ length b → (equal_bytes_from a b ≡ true) ↔ (a ≡ b)
unfolding equal_bytes_from
equal_from_iff [] [] same = ground arith
equal_from_iff [] (y ∷ b) same = absurd (omega (arith, same))
equal_from_iff (x ∷ a) [] same = absurd (omega (arith, same))
equal_from_iff (x ∷ a) (y ∷ b) same =
    ground (arith, equal_from_iff a b (omega (arith, same)), nat_beq_iff x y)

-- The comparison of two byte slices tells exactly whether they are equal.
pub equal_bytes_iff : (a b : Str) → (equal_bytes a b ≡ true) ↔ (a ≡ b)
unfolding equal_bytes
equal_bytes_iff a b = elim (Bool-cases (nat_beq (length a) (length b))) [
  | inl same ↦ rw same (equal_from_iff a b ((nat_beq_iff (length a) (length b)).0 same))
  | inr other ↦ rw other (
    λ h. absurd (true_and_false h refl),
    λ eq. absurd (true_and_false ((nat_beq_iff (length a) (length b)).1 (ap length eq)) other),
  )
]

-- The signature of an envelope without a content hash covers none of its content: made once, it
-- passes with every payload, every message id and every time.
pub signature_covers_nothing :
    (e : Ed25519) (w : Wire) (sender : Identity) (from : NodeId) (msg_id : Str) (payload : Payload)
    (timestamp : ℕ)
    → IsEd25519 e
    → from.public_key ≡ public_key e sender
    → verify_envelope e w (record {
      msg_id = msg_id;
      from = some from;
      payload = payload;
      timestamp = timestamp;
      content_hash = [];
      signature = sign e sender [];
    })
      ≡ done true
unfolding verify_envelope
signature_covers_nothing e w sender from msg_id payload timestamp law own =
    ground (arith, own, verify-sign law sender [])
