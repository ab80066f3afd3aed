-- ===== src/Crypto.antt =====
-- internal/crypto/crypto.go. Ed25519 itself is Go's crypto/ed25519, which is not part of the
-- program: it is a parameter, with the three facts that the program relies on as hypotheses.
pub mod Signing
pub mod Tests
use p2ptest.Base.{
  ℕ, ◌/◌, ◌%◌, ◌^◌, ◌≡◌, Str, List, [], ◌∷◌, ◌++◌, Bool, true, false, nat_beq, not, length,
  if◌then◌else◌,
}

-- crypto/ed25519: keys and signatures are byte slices.
pub record Ed25519 : Type 0 where
  pub public_of : Str → Str
  pub sign_with : Str → Str → Str
  pub verifies : Str → Str → Str → Bool

-- What is documented of it: the sizes of keys and signatures, and that a signature verifies
-- under the public key of its private key.
pub record IsEd25519 (e : Ed25519) : Type 0 where
  pub public_size : (key : Str) → length (e.public_of key) ≡ 32
  pub signature_size : (key message : Str) → length (e.sign_with key message) ≡ 64
  pub genuine :
      (key message : Str) → e.verifies (e.public_of key) message (e.sign_with key message) ≡ true

-- `Identity`
pub record Identity : Type 0 where
  pub private_key : Str

-- `PublicKey`
unfoldable pub public_key : Ed25519 → Identity → Str
public_key e identity = e.public_of identity.private_key

-- `Sign`
unfoldable pub sign : Ed25519 → Identity → Str → Str
sign e identity bytes = e.sign_with identity.private_key bytes

-- `Verify`: whether the error is nil. The only error is `ErrInvalidSignature`.
unfoldable pub verify : Ed25519 → Str → Str → Str → Bool
verify e key bytes signature =
    if not (nat_beq (length key) 32)
    then false
    else if not (nat_beq (length signature) 64)
    then false
    else if not (e.verifies key bytes signature)
    then false
    else true

-- `HandshakeSignData`
unfoldable pub handshake_sign_data : Str → Str
handshake_sign_data uuid = uuid

-- `binary.BigEndian.PutUint64` into eight bytes
unfoldable pub big_endian : ℕ → Str
big_endian t =
    t / 2 ^ 56 % 256
    ∷ t / 2 ^ 48 % 256
    ∷ t / 2 ^ 40 % 256
    ∷ t / 2 ^ 32 % 256
    ∷ t / 2 ^ 24 % 256
    ∷ t / 2 ^ 16 % 256
    ∷ t / 2 ^ 8 % 256
    ∷ t % 256
    ∷ []

-- `HeartbeatSignData`
unfoldable pub heartbeat_sign_data : Str → ℕ → Str
heartbeat_sign_data uuid timestamp = uuid ++ big_endian timestamp
