-- ===== src/Crypto/Tests.antt =====
-- The theorems about signatures with a stand-in for Ed25519: a key is 32 times one byte, and a
-- signature is 64 bytes that repeat it.
use p2ptest.Base.{
  refl, [], ◌∷◌, replicate, length-replicate, str_beq_iff, str_eq, ◌==◌, get_or, length,
}
use p2ptest.Crypto.{Ed25519, IsEd25519, Identity}

abbrev pub toy : Ed25519
toy = record {
  public_of = λ key. replicate 32 (length key);
  sign_with = λ key message. replicate 64 (length key);
  verifies = λ public message signature. signature == replicate 64 (get_or public 0 0);
}

pub toy-IsEd25519 : IsEd25519 toy
toy-IsEd25519 = record {
  public_size = λ key. length-replicate 32 (length key);
  signature_size = λ key message. length-replicate 64 (length key);
  genuine =
      λ key message. (str_beq_iff (replicate 64 (length key)) (replicate 64 (length key))).1 refl;
}

abbrev pub alice_key : Identity
alice_key = record { private_key = 5 ∷ 6 ∷ [] }
