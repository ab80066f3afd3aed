-- ===== src/Crypto/Signing.antt =====
-- What the signatures of internal/crypto/crypto.go bind.
use p2ptest.Base.{
  ℕ, ◌+◌, ◌*◌, ◌<◌, ◌^◌, ◌≡◌, refl, ap, sym, ◌∙◌, Str, [], ◌∷◌, ◌++◌, true, length, length-append,
  arith,
}
use p2ptest.Crypto.{
  Ed25519, IsEd25519, Identity, public_key, sign, verify, big_endian, heartbeat_sign_data,
}

-- `Verify` accepts, under an identity's public key, what `Sign` made with that identity.
pub verify-sign :
    {e : Ed25519}
    → IsEd25519 e
    → (identity : Identity) (bytes : Str)
    → verify e (public_key e identity) bytes (sign e identity bytes) ≡ true
unfolding verify public_key sign
verify-sign {e} law identity bytes =
    let key : Str = identity.private_key in
    ground (arith, law.public_size key, law.signature_size key bytes, law.genuine key bytes)

-- Two lists that end in lists of the same length.
append-injective :
    (xs ys xt yt : Str) → length xt ≡ length yt → xs ++ xt ≡ ys ++ yt → (xs ≡ ys) × (xt ≡ yt)
append-injective [] [] xt yt h e = (refl, e)
append-injective [] (y ∷ ys) xt yt h e =
    absurd (omega (arith, ap (λ (l : Str). length l) e, length-append ys yt))
append-injective (x ∷ xs) [] xt yt h e =
    absurd (omega (arith, ap (λ (l : Str). length l) e, length-append xs xt))
append-injective (x ∷ xs) (y ∷ ys) xt yt h e =
    let rest : xs ++ xt ≡ ys ++ yt = ground arith in
    ground (arith, append-injective xs ys xt yt h rest)

length-big_endian : (t : ℕ) → length (big_endian t) ≡ 8
unfolding big_endian
length-big_endian t = refl

-- Reading the eight bytes back.
abbrev from_big_endian : ℕ → Str → ℕ
from_big_endian acc [] = acc
from_big_endian acc (b ∷ bs) = from_big_endian (acc * 256 + b) bs

from-big_endian : (t : ℕ) → t < 2 ^ 64 → from_big_endian 0 (big_endian t) ≡ t
unfolding big_endian
from-big_endian t h = omega arith

big_endian-injective : (t u : ℕ) → t < 2 ^ 64 → u < 2 ^ 64 → big_endian t ≡ big_endian u → t ≡ u
big_endian-injective t u a b e =
    sym (from-big_endian t a) ∙ ap (from_big_endian 0) e ∙ from-big_endian u b

-- The bytes that a heartbeat signs determine its identity and its timestamp.
pub heartbeat_sign_data-injective :
    (u v : Str) (t s : ℕ)
    → t < 2 ^ 64
    → s < 2 ^ 64
    → heartbeat_sign_data u t ≡ heartbeat_sign_data v s
    → (u ≡ v) × (t ≡ s)
unfolding heartbeat_sign_data
heartbeat_sign_data-injective u v t s a b e =
    let h : length (big_endian t) ≡ length (big_endian s) =
      length-big_endian t ∙ sym (length-big_endian s) in
    let p = append-injective u v (big_endian t) (big_endian s) h e in
    (p.0, big_endian-injective t s a b p.1)
