-- ===== src/Auth/Certificate/Created.antt =====
-- A certificate that `self_signed_certificate` makes has the fingerprint of its public key.
use quic_sync.Base.{
  ℕ, suc, ◌+◌, ◌-◌, ◌<◌, ◌^◌, ◌≡◌, ◌∙◌, sym, refl, ap, [], ◌∷◌, ◌++◌, append-nil, length,
  length-append, take, take-length, drop, ok, some, arith, lt→ltb,
}
use quic_sync.Base.Words.{Bytes}
use quic_sync.Auth.Der.{der_value, der, der_length, concat, der_sequence}
use quic_sync.Auth.Der.RoundTrip.{der_value-der, short_form}
use quic_sync.Auth.Certificate.{
  skip, fingerprint_spki, fingerprint_start, fingerprint_tbs, fingerprint_certificate,
  ed25519_algorithm, empty_name, validity, positive_serial, ed25519_spki, certificate_tbs,
  self_signed_certificate,
}

length-der_short :
    (tag : ℕ) (value : Bytes) → length value < 128 → length (der tag value) ≡ 2 + length value
unfolding der
length-der_short tag value h =
    ap (λ (l : Bytes). suc (length (l ++ value)))
      (short_form (length value) (lt→ltb (length value) 128 h))
    ∙ omega arith

length-positive_serial : (random : Bytes) → length (positive_serial random) ≡ length random
unfolding positive_serial
length-positive_serial [] = refl
length-positive_serial (b ∷ bs) = refl

skip-der :
    (n tag : ℕ) (value rest : Bytes)
    → length value < 128
    → skip (suc n) (der tag value ++ rest) ≡ skip n rest
unfolding skip
skip-der n tag value rest h = rw (skip, der_value-der tag value rest (omega arith)) refl

algorithm_der : der 48 (6 ∷ 3 ∷ 43 ∷ 101 ∷ 112 ∷ []) ≡ ed25519_algorithm
unfolding der der_length
algorithm_der = refl

key_contents : Bytes → Bytes
key_contents public_key = concat (ed25519_algorithm ∷ der 3 (0 ∷ public_key) ∷ [])

length-key_contents :
    (public_key : Bytes) → length public_key ≡ 32 → length (key_contents public_key) ≡ 42
unfolding key_contents concat
length-key_contents public_key h = omega (
  arith,
  length-append (der 3 (0 ∷ public_key)) [],
  length-der_short 3 (0 ∷ public_key) (omega arith),
)

module _ (sha256 : Bytes → Bytes) where
  fingerprint_start-der :
      (spki : Bytes)
      → length spki < 2 ^ 64
      → fingerprint_start sha256 (der 48 spki ++ []) ≡ ok (sha256 (der 48 spki))
  unfolding fingerprint_start fingerprint_spki
  fingerprint_start-der spki h =
      rw (fingerprint_start, der_value-der 48 spki [] h, append-nil (der 48 spki))
        (ap (λ (bs : Bytes). ok (sha256 bs)) (take_all (der 48 spki)))
    where
      take_all : (bs : Bytes) → take (length bs - 0) bs ≡ bs
      take_all bs = ap (λ n. take n bs) (omega arith) ∙ take-length bs

  module _ (public_key random : Bytes) (key_size : length public_key ≡ 32)
      (random_size : length random ≡ 16) where
    tail_fields : Bytes
    tail_fields =
        ed25519_algorithm
        ++ (empty_name ++ (validity ++ (empty_name ++ (ed25519_spki public_key ++ []))))

    skip-fields :
        skip 5 (der 2 (positive_serial random) ++ tail_fields) ≡ ok (ed25519_spki public_key ++ [])
    unfolding tail_fields der der_length skip
    skip-fields =
        skip-der 4 2 (positive_serial random) tail_fields
          (omega (arith, length-positive_serial random))
        ∙ skip-der 3 48 (6 ∷ 3 ∷ 43 ∷ 101 ∷ 112 ∷ [])
            (empty_name ++ (validity ++ (empty_name ++ (ed25519_spki public_key ++ []))))
            (ground arith)
        ∙ skip-der 2 48 [] (validity ++ (empty_name ++ (ed25519_spki public_key ++ [])))
            (ground arith)
        ∙ skip-der 1 48 (drop 2 validity) (empty_name ++ (ed25519_spki public_key ++ []))
            (ground arith)
        ∙ skip-der 0 48 [] (ed25519_spki public_key ++ []) (ground arith)

    tbs_contents : Bytes
    tbs_contents = der 160 (der 2 (2 ∷ [])) ++ (der 2 (positive_serial random) ++ tail_fields)

    fingerprint_tbs-contents :
        fingerprint_tbs sha256 tbs_contents ≡ ok (sha256 (ed25519_spki public_key))
    unfolding fingerprint_tbs tbs_contents skip der der_length ed25519_spki der_sequence concat
        key_contents
    fingerprint_tbs-contents =
        rw
          (
            fingerprint_tbs,
            skip-der 0 160 (der 2 (2 ∷ [])) (der 2 (positive_serial random) ++ tail_fields)
                (ground arith),
            skip-fields,
          )
          (fingerprint_start-der (key_contents public_key)
            (omega (arith, length-key_contents public_key key_size)))

    length-tail_fields : length tail_fields ≡ 87
    unfolding tail_fields ed25519_spki der_sequence concat key_contents
    length-tail_fields = omega (
      arith,
      length-append (ed25519_spki public_key) [],
      length-der_short 48 (key_contents public_key)
          (omega (arith, length-key_contents public_key key_size)),
      length-key_contents public_key key_size,
    )

    version_size : length (der 160 (der 2 (2 ∷ []))) ≡ 5
    unfolding der der_length
    version_size = refl

    length-tbs_contents : length tbs_contents ≡ 110
    unfolding tbs_contents
    length-tbs_contents = omega (
      arith,
      length-append (der 160 (der 2 (2 ∷ []))) (der 2 (positive_serial random) ++ tail_fields),
      length-append (der 2 (positive_serial random)) tail_fields,
      length-der_short 2 (positive_serial random) (omega (arith, length-positive_serial random)),
      length-positive_serial random,
      length-tail_fields,
      version_size,
    )

    tbs_der : certificate_tbs public_key random ≡ der 48 tbs_contents
    unfolding certificate_tbs der_sequence concat tbs_contents tail_fields
    tbs_der = refl

    der_value-certificate_tbs :
        (rest : Bytes)
        → der_value (certificate_tbs public_key random ++ rest) ≡ ok (48, tbs_contents, rest)
    der_value-certificate_tbs rest =
        ap (λ (t : Bytes). der_value (t ++ rest)) tbs_der
        ∙ der_value-der 48 tbs_contents rest (omega (arith, length-tbs_contents))

    length-certificate_tbs : length (certificate_tbs public_key random) ≡ 112
    length-certificate_tbs =
        ap length tbs_der
        ∙ length-der_short 48 tbs_contents (omega (arith, length-tbs_contents))
        ∙ omega (arith, length-tbs_contents)

    module _ (sign : Bytes → Bytes) (signature_size : (m : Bytes) → length (sign m) ≡ 64) where
      abbrev after_tbs : Bytes
      after_tbs = ed25519_algorithm ++ (der 3 (0 ∷ sign (certificate_tbs public_key random)) ++ [])

      length-after_tbs : length after_tbs ≡ 74
      length-after_tbs =
          let signed = sign (certificate_tbs public_key random) in
          omega (
            arith,
            length-append (der 3 (0 ∷ signed)) [],
            signature_size (certificate_tbs public_key random),
            length-der_short 3 (0 ∷ signed)
                (omega (arith, signature_size (certificate_tbs public_key random))),
          )

      certificate : Bytes
      certificate = der 48 (certificate_tbs public_key random ++ after_tbs)

      fingerprint_certificate-certificate :
          fingerprint_certificate sha256 certificate ≡ ok (sha256 (ed25519_spki public_key))
      unfolding fingerprint_certificate certificate
      fingerprint_certificate-certificate =
          let contents = certificate_tbs public_key random ++ after_tbs in
          ap (fingerprint_certificate sha256) (sym (append-nil (der 48 contents)))
          ∙ rw
              (
                fingerprint_certificate,
                der_value-der 48 contents [] (
                    omega (
                      arith,
                      length-append (certificate_tbs public_key random) after_tbs,
                      length-certificate_tbs,
                      length-after_tbs,
                    )),
                der_value-certificate_tbs after_tbs,
              )
              fingerprint_tbs-contents

      -- For a public key of 32 bytes, 16 random bytes and signatures of 64 bytes, a certificate is
      -- made, and its fingerprint is the SHA-256 digest of the key's `SubjectPublicKeyInfo`.
      pub fingerprint_certificate-self_signed_certificate :
          (made : Bytes) × (self_signed_certificate public_key sign (some random) ≡ ok made)
          × (fingerprint_certificate sha256 made ≡ ok (sha256 (ed25519_spki public_key)))
      unfolding self_signed_certificate certificate der_sequence concat
      fingerprint_certificate-self_signed_certificate =
          (certificate, refl, fingerprint_certificate-certificate)
