-- ===== src/Store/Cipher.antt =====
-- account_store.go, `TokenCipher`: what it puts around AES-GCM. `encode` and `decode` are those of
-- `base64.StdEncoding`, `seal` and `open` are `gcm.Seal` and `gcm.Open` with the cipher's key, and `size`
-- is `gcm.NonceSize()`.
use freebuff2api.Base.{
  ℕ, ◌≡◌, refl, ap, subst, ltb-false, ◌∙◌, [], ◌∷◌, ◌++◌, if◌then◌else◌, ltb, length, length-append,
  take, drop, arith, Text, codes, trim_space,
}
use freebuff2api.Base.Texts.Graphic.{Graphic, trim_space-Graphic}
use freebuff2api.Errors.{upstream, Outcome, ok, fail}

module _ (encode : Text → Text) (seal : Text → Text → Text) where
  -- `Encrypt`, given what reading the nonce returns.
  unfoldable pub encrypt_token : Outcome Text → Text → Outcome Text
  encrypt_token (fail e) token = fail e
  encrypt_token (ok nonce) token = ok (encode (nonce ++ seal nonce token))

module _ (size : ℕ) (decode : Text → Outcome Text) (unseal : Text → Text → Outcome Text) where
  open_raw : Outcome Text → Outcome Text
  open_raw (fail e) = fail e
  open_raw (ok raw) =
      if ltb (length raw) size
      then fail (upstream (codes "token payload too short"))
      else unseal (take size raw) (drop size raw)

  -- `Decrypt`
  unfoldable pub decrypt_token : Text → Outcome Text
  unfolding open_raw
  decrypt_token payload = open_raw (decode (trim_space payload))

take-append : (s t : Text) → take (length s) (s ++ t) ≡ s
take-append [] t = refl
take-append (a ∷ s) t = ap (λ r. a ∷ r) (take-append s t)

drop-append : (s t : Text) → drop (length s) (s ++ t) ≡ t
drop-append [] t = refl
drop-append (a ∷ s) t = drop-append s t

open_raw-append :
    (decode : Text → Outcome Text) (unseal : Text → Text → Outcome Text) (nonce sealed : Text)
    → open_raw (length nonce) decode unseal (ok (nonce ++ sealed)) ≡ unseal nonce sealed
unfolding open_raw
open_raw-append decode unseal nonce sealed =
    rw
      (
        ltb-false (length (nonce ++ sealed)) (length nonce)
            (omega (arith, length-append nonce sealed)),
        take-append nonce sealed,
        drop-append nonce sealed,
      )
      refl

decrypt_token-encode :
    (encode : Text → Text) (decode : Text → Outcome Text) (unseal : Text → Text → Outcome Text)
    (nonce sealed : Text)
    → ((t : Text) → decode (encode t) ≡ ok t)
    → ((t : Text) → Graphic (encode t))
    → decrypt_token (length nonce) decode unseal (encode (nonce ++ sealed)) ≡ unseal nonce sealed
unfolding decrypt_token
decrypt_token-encode encode decode unseal nonce sealed decodes graphic =
    rw
      (
        trim_space-Graphic (encode (nonce ++ sealed)) (graphic (nonce ++ sealed)),
        decodes (nonce ++ sealed),
      )
      (open_raw-append decode unseal nonce sealed)

-- If base64 decodes what it encodes, and encodes to bytes of ASCII that are no spaces, and GCM opens what
-- it seals under the same nonce, then Decrypt gives back the token that Encrypt was given, whatever the
-- nonce; a nonce has as many bytes as Decrypt takes for one.
pub decrypt-encrypt_token :
    (encode : Text → Text) (decode : Text → Outcome Text) (seal : Text → Text → Text)
    (unseal : Text → Text → Outcome Text) (nonce token : Text) (payload : Text)
    → ((t : Text) → decode (encode t) ≡ ok t)
    → ((t : Text) → Graphic (encode t))
    → ((n t : Text) → unseal n (seal n t) ≡ ok t)
    → encrypt_token encode seal (ok nonce) token ≡ ok payload
    → decrypt_token (length nonce) decode unseal payload ≡ ok token
unfolding encrypt_token
decrypt-encrypt_token encode decode seal unseal nonce token payload decodes graphic opens e =
    subst (λ t. decrypt_token (length nonce) decode unseal t ≡ ok token)
      {x = encode (nonce ++ seal nonce token)} (ground arith)
      (decrypt_token-encode encode decode unseal nonce (seal nonce token) decodes graphic
        ∙ opens nonce token)
