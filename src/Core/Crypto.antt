-- ===== src/Core/Crypto.antt =====
-- apps/api/app/core/crypto.py: encryption under the master key. AES-256-GCM itself is the
-- `cryptography` package's.
use blank.Prelude.{
  ℕ, ◌+◌, ◌≡◌, Option, none, some, List, ◌++◌, arith, leb, if◌then◌else◌, Result, ok, err,
}
use blank.Prelude.Lists.{length, take, drop, length-append, take-append, drop-append}
use blank.Auth.Models.{AuthError, truncated_data, invalid_tag}

-- `AESGCM(key)`: sealing under a nonce, and opening, which fails on a bad tag.
pub record AesGcm : Type 0 where
  pub seal : List ℕ → List ℕ → List ℕ
  pub unseal : List ℕ → List ℕ → Option (List ℕ)

-- What the package documents: opening undoes sealing, and a tag of 16 bytes is appended.
pub record IsAesGcm (aes : AesGcm) : Type 0 where
  pub unseal-seal : (nonce plain : List ℕ) → aes.unseal nonce (aes.seal nonce plain) ≡ some plain
  pub length-seal : (nonce plain : List ℕ) → length (aes.seal nonce plain) ≡ length plain + 16

-- The protocol `KeyProvider`.
pub record KeyProvider : Type 0 where
  pub encrypt : List ℕ → List ℕ
  pub decrypt : List ℕ → Result AuthError (List ℕ)

abbrev nonce_size : ℕ
nonce_size = 12

-- `EnvKeyProvider.encrypt`, with the nonce that `os.urandom` gave.
pub encrypt_with : AesGcm → List ℕ → List ℕ → List ℕ
encrypt_with aes nonce plaintext = nonce ++ aes.seal nonce plaintext

or_invalid_tag : Option (List ℕ) → Result AuthError (List ℕ)
or_invalid_tag none = err invalid_tag
or_invalid_tag (some plaintext) = ok plaintext

pub decrypt_with : AesGcm → List ℕ → Result AuthError (List ℕ)
unfolding or_invalid_tag
decrypt_with aes ciphertext =
    if leb (length ciphertext) nonce_size
    then err truncated_data
    else or_invalid_tag (aes.unseal (take nonce_size ciphertext) (drop nonce_size ciphertext))

-- `EnvKeyProvider(master_key)` for a key of 32 bytes, with the nonce of its next encryption.
pub env_key_provider : AesGcm → List ℕ → KeyProvider
env_key_provider aes nonce = record { encrypt = encrypt_with aes nonce; decrypt = decrypt_with aes }

-- Decryption gives back the text that was encrypted under any nonce of twelve bytes.
pub decrypt-encrypt :
    (aes : AesGcm) (nonce plaintext : List ℕ)
    → IsAesGcm aes
    → length nonce ≡ 12
    → decrypt_with aes (encrypt_with aes nonce plaintext) ≡ ok plaintext
unfolding decrypt_with encrypt_with
decrypt-encrypt aes nonce plaintext law twelve =
    let sealed = aes.seal nonce plaintext in
    let prefix : take 12 (nonce ++ sealed) ≡ nonce = rw (← twelve) (take-append nonce sealed) in
    let suffix : drop 12 (nonce ++ sealed) ≡ sealed = rw (← twelve) (drop-append nonce sealed) in
    ground (
      arith,
      prefix,
      suffix,
      length-append nonce sealed,
      law.unseal-seal nonce plaintext,
      law.length-seal nonce plaintext,
    )
