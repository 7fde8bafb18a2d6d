-- ===== src/Auth/SignedPayload.antt =====
-- apps/api/app/auth/tokens.py: payloads that carry their own signature and expiry. The encodings
-- (JSON, URL-safe base64) and HMAC-SHA256 are Python's: functions on bytes. Times are whole seconds.
use blank.Prelude.{
  ℕ, ◌+◌, ◌≤◌, ◌≡◌, refl, ◌≢◌, Bool, true, false, not, ◌||◌, Option, none, some, List, [], ◌∷◌,
  ◌++◌, arith, ltb, ◌==◌, if◌then◌else◌, Result, ok, err,
}
use blank.Prelude.Table.{All}

-- What `sign_payload` and `verify_payload` call: the JSON of the data with its expiry, in base64 and
-- back, and the signature in base64 under the master key.
pub record Codec (Payload : Type 0) : Type 0 where
  pub encode : Payload → ℕ → List ℕ
  -- `none` is an unreadable text; the expiry is missing if `exp` is absent or no integer.
  pub decode : List ℕ → Option (Payload × Option ℕ)
  pub signature : List ℕ → List ℕ

-- The text of the payload and its expiry is read back, and neither text is empty or holds a dot.
pub record ReadsBack {Payload : Type 0} (codec : Codec Payload) (payload : Payload) (exp : ℕ)
    : Type 0 where
  pub decode-encode : codec.decode (codec.encode payload exp) ≡ some (payload, some exp)
  pub encode_dotless : All (λ c. c ≢ b'.') (codec.encode payload exp)
  pub encode_nonempty : codec.encode payload exp ≢ []
  pub signature_nonempty : codec.signature (codec.encode payload exp) ≢ []

-- `InvalidSignedPayloadError`, by message.
pub data PayloadError : Type 0 where
  malformed invalid_signature unreadable expired : PayloadError

-- `signed.partition(".")`, without the separator.
unfoldable pub partition_dot : List ℕ → List ℕ × List ℕ
partition_dot [] = ([], [])
partition_dot (c ∷ cs) =
    let (before, after) = partition_dot cs in if c == b'.' then ([], cs) else (c ∷ before, after)

abbrev same_bytes : List ℕ → List ℕ → Bool
same_bytes [] [] = true
same_bytes (a ∷ xs) (b ∷ ys) = if a == b then same_bytes xs ys else false
same_bytes _ _ = false

abbrev is_empty : List ℕ → Bool
is_empty [] = true
is_empty (_ ∷ _) = false

module _ {Payload : Type 0} (codec : Codec Payload) where
  unfoldable pub sign_payload : (now : ℕ) → Payload → (ttl_seconds : ℕ) → List ℕ
  sign_payload now payload ttl_seconds =
      let text = codec.encode payload (now + ttl_seconds) in text ++ b'.' ∷ codec.signature text

  unfoldable pub check_expiry : ℕ → Option (Payload × Option ℕ) → Result PayloadError Payload
  check_expiry now none = err unreadable
  check_expiry now (some (payload, none)) = err expired
  check_expiry now (some (payload, some exp)) = if ltb exp now then err expired else ok payload

  unfoldable pub verify_payload : ℕ → List ℕ → Result PayloadError Payload
  unfolding check_expiry partition_dot
  verify_payload now signed =
      let (text, given) = partition_dot signed in
      if is_empty text || is_empty given
      then err malformed
      else (if not (same_bytes given (codec.signature text))
          then err invalid_signature
          else check_expiry now (codec.decode text))

same_bytes_refl : (xs : List ℕ) → same_bytes xs xs ≡ true
same_bytes_refl [] = refl
same_bytes_refl (x ∷ xs) = ground (arith, same_bytes_refl xs)

same_bytes_sound : (xs ys : List ℕ) → same_bytes xs ys ≡ true → xs ≡ ys
same_bytes_sound [] [] e = refl
same_bytes_sound (x ∷ xs) (y ∷ ys) e = ground (arith, same_bytes_sound xs ys)
same_bytes_sound _ _ e = cc

partition_dot-joined :
    (text rest : List ℕ)
    → All (λ c. c ≢ b'.') text
    → partition_dot (text ++ b'.' ∷ rest) ≡ (text, rest)
unfolding partition_dot
partition_dot-joined [] rest h = ground arith
partition_dot-joined (c ∷ text) rest (ne, h) = ground (arith, partition_dot-joined text rest h)

is_empty-false : (xs : List ℕ) → xs ≢ [] → is_empty xs ≡ false
is_empty-false [] h = absurd (h refl)
is_empty-false (x ∷ xs) h = refl

check_expiry_sound :
    {Payload : Type 0} (codec : Codec Payload) (now : ℕ) (body : Option (Payload × Option ℕ))
    {payload : Payload}
    → check_expiry codec now body ≡ ok payload
    → (exp : ℕ) × (body ≡ some (payload, some exp)) × (now ≤ exp)
unfolding check_expiry
check_expiry_sound codec now (some (read, some exp)) {payload} e = (exp, ground arith, ground arith)
check_expiry_sound codec now (some (read, none)) e = cc
check_expiry_sound codec now none e = cc

module _ {Payload : Type 0} (codec : Codec Payload) where
  -- A payload that was signed is given back until its time to live has passed, and refused as
  -- expired after it.
  pub verify-sign :
      (now later ttl_seconds : ℕ) (payload : Payload)
      → ReadsBack codec payload (now + ttl_seconds)
      → verify_payload codec later (sign_payload codec now payload ttl_seconds)
        ≡ (if ltb (now + ttl_seconds) later then err expired else ok payload)
  unfolding verify_payload sign_payload
  verify-sign now later ttl_seconds payload law =
      let text = codec.encode payload (now + ttl_seconds) in
      ground (
        arith,
        partition_dot-joined text (codec.signature text) law.encode_dotless,
        is_empty-false text law.encode_nonempty,
        is_empty-false (codec.signature text) law.signature_nonempty,
        same_bytes_refl (codec.signature text),
        law.decode-encode,
      )

  -- Whatever is verified carries the signature of its own text, and has not expired.
  pub verify_payload_sound :
      (now : ℕ) (signed : List ℕ) {payload : Payload}
      → verify_payload codec now signed ≡ ok payload
      → let (text, given) = partition_dot signed in
        (exp : ℕ) × (given ≡ codec.signature text)
        × (codec.decode text ≡ some (payload, some exp))
        × (now ≤ exp)
  unfolding verify_payload
  verify_payload_sound now signed {payload} e =
      let (text, given) = partition_dot signed in
      let (exp, read, in_time) =
        check_expiry_sound codec now (codec.decode text) {payload = payload} (ground arith) in
      (exp, same_bytes_sound given (codec.signature text) (ground arith), read, in_time)
