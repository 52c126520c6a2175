-- ===== src/User/Token.antt =====
-- internal/logic/token.go: refresh tokens, a payload and its signature under the session's key.
use lets_go.Prelude.{
  ℕ, suc, ◌+◌, ◌*◌, ◌≤◌, ◌≡◌, refl, Bool, true, false, not, ◌&&◌, ◌||◌, Option, none, some, List,
  [], ◌∷◌, ◌++◌, arith, ltb, ◌==◌, if◌then◌else◌, length, All, Bool-cases, inl, inr,
}
use lets_go.Sql.{Result, ok, err}
use lets_go.User.Tables.{Ident, Bytes}

pub record RefreshTokenPayload : Type 0 where
  pub version : ℕ
  pub session_id : Ident
  pub counter : ℕ

-- What tokens use of other packages: `json.Marshal` and `Unmarshal` of a payload, base64 without
-- padding, HMAC-SHA256 and `uuid.Parse`; with what their documentation says of them.
pub record TokenCodec : Type 0 where
  pub marshal : RefreshTokenPayload → Option Bytes
  pub unmarshal : Bytes → Option RefreshTokenPayload
  pub encode : Bytes → Bytes
  pub decode : Bytes → Option Bytes
  pub hmac : Bytes → Bytes → Bytes
  pub is_uuid : Ident → Bool
  -- The alphabet has no full stop, and the text is at most twice as long as the bytes.
  pub decode_encode : (b : Bytes) → decode (encode b) ≡ some b
  pub alphabet : (b : Bytes) → All (λ c. (c == 46) ≡ false) (encode b)
  pub encoded_length : (b : Bytes) → length (encode b) ≤ 2 * length b
  pub digest_length : (key message : Bytes) → length (hmac key message) ≡ 32
  -- A payload that names a UUID has a short text, from which it is read back.
  pub unmarshal_marshal :
      (p : RefreshTokenPayload) (b : Bytes)
      → is_uuid p.session_id ≡ true
      → marshal p ≡ some b
      → (unmarshal b ≡ some p) × (length b ≤ 400) × (1 ≤ length (encode b))

pub record ParsedRefreshToken : Type 0 where
  pub payload : RefreshTokenPayload
  pub encoded_payload : Bytes
  pub signature : Bytes

pub data TokenError : Type 0 where
  key_too_short wrong_version bad_session_id marshal_failed refresh_token_invalid : TokenError

module _ (codec : TokenCodec) where
  -- The last steps of `encodeRefreshToken`.
  abbrev pub sign : Bytes → Option Bytes → Result TokenError Bytes
  sign key none = err TokenError.marshal_failed
  sign key (some bytes) =
      let payload = codec.encode bytes in ok (payload ++ 46 ∷ codec.encode (codec.hmac key payload))

  unfoldable pub encode_refresh_token : RefreshTokenPayload → Bytes → Result TokenError Bytes
  encode_refresh_token payload key =
      if ltb (length key) 32
      then err TokenError.key_too_short
      else if not (payload.version == 1)
      then err TokenError.wrong_version
      else if not (codec.is_uuid payload.session_id)
      then err TokenError.bad_session_id
      else sign key (codec.marshal payload)

-- `strings.Split(token, ".")`
abbrev pub prefix_first : ℕ → List Bytes → List Bytes
prefix_first c [] = (c ∷ []) ∷ []
prefix_first c (part ∷ parts) = (c ∷ part) ∷ parts

abbrev pub split_dots : Bytes → List Bytes
split_dots [] = [] ∷ []
split_dots (c ∷ token) =
    let rest = split_dots token in if c == 46 then [] ∷ rest else prefix_first c rest

abbrev pub eq_bytes : Bytes → Bytes → Bool
eq_bytes [] [] = true
eq_bytes [] (y ∷ ys) = false
eq_bytes (x ∷ xs) [] = false
eq_bytes (x ∷ xs) (y ∷ ys) = x == y && eq_bytes xs ys

module _ (codec : TokenCodec) where
  abbrev pub check_payload :
      Bytes → Bytes → Option RefreshTokenPayload → Result TokenError ParsedRefreshToken
  check_payload encoded signature none = err TokenError.refresh_token_invalid
  check_payload encoded signature (some payload) =
      if not (payload.version == 1) || not (codec.is_uuid payload.session_id)
      then err TokenError.refresh_token_invalid
      else ok (record { payload = payload; encoded_payload = encoded; signature = signature })

  abbrev pub check_signature : Bytes → Bytes → Option Bytes → Result TokenError ParsedRefreshToken
  check_signature encoded bytes none = err TokenError.refresh_token_invalid
  check_signature encoded bytes (some signature) =
      if not (length signature == 32)
      then err TokenError.refresh_token_invalid
      else check_payload encoded signature (codec.unmarshal bytes)

  abbrev pub decode_pair : Bytes → Bytes → Option Bytes → Result TokenError ParsedRefreshToken
  decode_pair encoded signature none = err TokenError.refresh_token_invalid
  decode_pair encoded signature (some bytes) =
      check_signature encoded bytes (codec.decode signature)

  abbrev pub decode_parts : List Bytes → Result TokenError ParsedRefreshToken
  decode_parts (encoded ∷ signature ∷ []) = decode_pair encoded signature (codec.decode encoded)
  decode_parts [] = err TokenError.refresh_token_invalid
  decode_parts (encoded ∷ []) = err TokenError.refresh_token_invalid
  decode_parts (encoded ∷ signature ∷ x ∷ xs) = err TokenError.refresh_token_invalid

  unfoldable pub decode_refresh_token : Bytes → Result TokenError ParsedRefreshToken
  decode_refresh_token token =
      if length token == 0 || ltb 1024 (length token)
      then err TokenError.refresh_token_invalid
      else decode_parts (split_dots token)

  -- `Verify`, of a token that is not nil.
  unfoldable pub verify : ParsedRefreshToken → Bytes → Bool
  verify token key =
      not (ltb (length key) 32) && eq_bytes (codec.hmac key token.encoded_payload) token.signature

eq_bytes_refl : (xs : Bytes) → eq_bytes xs xs ≡ true
eq_bytes_refl [] = refl
eq_bytes_refl (x ∷ xs) = ground (arith, eq_bytes_refl xs)

split_none : (xs : Bytes) → All (λ c. (c == 46) ≡ false) xs → split_dots xs ≡ xs ∷ []
split_none [] h = refl
split_none (x ∷ xs) h = rw (h.0, split_none xs h.1) refl

split_pair :
    (xs ys : Bytes)
    → All (λ c. (c == 46) ≡ false) xs
    → All (λ c. (c == 46) ≡ false) ys
    → split_dots (xs ++ 46 ∷ ys) ≡ xs ∷ ys ∷ []
split_pair [] ys h k = rw (split_none ys k) refl
split_pair (x ∷ xs) ys h k = rw (h.0, split_pair xs ys h.1 k) refl

length-pair : (xs ys : Bytes) → length (xs ++ 46 ∷ ys) ≡ length xs + suc (length ys)
length-pair [] ys = omega arith
length-pair (x ∷ xs) ys = omega (arith, length-pair xs ys)

abbrev signed : TokenCodec → Bytes → Bytes → Bytes
signed codec key bytes =
    let payload = codec.encode bytes in payload ++ 46 ∷ codec.encode (codec.hmac key payload)

-- When `encodeRefreshToken` makes a token, and which.
encoded_token :
    (codec : TokenCodec) (payload : RefreshTokenPayload) (key token : Bytes)
    → encode_refresh_token codec payload key ≡ ok token
    → (ltb (length key) 32 ≡ false)
      × ((payload.version == 1) ≡ true)
      × (codec.is_uuid payload.session_id ≡ true)
      × ((bytes : Bytes) × (codec.marshal payload ≡ some bytes) × (token ≡ signed codec key bytes))
unfolding encode_refresh_token
encoded_token codec payload key token h = elim (Bool-cases (ltb (length key) 32)) [
  | inl short ↦ let h' = rw short at h in cc
  | inr long ↦ elim (Bool-cases (payload.version == 1)) [
    | inr other ↦ let h' = rw (long, other) at h in cc
    | inl one ↦ elim (Bool-cases (codec.is_uuid payload.session_id)) [
      | inr bad ↦ let h' = rw (long, one, bad) at h in cc
      | inl id ↦ (long, one, id, marshalled (codec.marshal payload) refl (rw (long, one, id) at h))
    ]
  ]
]
  where
    marshalled :
        (bytes : Option Bytes)
        → codec.marshal payload ≡ bytes
        → sign codec key bytes ≡ ok token
        → (bytes : Bytes) × (codec.marshal payload ≡ some bytes) × (token ≡ signed codec key bytes)
    marshalled none e h = cc
    marshalled (some bytes) e h = (bytes, e, cc)

-- A refresh token that `encodeRefreshToken` makes is read back by `decodeRefreshToken`, as the
-- payload that it was made of, and passes `Verify` under the key that it was made with.
pub encode-decode :
    (codec : TokenCodec) (payload : RefreshTokenPayload) (key token : Bytes)
    → encode_refresh_token codec payload key ≡ ok token
    → (parsed : ParsedRefreshToken) × (decode_refresh_token codec token ≡ ok parsed)
      × (parsed.payload ≡ payload)
      × (verify codec parsed key ≡ true)
unfolding encode_refresh_token decode_refresh_token verify
encode-decode codec payload key token made =
    let (long, one, id, (bytes, marshalled, same)) = encoded_token codec payload key token made in
    let (read, short, some_text) = codec.unmarshal_marshal payload bytes id marshalled in
    let encoded = codec.encode bytes in
    let signature = codec.hmac key encoded in
    let size = length-pair encoded (codec.encode signature) in
    let fits : (length (signed codec key bytes) == 0 || ltb 1024 (length (signed codec key bytes)))
        ≡ false =
      ground (
        arith,
        size,
        short,
        codec.encoded_length bytes,
        codec.encoded_length signature,
        codec.digest_length key encoded,
      ) in
    let parts =
      split_pair encoded (codec.encode signature) (codec.alphabet bytes)
        (codec.alphabet signature) in
    let sized : (length signature == 32) ≡ true = ground (arith, codec.digest_length key encoded) in
    (
      record { payload = payload; encoded_payload = encoded; signature = signature },
      rw
          (
            same,
            fits,
            parts,
            codec.decode_encode bytes,
            codec.decode_encode signature,
            sized,
            read,
            one,
            id,
          )
          refl,
      refl,
      rw (long, eq_bytes_refl signature) refl,
    )
