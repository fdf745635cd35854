-- ===== src/Protocol/Frame/RoundTrip.antt =====
-- internal/protocol/frame.go: what is encoded is decoded, and nothing else is.
use goxfer.Base.{
  ℕ, ◌+◌, ◌≤◌, ◌<◌, ◌≡◌, refl, sym, ap, ◌∙◌, Bool, true, false, [], ◌∷◌, ◌++◌, append_assoc, Bytes,
  length, all, ltb, leb, if◌then◌else◌, arith, guard, ◌>>◌, >>=-done, >>=-fail, >>=-eq-done,
  guard-eq-done, &&-elim, all-append, done, fail, ok, err, take-append_length, drop-append_length,
  take-append-drop, length-append, length-take, Bool-cases, ◌⊎◌, inl, inr,
}
use goxfer.Protocol.Frame.{
  payload_too_large, incoming_too_large, eof, unexpected_eof, max_frame_size, put_uint32, uint32,
  encode_frame, read_full, decode_frame,
}

read_full-append : (xs ys : Bytes) → read_full (length xs) (xs ++ ys) ≡ done xs ys
unfolding read_full
read_full-append xs ys =
    ground (arith, take-append_length xs ys, drop-append_length xs ys, length-append xs ys)

-- A length that fits in a frame survives its four header bytes.
uint32-put_uint32 : (n : ℕ) → n ≤ max_frame_size → uint32 (put_uint32 n) ≡ n
uint32-put_uint32 n h = omega arith

-- After a whole header the size is checked before any byte of the payload is read.
decode_frame_header :
    (a b c d : ℕ) (s : Bytes)
    → decode_frame (a ∷ b ∷ c ∷ d ∷ s) ≡ (
        if leb (uint32 (a ∷ b ∷ c ∷ d ∷ [])) max_frame_size
        then read_full (uint32 (a ∷ b ∷ c ∷ d ∷ [])) s
        else fail incoming_too_large s)
unfolding decode_frame
decode_frame_header a b c d s =
    >>=-done (read_full 4) _ (a ∷ b ∷ c ∷ d ∷ s) (read_full-append (a ∷ b ∷ c ∷ d ∷ []) s)
    ∙ guarded (leb (uint32 (a ∷ b ∷ c ∷ d ∷ [])) max_frame_size)
  where
    guarded :
        (fits : Bool)
        → (guard fits incoming_too_large >> read_full (uint32 (a ∷ b ∷ c ∷ d ∷ []))) s
          ≡ (if fits then read_full (uint32 (a ∷ b ∷ c ∷ d ∷ [])) s else fail incoming_too_large s)
    guarded true = refl
    guarded false = refl

decode_frame-put_uint32 :
    (n : ℕ) (s : Bytes) → n ≤ max_frame_size → decode_frame (put_uint32 n ++ s) ≡ read_full n s
decode_frame-put_uint32 n s h =
    decode_frame_header _ _ _ _ s ∙ ground (arith, uint32-put_uint32 n h)

-- What EncodeFrame made of a payload is decoded from the front of any stream, and the rest of the
-- stream is left.
pub decode_frame-encode_frame :
    (payload frame rest : Bytes)
    → encode_frame payload ≡ ok frame
    → decode_frame (frame ++ rest) ≡ done payload rest
unfolding encode_frame
decode_frame-encode_frame payload frame rest h = ground (
  arith,
  read_full-append payload rest,
  decode_frame-put_uint32 (length payload) (payload ++ rest),
  append_assoc (put_uint32 (length payload)) payload rest,
)

-- EncodeFrame fails on the payloads above MaxFrameSize and on no other, and a frame has four
-- bytes more than its payload.
pub encode_frame_cases :
    (payload : Bytes)
    → ((length payload ≤ max_frame_size)
        × ((f : Bytes) × (encode_frame payload ≡ ok f) × (length f ≡ length payload + 4)))
      ⊎ ((max_frame_size < length payload) × (encode_frame payload ≡ err payload_too_large))
unfolding encode_frame
encode_frame_cases payload = elim (Bool-cases (ltb max_frame_size (length payload))) [
  | inl big ↦ inr (ground arith, rw big)
  | inr fits ↦ inl (ground arith, (put_uint32 (length payload) ++ payload, rw fits, omega arith))
]

read_full-eq-done :
    (n : ℕ) (s : Bytes) {p r : Bytes} → read_full n s ≡ done p r → (length p ≡ n) × (s ≡ p ++ r)
unfolding read_full
read_full-eq-done n s h = elim (Bool-cases (leb n (length s))) [
  | inl enough ↦ ground (arith, length-take n s, take-append-drop n s)
  | inr short ↦ ground arith
]

put_uint32-uint32 :
    (a b c d : ℕ)
    → a < 256
    → b < 256
    → c < 256
    → d < 256
    → put_uint32 (uint32 (a ∷ b ∷ c ∷ d ∷ [])) ≡ a ∷ b ∷ c ∷ d ∷ []
put_uint32-uint32 a b c d ha hb hc hd = ground arith

-- What a header must be for a payload to follow it.
abbrev IsHeader : Bytes → Bytes → Type 0
IsHeader header payload = (length payload ≤ max_frame_size) × (header ≡ put_uint32 (length payload))

IsHeader-uint32 :
    (header payload : Bytes)
    → length header ≡ 4
    → all (λ b. ltb b 256) header ≡ true
    → length payload ≡ uint32 header
    → leb (uint32 header) max_frame_size ≡ true
    → IsHeader header payload
IsHeader-uint32 [] payload l bytes e fits = absurd (omega arith)
IsHeader-uint32 (a ∷ []) payload l bytes e fits = absurd (omega arith)
IsHeader-uint32 (a ∷ b ∷ []) payload l bytes e fits = absurd (omega arith)
IsHeader-uint32 (a ∷ b ∷ c ∷ []) payload l bytes e fits = absurd (omega arith)
IsHeader-uint32 (a ∷ b ∷ c ∷ d ∷ []) payload l bytes e fits = (
  ground arith,
  rw e (
      ground (
        arith,
        put_uint32-uint32 a b c d (ground arith) (ground arith) (ground arith) (ground arith),
      )),
)
IsHeader-uint32 (a ∷ b ∷ c ∷ d ∷ e ∷ s) payload l bytes _ fits = absurd (omega arith)

-- A stream of bytes from which DecodeFrame took a payload begins with the frame that EncodeFrame
-- makes of this payload; so no payload above MaxFrameSize is ever delivered.
pub decode_frame-encode_frame_inv :
    (s payload rest : Bytes)
    → all (λ b. ltb b 256) s ≡ true
    → decode_frame s ≡ done payload rest
    → (frame : Bytes) × (encode_frame payload ≡ ok frame) × (s ≡ frame ++ rest)
unfolding encode_frame decode_frame
decode_frame-encode_frame_inv s payload rest bytes h =
    let (header, t, front, more) = >>=-eq-done (read_full 4) _ s h in
    let (x, u, checked, body) =
      >>=-eq-done (guard (leb (uint32 header) max_frame_size) _) _ t more in
    let (fits, same) =
      guard-eq-done (leb (uint32 header) max_frame_size) incoming_too_large t checked in
    let (four, split) = read_full-eq-done 4 s front in
    let (size, split') = read_full-eq-done (uint32 header) u body in
    let (small, e) =
      IsHeader-uint32 header payload four
        (&&-elim (all (λ b. ltb b 256) header) (all (λ b. ltb b 256) t)
          (sym (all-append _ header t) ∙ sym (ap (all (λ b. ltb b 256)) split) ∙ bytes)).0
        size fits in
    (
      put_uint32 (length payload) ++ payload,
      ground arith,
      cc (append_assoc (put_uint32 (length payload)) payload rest),
    )

read_full_short :
    (n : ℕ) (s : Bytes)
    → length s < n
    → (read_full n s ≡ fail eof []) ⊎ (read_full n s ≡ fail unexpected_eof [])
unfolding read_full
read_full_short n [] h = inl (ground arith)
read_full_short n (b ∷ s) h = inr (ground arith)

decode_frame_short :
    (s : Bytes)
    → length s < 4
    → (decode_frame s ≡ fail eof []) ⊎ (decode_frame s ≡ fail unexpected_eof [])
unfolding decode_frame
decode_frame_short s h = elim (read_full_short 4 s h) [
  | inl e ↦ inl (>>=-fail (read_full 4) _ s e)
  | inr e ↦ inr (>>=-fail (read_full 4) _ s e)
]

-- A frame that is cut off before its end, at any place, makes DecodeFrame report an end of file.
pub decode_frame_truncated :
    (payload xs ys : Bytes)
    → encode_frame payload ≡ ok (xs ++ ys)
    → 0 < length ys
    → (decode_frame xs ≡ fail eof []) ⊎ (decode_frame xs ≡ fail unexpected_eof [])
unfolding encode_frame
decode_frame_truncated payload [] ys h cut = decode_frame_short _ (omega arith)
decode_frame_truncated payload (a ∷ []) ys h cut = decode_frame_short _ (omega arith)
decode_frame_truncated payload (a ∷ b ∷ []) ys h cut = decode_frame_short _ (omega arith)
decode_frame_truncated payload (a ∷ b ∷ c ∷ []) ys h cut = decode_frame_short _ (omega arith)
decode_frame_truncated payload (a ∷ b ∷ c ∷ d ∷ t) ys h cut =
    let small : length payload ≤ max_frame_size = ground arith in
    let body : payload ≡ t ++ ys = ground arith in
    let front : a ∷ b ∷ c ∷ d ∷ t ≡ put_uint32 (length payload) ++ t = ground arith in
    rw (front, decode_frame-put_uint32 (length payload) t small)
      (read_full_short (length payload) t (omega (arith, ap length body, length-append t ys)))
