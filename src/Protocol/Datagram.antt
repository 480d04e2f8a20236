-- ===== src/Protocol/Datagram.antt =====
-- The audio datagram: its header and its payload survive the wire, and nothing else decodes.
use mathlib.Core.List.{append_assoc, append-nil}
use Prim.Native.Nat.add
use native.Mathlib.Nat.{zero-add}
use voicemcu.Base.{
  ℕ, zero, suc, ◌+◌, ◌<◌, ◌≡◌, refl, List, [], ◌∷◌, ◌++◌, ok, err, arith, length, length-append,
  take, drop, take-append_left, drop-append_left, take-append-drop, length-take, length-drop, ltb,
  ltb-false, ltb→lt, ◌⊎◌, inl, inr, Bool-cases,
}
use voicemcu.Base.Bytes.{
  to_be_bytes, from_be_bytes, from_be_bytes-lt, bytes_bound, IsBytes, length-to_be_bytes,
  from_be_bytes-to_be_bytes, to_be_bytes-from_be_bytes,
}
use voicemcu.Protocol.{
  AudioFrameHeader, header_size, to_bytes, from_bytes, encode_audio_datagram, decode_audio_datagram,
  protocol,
}

-- The fields are a u64 and two u32.
pub record HeaderInRange (h : AudioFrameHeader) : Type 0 where
  pub client_id : h.client_id < bytes_bound 8
  pub sequence : h.sequence < bytes_bound 4
  pub timestamp : h.timestamp < bytes_bound 4

pub length-to_bytes : (h : AudioFrameHeader) → length (to_bytes h) ≡ header_size
unfolding to_bytes
length-to_bytes h = omega (
  arith,
  length-append (to_be_bytes 8 h.client_id) (to_be_bytes 4 h.sequence ++ to_be_bytes 4 h.timestamp),
  length-append (to_be_bytes 4 h.sequence) (to_be_bytes 4 h.timestamp),
  length-to_be_bytes 8 h.client_id,
  length-to_be_bytes 4 h.sequence,
  length-to_be_bytes 4 h.timestamp,
)

pub length-datagram :
    (h : AudioFrameHeader) (packet : List ℕ)
    → length (encode_audio_datagram h packet) ≡ header_size + length packet
unfolding encode_audio_datagram
length-datagram h packet = omega (arith, length-append (to_bytes h) packet, length-to_bytes h)

-- A prefix of a known length comes off.
take_prefix {ℓ} : {A : Type ℓ} (n : ℕ) (xs ys : List A) → length xs ≡ n → take n (xs ++ ys) ≡ xs
take_prefix n xs ys e = rw (← e) (take-append_left xs ys)

drop_prefix {ℓ} : {A : Type ℓ} (n : ℕ) (xs ys : List A) → length xs ≡ n → drop n (xs ++ ys) ≡ ys
drop_prefix n xs ys e = rw (← e) (drop-append_left xs ys)

take_whole {ℓ} : {A : Type ℓ} (n : ℕ) (xs : List A) → length xs ≡ n → take n xs ≡ xs
take_whole n xs e = rw (append-nil xs) at (take_prefix n xs [] e)

module _ (h : AudioFrameHeader) (r : HeaderInRange h) where
  abbrev id_bytes : List ℕ
  id_bytes = to_be_bytes 8 h.client_id

  abbrev sequence_bytes : List ℕ
  sequence_bytes = to_be_bytes 4 h.sequence

  abbrev timestamp_bytes : List ℕ
  timestamp_bytes = to_be_bytes 4 h.timestamp

  timestamp_part : drop 12 (id_bytes ++ (sequence_bytes ++ timestamp_bytes)) ≡ timestamp_bytes
  timestamp_part = rw (← append_assoc id_bytes sequence_bytes timestamp_bytes) (
      drop_prefix 12 (id_bytes ++ sequence_bytes) timestamp_bytes (
        omega (
          arith,
          length-append id_bytes sequence_bytes,
          length-to_be_bytes 8 h.client_id,
          length-to_be_bytes 4 h.sequence,
        )))

  from_bytes-to_bytes : from_bytes (to_bytes h) ≡ h
  unfolding from_bytes to_bytes
  from_bytes-to_bytes = rw (
    take_prefix 8 id_bytes (sequence_bytes ++ timestamp_bytes) (length-to_be_bytes 8 h.client_id),
    drop_prefix 8 id_bytes (sequence_bytes ++ timestamp_bytes) (length-to_be_bytes 8 h.client_id),
    timestamp_part,
    take_prefix 4 sequence_bytes timestamp_bytes (length-to_be_bytes 4 h.sequence),
    take_whole 4 timestamp_bytes (length-to_be_bytes 4 h.timestamp),
    from_be_bytes-to_be_bytes 8 h.client_id r.client_id,
    from_be_bytes-to_be_bytes 4 h.sequence r.sequence,
    from_be_bytes-to_be_bytes 4 h.timestamp r.timestamp,
  )

-- A datagram that was encoded from a header in range and any payload decodes to the two.
pub decode-encode :
    (h : AudioFrameHeader) (payload : List ℕ)
    → HeaderInRange h
    → decode_audio_datagram (encode_audio_datagram h payload) ≡ ok (h, payload)
unfolding decode_audio_datagram encode_audio_datagram
decode-encode h payload r = rw (
  take_prefix 16 (to_bytes h) payload (length-to_bytes h),
  drop_prefix 16 (to_bytes h) payload (length-to_bytes h),
  from_bytes-to_bytes h r,
  ltb-false (length (to_bytes h ++ payload)) 16
      (omega (arith, length-to_bytes h, length-append (to_bytes h) payload)),
)

IsBytes-take : (n : ℕ) (bs : List ℕ) → IsBytes bs → IsBytes (take n bs)
IsBytes-take zero bs h = tt
IsBytes-take (suc n) [] h = tt
IsBytes-take (suc n) (b ∷ bs) h = (h.0, IsBytes-take n bs h.1)

IsBytes-drop : (n : ℕ) (bs : List ℕ) → IsBytes bs → IsBytes (drop n bs)
IsBytes-drop zero bs h = h
IsBytes-drop (suc n) [] h = tt
IsBytes-drop (suc n) (b ∷ bs) h = IsBytes-drop n bs h.1

drop-nil {ℓ} : {A : Type ℓ} (n : ℕ) → drop {A = A} n [] ≡ []
drop-nil zero = refl
drop-nil (suc n) = refl

drop-drop {ℓ} : {A : Type ℓ} (m n : ℕ) (xs : List A) → drop n (drop m xs) ≡ drop (m + n) xs
drop-drop zero n xs = rw zero-add
drop-drop (suc m) n [] = rw (add.suc m n) (drop-nil n)
drop-drop (suc m) n (x ∷ xs) = rw (add.suc m n) (drop-drop m n xs)

to_bytes-from_bytes :
    (bs : List ℕ) → length bs ≡ header_size → IsBytes bs → to_bytes (from_bytes bs) ≡ bs
unfolding to_bytes from_bytes
to_bytes-from_bytes bs e h =
    rw
      (
        to_be_bytes-from_be_bytes 8 (take 8 bs) (omega (arith, length-take 8 bs))
            (IsBytes-take 8 bs h),
        to_be_bytes-from_be_bytes 4 (take 4 (drop 8 bs))
            (omega (arith, length-take 4 (drop 8 bs), length-drop 8 bs))
            (IsBytes-take 4 (drop 8 bs) (IsBytes-drop 8 bs h)),
        to_be_bytes-from_be_bytes 4 (take 4 (drop 12 bs))
            (omega (arith, length-take 4 (drop 12 bs), length-drop 12 bs))
            (IsBytes-take 4 (drop 12 bs) (IsBytes-drop 12 bs h)),
      )
      (rw
        (
          ← drop-drop 8 4 bs,
          take_whole 4 (drop 4 (drop 8 bs))
              (omega (arith, length-drop 4 (drop 8 bs), length-drop 8 bs)),
          take-append-drop 4 (drop 8 bs),
        )
        (take-append-drop 8 bs))

-- A byte string decodes exactly when it holds a header, and what it decodes to encodes to it.
pub encode-decode :
    (bytes : List ℕ)
    → IsBytes bytes
    → ((length bytes < header_size)
        × (decode_audio_datagram bytes ≡ err (protocol "datagram too short for header")))
      ⊎ ((h : AudioFrameHeader) × (payload : List ℕ) × (decode_audio_datagram bytes
            ≡ ok (h, payload))
          × (encode_audio_datagram h payload ≡ bytes))
unfolding decode_audio_datagram encode_audio_datagram
encode-decode bytes h = elim (Bool-cases (ltb (length bytes) header_size)) [
  | inl short ↦ inl (ltb→lt (length bytes) header_size short, rw short)
  | inr long ↦ inr (
    from_bytes (take header_size bytes),
    drop header_size bytes,
    rw long,
    rw
        (to_bytes-from_bytes (take header_size bytes)
          (ground (arith, length-take header_size bytes)) (IsBytes-take header_size bytes h))
        (take-append-drop header_size bytes),
  )
]

-- The sequence number of a datagram is a u32.
pub sequence-lt :
    (bytes : List ℕ) (h : AudioFrameHeader) (payload : List ℕ)
    → IsBytes bytes
    → decode_audio_datagram bytes ≡ ok (h, payload)
    → h.sequence < bytes_bound 4
unfolding decode_audio_datagram from_bytes
sequence-lt bytes h payload b e = elim (Bool-cases (ltb (length bytes) header_size)) [
  | inl short ↦ absurd (ground (arith, e, short))
  | inr long ↦
      let part = take 4 (drop 8 (take header_size bytes)) in
      let size : length part ≡ 4 = ground (
        arith,
        long,
        length-take 4 (drop 8 (take header_size bytes)),
        length-drop 8 (take header_size bytes),
        length-take header_size bytes,
      ) in
      let small : from_be_bytes part < bytes_bound 4 = rw size at (
        from_be_bytes-lt part
          (IsBytes-take 4 _ (IsBytes-drop 8 _ (IsBytes-take header_size bytes b)))) in
      ground (arith, e, long, small)
]
