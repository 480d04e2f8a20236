-- ===== src/Protocol/Framing.antt =====
-- Length-prefixed frames on a stream: what one side writes the other reads back.
use mathlib.Core.List.{append_assoc}
use voicemcu.Base.{
  Result-cases, Bool, Bool-cases, ℕ, zero, suc, ◌+◌, ◌-◌, ◌%◌, ◌^◌, ◌≤◌, ◌<◌, ◌≡◌, ◌⊎◌, inl, inr,
  refl, ap, ◌∙◌, List, [], ◌∷◌, ◌++◌, Result, ok, err, ◌>>=◌, ◌>>◌, map_err, ensure, arith, length,
  length-append, take, take-append_left, drop-append_left, length-take, length-drop, leb, le→leb,
  if◌then◌else◌, Option, none, some,
}
use voicemcu.Base.Bytes.{
  to_be_bytes, bytes_bound, from_be_bytes, length-to_be_bytes, from_be_bytes-to_be_bytes,
}
use voicemcu.Protocol.{
  SignalMessage, Postcard, end_of_stream, too_large, undecodable, max_signal_len, read_exact,
  read_or_end, encode_signal, decode_signal, read_signal, write_signal, frame_signal,
}

-- What `postcard` promises: the encoding of a message decodes to it.
abbrev pub RoundTrips : Postcard → Type 0
RoundTrips p =
    (msg : SignalMessage) (bytes : List ℕ)
    → p.to_allocvec msg ≡ ok bytes
    → p.from_slice bytes ≡ ok msg

read_or_end-append :
    (n : ℕ) (xs ys : List ℕ) → length xs ≡ n → read_or_end n (xs ++ ys) ≡ ok (xs, ys)
unfolding read_or_end read_exact
read_or_end-append n xs ys e = rw (← e) (
    ground (
      arith,
      take-append_left xs ys,
      drop-append_left xs ys,
      le→leb (length xs) (length (xs ++ ys)) (omega (arith, length-append xs ys)),
    ))

read_or_end_short : (n : ℕ) (xs : List ℕ) → length xs < n → read_or_end n xs ≡ err end_of_stream
unfolding read_or_end read_exact
read_or_end_short n xs h = ground arith

read_or_end_shorter :
    (n : ℕ) (stream : List ℕ)
    → ((bytes rest : List ℕ)
        → read_or_end n stream ≡ ok (bytes, rest)
        → length rest + n ≡ length stream)
unfolding read_or_end read_exact
read_or_end_shorter n stream bytes rest h = ground (arith, h, length-drop n stream)

le_or_lt : (a b : ℕ) → (a ≤ b) ⊎ (b < a)
le_or_lt a b = omega arith

take-append {ℓ} :
    {A : Type ℓ} (xs ys : List A) (k : ℕ)
    → length xs ≤ k
    → take k (xs ++ ys) ≡ xs ++ take (k - length xs) ys
take-append [] ys k h = let same : k - 0 ≡ k = omega arith in rw same
take-append (x ∷ xs) ys zero h = absurd (omega arith)
take-append (x ∷ xs) ys (suc k) h =
    let same : suc k - suc (length xs) ≡ k - length xs = omega arith in
    rw same (ap (◌∷◌ x) (take-append xs ys k (omega arith)))

abbrev pub to_option {ℓ} : {E A : Type ℓ} → Result E A → Option A
to_option (ok a) = some a
to_option (err e) = none

module _ (p : Postcard) where
  -- A written frame is a length and an encoding of that length.
  write_cases :
      (msg : SignalMessage) (frame : List ℕ)
      → write_signal p msg ≡ ok frame
      → (bytes : List ℕ) × (p.to_allocvec msg ≡ ok bytes)
        × (frame ≡ to_be_bytes 4 (length bytes % 2 ^ 32) ++ bytes)
  unfolding write_signal encode_signal
  write_cases msg frame h = go (p.to_allocvec msg) refl
    where
      go :
          (r : Result _ (List ℕ))
          → p.to_allocvec msg ≡ r
          → (bytes : List ℕ) × (p.to_allocvec msg ≡ ok bytes)
            × (frame ≡ to_be_bytes 4 (length bytes % 2 ^ 32) ++ bytes)
      go (ok bytes) e = (bytes, e, ground (arith, e, h))
      go (err x) e = absurd (ground (arith, e, h))

  -- The buffer that the server pushes is, byte for byte, what `write_signal` puts on a stream, and
  -- there is none exactly where `write_signal` fails.
  pub frame-write : (msg : SignalMessage) → frame_signal p msg ≡ to_option (write_signal p msg)
  unfolding frame_signal write_signal
  frame-write msg = ground arith

  -- The reader after the length: the encoding, or one of the two refusals.
  read_prefix :
      (n : ℕ) (tail : List ℕ)
      → n < bytes_bound 4
      → read_signal p (to_be_bytes 4 n ++ tail) ≡ (do
        ensure (leb n max_signal_len) too_large
        (bytes, rest) ← read_or_end n tail
        msg ← map_err undecodable (decode_signal p bytes)
        ok (msg, rest))
  unfolding read_signal
  read_prefix n tail h = rw (
    read_or_end-append 4 (to_be_bytes 4 n) tail (length-to_be_bytes 4 n),
    from_be_bytes-to_be_bytes 4 n h,
  )

  read_frame :
      (msg : SignalMessage) (bytes rest : List ℕ)
      → p.from_slice bytes ≡ ok msg
      → length bytes < bytes_bound 4
      → read_signal p (to_be_bytes 4 (length bytes) ++ (bytes ++ rest))
        ≡ (if leb (length bytes) max_signal_len then ok (msg, rest) else err too_large)
  unfolding decode_signal
  read_frame msg bytes rest decodes h =
      rw
        (
          read_prefix (length bytes) (bytes ++ rest) h,
          read_or_end-append (length bytes) bytes rest refl,
          decodes,
        )
        (ground arith)

  -- A message that is read has taken bytes of the stream.
  pub read_signal_shorter :
      (stream rest : List ℕ) (msg : SignalMessage)
      → read_signal p stream ≡ ok (msg, rest)
      → length rest < length stream
  unfolding read_signal
  read_signal_shorter stream rest msg h = elim (Result-cases (read_or_end 4 stream)) [
    | inl (e, k) ↦ absurd (ground (arith, h, k))
    | inr ((len_buf, after), k) ↦ elim (Bool-cases (leb (from_be_bytes len_buf) max_signal_len)) [
      | inr large ↦ absurd (ground (arith, h, k, large))
      | inl small ↦ elim (Result-cases (read_or_end (from_be_bytes len_buf) after)) [
        | inl (e, j) ↦ absurd (ground (arith, h, k, small, j))
        | inr ((bytes, last), j) ↦
            elim (Result-cases (map_err undecodable (decode_signal p bytes))) [
              | inl (e, i) ↦ absurd (ground (arith, h, k, small, j, i))
              | inr (m, i) ↦
                  let same : last ≡ rest = ground (arith, h, k, small, j, i) in
                  omega (
                    arith,
                    ap length same,
                    read_or_end_shorter 4 stream len_buf after k,
                    read_or_end_shorter (from_be_bytes len_buf) after bytes last j,
                  )
            ]
      ]
    ]
  ]

  pub read_signal-nil : read_signal p [] ≡ err end_of_stream
  unfolding read_signal
  read_signal-nil = rw (read_or_end_short 4 [] (omega arith)) refl

  pub length-write_signal :
      (msg : SignalMessage) (frame : List ℕ) → write_signal p msg ≡ ok frame → 4 ≤ length frame
  length-write_signal msg frame h =
      let (bytes, encoded, shape) = write_cases msg frame h in
      omega (
        arith,
        ap length shape,
        length-append (to_be_bytes 4 (length bytes % 2 ^ 32)) bytes,
        length-to_be_bytes 4 (length bytes % 2 ^ 32),
      )

  module _ (laws : RoundTrips p) (msg : SignalMessage) (frame : List ℕ)
      (written : write_signal p msg ≡ ok frame) where
    length_cases :
        (bytes : List ℕ)
        → frame ≡ to_be_bytes 4 (length bytes % 2 ^ 32) ++ bytes
        → length frame ≡ 4 + length bytes
    length_cases bytes shape = rw shape (
        omega (
          arith,
          length-append (to_be_bytes 4 (length bytes % 2 ^ 32)) bytes,
          length-to_be_bytes 4 (length bytes % 2 ^ 32),
        ))

    -- Whatever follows a written frame, the reader gives back the message and leaves the rest,
    -- unless the encoding is longer than the reader's limit: then it refuses the frame.
    pub read-write :
        (rest : List ℕ)
        → length frame < 4 + 2 ^ 32
        → read_signal p (frame ++ rest)
          ≡ (if leb (length frame) (4 + max_signal_len) then ok (msg, rest) else err too_large)
    read-write rest h =
        let (bytes, encoded, shape) = write_cases msg frame written in
        let size = length_cases bytes shape in
        let plain : length bytes % 2 ^ 32 ≡ length bytes = omega arith in
        rw (size, shape, plain, append_assoc (to_be_bytes 4 (length bytes)) bytes rest)
          (rw (read_frame msg bytes rest (laws msg bytes encoded) (omega arith)) (ground arith))

    pub read-write_fits :
        (rest : List ℕ)
        → length frame ≤ 4 + max_signal_len
        → read_signal p (frame ++ rest) ≡ ok (msg, rest)
    read-write_fits rest h =
        read-write rest (omega (arith, h))
        ∙ ap (λ (b : Bool). if b then ok (msg, rest) else err too_large)
            (le→leb (length frame) (4 + max_signal_len) h)

    -- A frame that is cut off anywhere is the end of the stream, never another message.
    pub read-truncated :
        (k : ℕ)
        → k < length frame
        → length frame ≤ 4 + max_signal_len
        → read_signal p (take k frame) ≡ err end_of_stream
    unfolding read_signal
    read-truncated k h fits =
        let (bytes, encoded, shape) = write_cases msg frame written in
        let size = length_cases bytes shape in
        let plain : length bytes % 2 ^ 32 ≡ length bytes = omega arith in
        rw (shape, plain) (cut bytes size (le_or_lt 4 k))
      where
        cut :
            (bytes : List ℕ)
            → length frame ≡ 4 + length bytes
            → (4 ≤ k) ⊎ (k < 4)
            → read_signal p (take k (to_be_bytes 4 (length bytes) ++ bytes)) ≡ err end_of_stream
        cut bytes size (inl long) =
            rw
              (
                take-append (to_be_bytes 4 (length bytes)) bytes k
                    (omega (arith, length-to_be_bytes 4 (length bytes))),
                length-to_be_bytes 4 (length bytes),
              )
              (read_prefix (length bytes) (take (k - 4) bytes) (omega arith)
                ∙ ground (
                  arith,
                  read_or_end_short (length bytes) (take (k - 4) bytes)
                      (omega (arith, length-take (k - 4) bytes)),
                ))
        cut bytes size (inr short) = rw (
          read_or_end_short 4 (take k (to_be_bytes 4 (length bytes) ++ bytes))
              (omega (arith, length-take k (to_be_bytes 4 (length bytes) ++ bytes))),
          read_signal,
        )
