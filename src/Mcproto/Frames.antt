-- ===== src/Mcproto/Frames.antt =====
-- ReadFrame: the bytes it takes, the bounds of what it returns, and the errors.
use proxygo.Base.{
  ℕ, zero, suc, ◌+◌, ◌^◌, ◌≤◌, ◌<◌, ◌≡◌, ◌∙◌, arith, false, List, [], ◌∷◌, ◌++◌, append_assoc,
  length, length-append, drop, ok, err, ◌⊎◌, if◌then◌else◌, inl, inr, Bool-cases, length-drop, take,
  take-append-drop, length-take,
}
use proxygo.Base.Stream.{
  IoError, Stream, stream, read_full, read_full_one, read_full-append, read_full_short, short_read,
  ◌>>=◌, return, fail, and_then-ok,
}
use proxygo.Mcproto.{
  io, bad_frame_length, Frame, max_frame, frame_length, bad_length, read_frame, decode_varint,
  append_varint, split_payload, or_group,
}
use proxygo.Mcproto.Varint.{groups, append_varint-groups}
use proxygo.Mcproto.Decode.{frame_length-groups}

-- The bytes that the loop has seen are the front of what there was.
frame_length_splits :
    (left i v : ℕ) (seen bs : List ℕ) (f : IoError) (n : ℕ) (prefix : List ℕ) (t : Stream)
    → frame_length left i v seen (stream bs f) ≡ (ok (n, prefix), t)
    → (prefix ++ t.pending ≡ seen ++ bs)
      × (t.fault ≡ f)
      × (length prefix ≤ length seen + left)
      × (length seen < length prefix)
unfolding frame_length
frame_length_splits zero i v seen bs f n prefix t h = cc
frame_length_splits (suc left) i v seen [] f n prefix t h = unfold read_full in cc
frame_length_splits (suc left) i v seen (b ∷ bs) f n prefix t h = ground (
  arith,
  read_full_one io b bs f,
  append_assoc seen (b ∷ []) bs,
  length-append seen (b ∷ []),
  frame_length_splits left (i + 1) (or_group v b i) (seen ++ (b ∷ [])) bs f n prefix t,
)

-- The frame that ReadFrame makes of a prefix and the payload that it announces.
payload_frame :
    (n : ℕ) (prefix : List ℕ) (s : Stream) (g : Frame) (t : Stream)
    → bad_length n ≡ false
    → (do payload ← read_full io n; return (split_payload prefix payload)) s ≡ (ok g, t)
    → (g.raw ++ t.pending ≡ prefix ++ s.pending)
      × (t.fault ≡ s.fault)
      × (length g.raw ≡ length prefix + n)
      × (length g.body ≤ n)
      × (1 ≤ n)
      × (n ≤ max_frame)
unfolding read_full
payload_frame n prefix s g t h e =
    let payload = take n s.pending in
    ground (
      arith,
      take-append-drop n s.pending,
      length-take n s.pending,
      append_assoc prefix payload (drop n s.pending),
      length-append prefix payload,
      length-drop (decode_varint payload).1 payload,
    )

-- What ReadFrame does once the length `n` is read.
frame_of_length :
    (n : ℕ) (prefix : List ℕ) (s u : Stream) (g : Frame) (t : Stream)
    → frame_length 5 0 0 [] s ≡ (ok (n, prefix), u)
    → (if bad_length n
          then fail (bad_frame_length n)
          else (do payload ← read_full io n; return (split_payload prefix payload)))
        u
      ≡ (ok g, t)
    → (g.raw ++ t.pending ≡ s.pending)
      × (t.fault ≡ s.fault)
      × (length g.raw ≤ 5 + max_frame)
      × (length g.body < length g.raw)
frame_of_length n prefix s u g t took more = elim (Bool-cases (bad_length n)) [
  | inl bad ↦ let e = rw bad at more in cc
  | inr good ↦
      let front = frame_length_splits 5 0 0 [] s.pending s.fault n prefix u took in
      let back = payload_frame n prefix u g t good (rw good at more) in
      (
        back.0 ∙ front.0,
        back.1 ∙ front.1,
        omega (arith, front.2, back.2, back.5),
        omega (arith, front.3, back.2, back.3),
      )
]

-- Whatever frame ReadFrame returns, its raw bytes are exactly what it took off the stream, at most
-- five bytes of prefix and 65536 of payload; the body is shorter, and a later read still ends in
-- the stream's own error.
pub read_frame_splits :
    (s : Stream) (g : Frame) (t : Stream)
    → read_frame s ≡ (ok g, t)
    → (g.raw ++ t.pending ≡ s.pending)
      × (t.fault ≡ s.fault)
      × (length g.raw ≤ 5 + max_frame)
      × (length g.body < length g.raw)
unfolding read_frame
read_frame_splits s g t h =
    let ((n, prefix), u, took, more) = and_then-ok (frame_length 5 0 0 [] s) _ h in
    frame_of_length n prefix s u g t took more

-- A frame whose length prefix announces nothing, or more than MaxFrame, is refused once the prefix
-- is read.
pub read_frame_bad_length :
    (n : ℕ) (rest : List ℕ) (f : IoError)
    → n < 2 ^ 32
    → (n ≡ 0) ⊎ (max_frame < n)
    → read_frame (stream (append_varint [] n ++ rest) f) ≡ (err (bad_frame_length n), stream rest f)
unfolding read_frame
read_frame_bad_length n rest f h out =
    rw (append_varint-groups [] n h) (rw (frame_length-groups n rest h f) (ground arith))

-- A payload whose length is announced in front of it is read as one frame.
pub read_frame-payload :
    (payload rest : List ℕ) (f : IoError)
    → 1 ≤ length payload
    → length payload ≤ max_frame
    → read_frame (stream (groups 4 (length payload) ++ (payload ++ rest)) f)
      ≡ (ok (split_payload (groups 4 (length payload)) payload), stream rest f)
unfolding read_frame
read_frame-payload payload rest f low high =
    rw (frame_length-groups (length payload) (payload ++ rest) (omega arith) f)
      (ground (arith, read_full-append io payload rest f))

-- A stream that ends inside a payload of 1 to 65536 announced bytes makes ReadFrame fail with the
-- stream's error, or io.ErrUnexpectedEOF where the stream ended behind a part of it.
pub read_frame_cut :
    (n : ℕ) (front : List ℕ) (f : IoError)
    → 1 ≤ n
    → n ≤ max_frame
    → length front < n
    → read_frame (stream (append_varint [] n ++ front) f)
      ≡ (err (io (short_read front f)), stream [] f)
unfolding read_frame
read_frame_cut n front f low high short = rw (append_varint-groups [] n (omega arith)) (
    rw (frame_length-groups n front (omega arith) f) (ground (arith, read_full_short io n front f)))
