-- ===== src/Body/Chunked/Incremental.antt =====
-- Calls of `ihtp_decode_chunked` on the pieces of a body, as they arrive, against one call.
use iohttpparser.Base.{
  ℕ, ◌≡◌, ◌≢◌, refl, sym, subst, Option, some, [], ◌∷◌, ◌++◌, append_assoc, Bytes, length, ap, ◌∙◌,
  take,
}
use iohttpparser.Body.Chunked.{
  ChunkState, chunk_data, chunk_done, ChunkedDecoder, Framing, consume, finish, reject,
  framing_byte, Return, ChunkStatus, decode_chunked,
}
use iohttpparser.Body.Chunked.Invariant.{
  IsValid, FramingInv, framing_byte-IsValid, take_byte-IsValid,
}
use iohttpparser.Body.Chunked.Refinement.{decode_chunked-decode_stream, Agrees, OutcomeAgrees}
use iohttpparser.Body.Chunked.Stream.{
  StreamStatus, complete, incomplete, error, Decoded, decode_stream, stream_step, after_byte,
  prepend, take_byte,
}

-- What more bytes make of a result: only an incomplete one reads them.
resume_status : StreamStatus → Decoded → Bytes → Decoded
resume_status incomplete s ys = prepend s.payload (decode_stream s.decoder ys)
resume_status (complete unread) s ys = record s { status = complete (unread ++ ys) }
resume_status error s ys = s

pub resume : Decoded → Bytes → Decoded
unfolding resume_status
resume s ys = resume_status s.status s ys

resume-prepend :
    (x : Bytes) (s : Decoded) (ys : Bytes) → resume (prepend x s) ys ≡ prepend x (resume s ys)
unfolding resume
resume-prepend x s ys = go s.status
  where
    go : (t : StreamStatus) → resume_status t (prepend x s) ys ≡ prepend x (resume_status t s ys)
    go incomplete =
        ap (λ p. record (decode_stream s.decoder ys) { payload = p })
          (append_assoc x s.payload (decode_stream s.decoder ys).payload)
    go (complete unread) = refl
    go error = refl

after_byte-append :
    (d : ChunkedDecoder) (xs ys : Bytes) (f : Framing)
    → ((d' : ChunkedDecoder) → decode_stream d' (xs ++ ys) ≡ resume (decode_stream d' xs) ys)
    → after_byte d (xs ++ ys) (λ d'. decode_stream d' (xs ++ ys)) f
      ≡ resume (after_byte d xs (λ d'. decode_stream d' xs) f) ys
unfolding after_byte resume
after_byte-append d xs ys (consume d') ih = ih d'
after_byte-append d xs ys (finish d') ih = refl
after_byte-append d xs ys reject ih = refl

stream_step-append :
    (s : ChunkState) (d : ChunkedDecoder) (x : ℕ) (xs ys : Bytes)
    → ((d' : ChunkedDecoder) → decode_stream d' (xs ++ ys) ≡ resume (decode_stream d' xs) ys)
    → stream_step s d x (xs ++ ys) (λ d'. decode_stream d' (xs ++ ys))
      ≡ resume (stream_step s d x xs (λ d'. decode_stream d' xs)) ys
unfolding stream_step resume
stream_step-append chunk_data d x xs ys ih =
    ap (prepend (x ∷ [])) (ih (take_byte d))
    ∙ sym (resume-prepend (x ∷ []) (decode_stream (take_byte d) xs) ys)
stream_step-append chunk_done d x xs ys ih = refl
stream_step-append s d x xs ys ih = after_byte-append d xs ys (framing_byte s d x) ih

-- Reading a stream is reading its front, and then the rest from the decoder that this leaves.
pub decode_stream-append :
    (xs ys : Bytes) (d : ChunkedDecoder)
    → decode_stream d (xs ++ ys) ≡ resume (decode_stream d xs) ys
unfolding decode_stream resume
decode_stream-append [] ys d = refl
decode_stream-append (x ∷ xs) ys d =
    stream_step-append d.state d x xs ys (decode_stream-append xs ys)

after_byte-IsValid :
    (d : ChunkedDecoder) (cs : Bytes) (f : Framing)
    → IsValid d
    → FramingInv f
    → ((d' : ChunkedDecoder) → IsValid d' → IsValid (decode_stream d' cs).decoder)
    → IsValid (after_byte d cs (λ d'. decode_stream d' cs) f).decoder
unfolding after_byte
after_byte-IsValid d cs (consume d') v v' ih = ih d' v'
after_byte-IsValid d cs (finish d') v v' ih = v'
after_byte-IsValid d cs reject v v' ih = v

stream_step-IsValid :
    (s : ChunkState) (d : ChunkedDecoder) (c : ℕ) (cs : Bytes)
    → d.state ≡ s
    → IsValid d
    → ((d' : ChunkedDecoder) → IsValid d' → IsValid (decode_stream d' cs).decoder)
    → IsValid (stream_step s d c cs (λ d'. decode_stream d' cs)).decoder
unfolding stream_step
stream_step-IsValid chunk_data d c cs e v ih = ih (take_byte d) (take_byte-IsValid d e v)
stream_step-IsValid chunk_done d c cs e v ih = v
stream_step-IsValid s d c cs e v ih =
    after_byte-IsValid d cs (framing_byte s d c) v (framing_byte-IsValid s d c e v) ih

pub decode_stream-IsValid :
    (cs : Bytes) (d : ChunkedDecoder) → IsValid d → IsValid (decode_stream d cs).decoder
unfolding decode_stream
decode_stream-IsValid [] d v = v
decode_stream-IsValid (c ∷ cs) d v =
    stream_step-IsValid d.state d c cs refl v (decode_stream-IsValid cs)

abbrev pub payload_of : Return → Bytes
payload_of r = take r.bufsz r.buf

incomplete_of :
    (avail : ℕ) (t : StreamStatus) (out : Bytes) (r : Return)
    → OutcomeAgrees avail t out r
    → r.status ≡ ChunkStatus.incomplete
    → (t ≡ incomplete) × (payload_of r ≡ out)
incomplete_of avail incomplete out r a e = (refl, a.2)
incomplete_of avail (complete u) out r a e = cc
incomplete_of avail error out r a e = cc

-- The same status, and the same payload if there is one.
abbrev pub SameOutcome : Return → Bytes → Return → Type 0
SameOutcome whole earlier later =
    (whole.status ≡ later.status)
    × (whole.decoder ≡ later.decoder)
    × (whole.status ≢ ChunkStatus.error → payload_of whole ≡ earlier ++ payload_of later)

same_outcome :
    (m n : ℕ) (t : StreamStatus) (earlier out : Bytes) (whole later : Return)
    → OutcomeAgrees m t (earlier ++ out) whole
    → OutcomeAgrees n t out later
    → whole.decoder ≡ later.decoder
    → SameOutcome whole earlier later
same_outcome m n (complete u) earlier out whole later a b e =
    (a.0 ∙ sym b.0, e, λ _. a.2 ∙ ap (◌++◌ earlier) (sym b.2))
same_outcome m n incomplete earlier out whole later a b e =
    (a.0 ∙ sym b.0, e, λ _. a.2 ∙ ap (◌++◌ earlier) (sym b.2))
same_outcome m n error earlier out whole later a b e = (a.0 ∙ sym b.0, e, λ fine. absurd (fine a.0))

same_return : (o : Option Return) {r r' : Return} → o ≡ some r → o ≡ some r' → r ≡ r'
same_return o p q = cc

-- A body that comes in two pieces: where the first call on a valid decoder returns `INCOMPLETE`,
-- the call on the second piece returns the status and leaves the decoder of one call on the
-- whole, and its payload behind that of the first is the payload of the whole, unless the
-- status is the error.
pub decode_chunked_resume :
    (d : ChunkedDecoder) (xs ys : Bytes) (first : Return)
    → IsValid d
    → decode_chunked d xs ≡ some first
    → first.status ≡ ChunkStatus.incomplete
    → (second whole : Return) × (decode_chunked first.decoder ys ≡ some second)
      × (decode_chunked d (xs ++ ys) ≡ some whole)
      × SameOutcome whole (payload_of first) second
unfolding resume resume_status
decode_chunked_resume d xs ys first v e i =
    let (r, er, a) = decode_chunked-decode_stream d xs v in
    let same : r ≡ first = same_return (decode_chunked d xs) er e in
    let s = decode_stream d xs in
    let a' = subst (λ r. Agrees (length xs) [] s r) same a in
    let stopped = incomplete_of (length xs) s.status s.payload first a'.2 i in
    let v' = subst IsValid (sym a'.0) (decode_stream-IsValid xs d v) in
    let (second, es, b) = decode_chunked-decode_stream first.decoder ys v' in
    let (whole, ew, c) = decode_chunked-decode_stream d (xs ++ ys) v in
    let t = decode_stream first.decoder ys in
    let joined : decode_stream d (xs ++ ys) ≡ prepend (payload_of first) t =
      decode_stream-append xs ys d
      ∙ ap (λ st. resume_status st s ys) stopped.0
      ∙ ap (λ p. prepend p (decode_stream s.decoder ys)) (sym stopped.1)
      ∙ ap (λ d'. prepend (payload_of first) (decode_stream d' ys)) (sym a'.0) in
    let c' = subst (λ w. Agrees (length (xs ++ ys)) [] w whole) joined c in
    (
      second,
      whole,
      es,
      ew,
      same_outcome (length (xs ++ ys)) (length ys) t.status (payload_of first) t.payload whole
          second c'.2 b.2 (c'.0 ∙ sym b.0),
    )
