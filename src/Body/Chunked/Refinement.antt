-- ===== src/Body/Chunked/Refinement.antt =====
-- The in-place loop of `ihtp_decode_chunked` against the stream reference.
mod Data
pub mod Round
pub use Data.{decode_stream_data}
pub use Round.{Agrees, OutcomeAgrees}
use iohttpparser.Base.{
  ℕ, zero, suc, ◌+◌, ◌-◌, ◌*◌, ◌≤◌, ◌<◌, ◌≡◌, refl, arith, some, Bytes, length, take, drop, [],
  Bool-cases, inl, inr, ltb, ap, ◌++◌,
}
use iohttpparser.Body.Chunked.{
  Loop, Return, ChunkedDecoder, again, return_with, Iteration, switch, loop, decode_chunked,
  incomplete,
}
use iohttpparser.Body.Chunked.Invariant.{IsValid}
use iohttpparser.Body.Chunked.Stream.{decode_stream, Decoded}
use Round.{LoopInv, RoundAgrees, switch-RoundAgrees, at_end-Agrees}

loop-Agrees :
    (fuel avail : ℕ) (l : Loop)
    → LoopInv avail l
    → avail - l.src < fuel
    → (r : Return) × (loop fuel avail l ≡ some r)
      × Agrees avail (take l.dst l.buf) (decode_stream l.decoder (drop l.src l.buf)) r
unfolding loop
loop-Agrees zero avail l inv enough = absurd (omega arith)
loop-Agrees (suc fuel) avail l inv enough = elim (Bool-cases (ltb l.src avail)) [
  | inl more ↦
      rw (more, loop)
        (by_round (switch l.decoder.state avail l)
          (switch-RoundAgrees l.decoder.state avail l refl inv (ground arith))
          (loop-Agrees fuel avail))
  | inr done ↦
      rw (done, loop)
        (
          record { status = incomplete; decoder = l.decoder; buf = l.buf; bufsz = l.dst },
          refl,
          at_end-Agrees avail l inv (ground arith),
        )
]
  where
    by_round :
        (i : Iteration)
        → RoundAgrees avail l (decode_stream l.decoder (drop l.src l.buf)) i
        → ((l' : Loop)
            → LoopInv avail l'
            → avail - l'.src < fuel
            → (r : Return) × (loop fuel avail l' ≡ some r)
              × Agrees avail (take l'.dst l'.buf) (decode_stream l'.decoder (drop l'.src l'.buf)) r)
        → (r : Return) × ((elim i [ again l' ↦ loop fuel avail l' | return_with r ↦ some r ])
            ≡ some r)
          × Agrees avail (take l.dst l.buf) (decode_stream l.decoder (drop l.src l.buf)) r
    by_round (return_with r) h ih = (r, refl, h)
    by_round (again l') h ih = let (r, e, a) = ih l' h.0 (omega arith) in (r, e, h.2 r a)

-- The decoder on the buffer in place does what the reference does on the stream: from a valid
-- decoder, on every buffer, the call returns, the decoder and the status are those of the
-- reference, the buffer keeps its length, and unless the status is the error the payload stands at
-- the front of the buffer, `bufsz` long, with the unread bytes behind it when the body is complete.
pub decode_chunked-decode_stream :
    (d : ChunkedDecoder) (buf : Bytes)
    → IsValid d
    → (r : Return) × (decode_chunked d buf ≡ some r)
      × Agrees (length buf) [] (decode_stream d buf) r
unfolding decode_chunked
decode_chunked-decode_stream d buf v =
    loop-Agrees (2 * length buf + 2) (length buf)
      (record { decoder = d; buf = buf; src = 0; dst = 0 })
      (record { valid = v; behind = omega arith; inside = omega arith; same_length = refl })
      (omega arith)
