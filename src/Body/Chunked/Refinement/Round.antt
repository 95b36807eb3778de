-- ===== src/Body/Chunked/Refinement/Round.antt =====
-- One round of the loop keeps the loop's invariant and agrees with the stream reference.
use iohttpparser.Base.{
  ℕ, ◌+◌, ◌-◌, ◌≤◌, ◌<◌, ◌≡◌, refl, subst, sym, arith, [], ◌++◌, append_assoc, Bytes, length, ap,
  ◌∙◌, take, drop, get_or, ltb, length-take, length-drop, take-length, drop-drop, eq_nil, drop_at,
  take-append-drop, Bool-cases, inl, inr, append-nil,
}
use iohttpparser.Body.Chunked.{
  ChunkState, chunk_data, chunk_done, no_case, ChunkedDecoder, Framing, consume, finish, reject,
  framing_byte, ChunkStatus, Return, Loop, Iteration, again, return_with, complete_at, copy_data,
  after_framing, switch, take_bytes, memmove,
}
use iohttpparser.Body.Chunked.Invariant.{
  IsValid, StateInv, FramingInv, framing_byte-IsValid, take_bytes-IsValid, data_left,
}
use iohttpparser.Body.Chunked.Memory.{
  take-memmove, drop-memmove, length-memmove, take-memmove_front, drop-memmove_front,
}
use iohttpparser.Body.Chunked.Refinement.Data.{decode_stream_data}
use iohttpparser.Body.Chunked.Stream.{
  StreamStatus, complete, incomplete, error, Decoded, decode_stream, stream_step, after_byte,
  prepend,
}

-- `out` is the payload that must stand at the front of the buffer.
abbrev pub OutcomeAgrees : ℕ → StreamStatus → Bytes → Return → Type 0
OutcomeAgrees avail (complete unread) out r =
    (r.status ≡ ChunkStatus.complete (length unread))
    × (r.bufsz ≡ length out)
    × (take r.bufsz r.buf ≡ out)
    × (take (length unread) (drop r.bufsz r.buf) ≡ unread)
OutcomeAgrees avail incomplete out r =
    (r.status ≡ ChunkStatus.incomplete) × (r.bufsz ≡ length out) × (take r.bufsz r.buf ≡ out)
OutcomeAgrees avail error out r = (r.status ≡ ChunkStatus.error) × (r.bufsz ≡ avail)

-- `before` is the payload that earlier rounds wrote.
abbrev pub Agrees : ℕ → Bytes → Decoded → Return → Type 0
Agrees avail before s r =
    (r.decoder ≡ s.decoder)
    × (length r.buf ≡ avail)
    × OutcomeAgrees avail s.status (before ++ s.payload) r

pub record LoopInv (avail : ℕ) (l : Loop) : Type 0 where
  pub valid : IsValid l.decoder
  pub behind : l.dst ≤ l.src
  pub inside : l.src ≤ avail
  pub same_length : length l.buf ≡ avail

abbrev pub RoundAgrees : ℕ → Loop → Decoded → Iteration → Type 0
RoundAgrees avail l s (again l') =
    LoopInv avail l'
    × (l.src < l'.src)
    × ((r : Return)
        → Agrees avail (take l'.dst l'.buf) (decode_stream l'.decoder (drop l'.src l'.buf)) r
        → Agrees avail (take l.dst l.buf) s r)
RoundAgrees avail l s (return_with r) = Agrees avail (take l.dst l.buf) s r

module _ (avail : ℕ) (l : Loop) (inv : LoopInv avail l) where
  length_before : length (take l.dst l.buf) ≡ l.dst
  length_before = omega (arith, length-take l.dst l.buf, inv.behind, inv.inside, inv.same_length)

  length_rest : length (drop l.src l.buf) ≡ avail - l.src
  length_rest = omega (arith, length-drop l.src l.buf, inv.same_length)

  none_left : avail ≤ l.src → drop l.src l.buf ≡ []
  none_left h = eq_nil (drop l.src l.buf) (omega (arith, length_rest))

  pub at_end-Agrees :
      avail ≤ l.src
      → Agrees avail (take l.dst l.buf) (decode_stream l.decoder (drop l.src l.buf)) (record {
        status = ChunkStatus.incomplete;
        decoder = l.decoder;
        buf = l.buf;
        bufsz = l.dst;
      })
  unfolding decode_stream
  at_end-Agrees h =
      rw (none_left h, append-nil) (refl, inv.same_length, (refl, sym length_before, refl))

  -- The returned buffer: the payload, and behind it what was not read.
  moved-Agrees :
      (d : ChunkedDecoder) (moved : Bytes)
      → length moved ≡ avail
      → take l.dst moved ≡ take l.dst l.buf
      → take (avail - l.src) (drop l.dst moved) ≡ drop l.src l.buf
      → Agrees avail
          (take l.dst l.buf)
          (record { status = complete (drop l.src l.buf); decoder = d; payload = [] })
          (record {
            status = ChunkStatus.complete (avail - l.src);
            decoder = d;
            buf = moved;
            bufsz = l.dst;
          })
  moved-Agrees d moved same front rest =
      rw (append-nil, length_rest) (refl, same, (refl, sym length_before, front, rest))

  complete_at-Agrees :
      (d : ChunkedDecoder)
      → Agrees avail
          (take l.dst l.buf)
          (record { status = complete (drop l.src l.buf); decoder = d; payload = [] })
          (complete_at avail l d)
  unfolding complete_at
  complete_at-Agrees d = elim (Bool-cases (ltb l.src avail)) [
    | inl more ↦
        let fits : l.src + (avail - l.src) ≤ length l.buf = omega (arith, inv.same_length) in
        let n = avail - l.src in
        rw more (
          moved-Agrees d (memmove l.buf l.dst l.src n)
            (length-memmove l.buf l.dst l.src n inv.behind fits ∙ inv.same_length)
            (take-memmove_front l.buf l.dst l.src n inv.behind fits)
            (drop-memmove_front l.buf l.dst l.src n inv.behind fits
              ∙ take-length (drop l.src l.buf) n (omega (arith, length_rest))))
    | inr done ↦
        let at_end : avail ≤ l.src = ground arith in
        rw done (
          moved-Agrees d l.buf inv.same_length refl (
            ap (λ (k : ℕ). take k (drop l.dst l.buf)) {y = 0} (omega arith)
            ∙ sym (none_left at_end)))
  ]

  -- A copy of `n` bytes, not more than the chunk or the buffer holds.
  module _ (n : ℕ) (e : l.decoder.state ≡ chunk_data) (moves : 0 < n)
      (left : n ≤ l.decoder.bytes_left_in_chunk) (room : l.src + n ≤ avail) where
    fits_buffer : l.src + n ≤ length l.buf
    fits_buffer = omega (arith, inv.same_length)

    stream_copied :
        decode_stream l.decoder (drop l.src l.buf)
        ≡ prepend
            (take n (drop l.src l.buf))
            (decode_stream (take_bytes l.decoder n) (drop (l.src + n) l.buf))
    stream_copied =
        let here = drop l.src l.buf in
        let size : length (take n here) ≡ n = omega (arith, length-take n here, length_rest) in
        ap (decode_stream l.decoder) (sym (take-append-drop n here))
        ∙ decode_stream_data (take n here) (drop n here) l.decoder e (omega (arith, size))
            (omega (arith, size))
        ∙ ap
            (λ (k : ℕ).
              prepend (take n here) (decode_stream (take_bytes l.decoder k) (drop n here)))
            size
        ∙ ap (λ (cs : Bytes). prepend (take n here) (decode_stream (take_bytes l.decoder n) cs))
            (drop-drop n l.src l.buf)

    copied_loop : Loop
    copied_loop = record {
      decoder = take_bytes l.decoder n;
      buf = memmove l.buf l.dst l.src n;
      src = l.src + n;
      dst = l.dst + n;
    }

    copied-LoopInv : LoopInv avail copied_loop
    unfolding copied_loop
    copied-LoopInv = record {
      valid = take_bytes-IsValid l.decoder n e inv.valid left;
      behind = omega (arith, inv.behind);
      inside = room;
      same_length = length-memmove l.buf l.dst l.src n inv.behind fits_buffer ∙ inv.same_length;
    }

    copied-Agrees :
        (r : Return)
        → Agrees avail
            (take copied_loop.dst copied_loop.buf)
            (decode_stream copied_loop.decoder (drop copied_loop.src copied_loop.buf))
            r
        → Agrees avail (take l.dst l.buf) (decode_stream l.decoder (drop l.src l.buf)) r
    unfolding copied_loop
    copied-Agrees r a =
        let before = take-memmove l.buf l.dst l.src n inv.behind fits_buffer in
        let behind = drop-memmove l.buf l.dst l.src n inv.behind fits_buffer in
        let rest = decode_stream (take_bytes l.decoder n) (drop (l.src + n) l.buf) in
        let a' = rw (before, behind) at a in
        rw stream_copied (
          a'.0,
          a'.1,
          subst (λ out. OutcomeAgrees avail rest.status out r)
              (append_assoc (take l.dst l.buf) (take n (drop l.src l.buf)) rest.payload) a'.2,
        )

    copied-RoundAgrees :
        RoundAgrees avail l (decode_stream l.decoder (drop l.src l.buf)) (again copied_loop)
    copied-RoundAgrees = (copied-LoopInv, (unfold copied_loop in omega arith), copied-Agrees)

  copy_data-RoundAgrees :
      l.decoder.state ≡ chunk_data
      → l.src < avail
      → RoundAgrees avail l (decode_stream l.decoder (drop l.src l.buf)) (again (copy_data avail l))
  unfolding copy_data copied_loop
  copy_data-RoundAgrees e more =
      let some_left = data_left l.decoder e inv.valid in
      elim (Bool-cases (ltb l.decoder.bytes_left_in_chunk (avail - l.src))) [
        | inl chunk ↦ rw chunk (
            copied-RoundAgrees l.decoder.bytes_left_in_chunk e some_left (omega arith)
              (ground arith))
        | inr all ↦
            rw all (copied-RoundAgrees (avail - l.src) e (omega arith) (ground arith) (omega arith))
      ]

-- A state that looks at one byte, once its verdict `f` is known.
after_framing-RoundAgrees :
    (avail : ℕ) (l : Loop) (f : Framing)
    → LoopInv avail l
    → l.src < avail
    → FramingInv f
    → RoundAgrees avail l
        (after_byte l.decoder
          (drop (l.src + 1) l.buf)
          (λ d. decode_stream d (drop (l.src + 1) l.buf))
          f)
        (after_framing avail l f)
unfolding after_byte after_framing
after_framing-RoundAgrees avail l (consume d) inv more v = (
  record {
    valid = v;
    behind = omega (arith, inv.behind);
    inside = omega arith;
    same_length = inv.same_length;
  },
  omega arith,
  λ r a. a,
)
after_framing-RoundAgrees avail l (finish d) inv more v =
    complete_at-Agrees avail (record l { src = l.src + 1 })
      (record {
        valid = inv.valid;
        behind = omega (arith, inv.behind);
        inside = omega arith;
        same_length = inv.same_length;
      })
      d
after_framing-RoundAgrees avail l reject inv more v = (refl, inv.same_length, (refl, refl))

stream_at :
    (s : ChunkState) (avail : ℕ) (l : Loop)
    → l.decoder.state ≡ s
    → LoopInv avail l
    → l.src < avail
    → decode_stream l.decoder (drop l.src l.buf)
      ≡ stream_step s l.decoder
          (get_or l.buf l.src 0)
          (drop (l.src + 1) l.buf)
          (λ d. decode_stream d (drop (l.src + 1) l.buf))
unfolding decode_stream
stream_at s avail l e inv more =
    let cs = drop (l.src + 1) l.buf in
    ap (decode_stream l.decoder) (drop_at l.buf l.src 0 (omega (arith, inv.same_length)))
    ∙ ap (λ t. stream_step t l.decoder (get_or l.buf l.src 0) cs (λ d. decode_stream d cs)) e

pub switch-RoundAgrees :
    (s : ChunkState) (avail : ℕ) (l : Loop)
    → l.decoder.state ≡ s
    → LoopInv avail l
    → l.src < avail
    → RoundAgrees avail l (decode_stream l.decoder (drop l.src l.buf)) (switch s avail l)
unfolding switch decode_stream
switch-RoundAgrees chunk_data avail l e inv more = copy_data-RoundAgrees avail l inv e more
switch-RoundAgrees chunk_done avail l e inv more =
    let at = drop_at l.buf l.src 0 (omega (arith, inv.same_length)) in
    rw (stream_at chunk_done avail l e inv more) (
      subst
        (λ cs.
          Agrees avail (take l.dst l.buf)
            (record { status = complete cs; decoder = l.decoder; payload = [] })
            (complete_at avail l l.decoder))
        at (complete_at-Agrees avail l inv l.decoder))
switch-RoundAgrees (no_case n) avail l e inv more =
    absurd (
      subst (λ s. StateInv s l.decoder.bytes_left_in_chunk l.decoder.hex_count) e
        inv.valid.in_state)
switch-RoundAgrees s avail l e inv more =
    let c = get_or l.buf l.src 0 in
    rw (stream_at s avail l e inv more) (
      after_framing-RoundAgrees avail l (framing_byte s l.decoder c) inv more
        (framing_byte-IsValid s l.decoder c e inv.valid))
