-- ===== src/Body/Chunked/Termination.antt =====
-- The rounds of the loop of `ihtp_decode_chunked` of src/ihtp_body_decoder.c.
use iohttpparser.Base.{
  ℕ, zero, suc, ◌+◌, ◌-◌, ◌*◌, ◌≤◌, ◌<◌, ◌≡◌, refl, arith, some, Bytes, length, get_or, ltb,
  Bool-cases, inl, inr, ◌∙◌, ◌⊎◌, ap, subst, ◌==◌,
}
use iohttpparser.Body.Chunked.{
  ChunkState, chunk_data, chunk_done, no_case, ChunkedDecoder, Framing, consume, finish, reject,
  framing_byte, Return, Loop, Iteration, again, return_with, incomplete, complete_at, copy_data,
  take_bytes, after_framing, switch, loop, decode_chunked, memmove,
}
use iohttpparser.Body.Chunked.Memory.{length-memmove}

-- One more round for an empty `CHUNK_DATA`, which no valid decoder has.
abbrev extra : ChunkState → ℕ
extra chunk_data = 1
extra _ = 0

abbrev measure : ℕ → Loop → ℕ
measure avail l = 2 * (avail - l.src) + extra l.decoder.state

-- One of the eight states that the `switch` has a case for.
abbrev pub HasCase : ChunkState → Type 0
HasCase (no_case n) = ⊥
HasCase _ = Unit

abbrev FramingHasCase : Framing → Type 0
FramingHasCase (consume d) = HasCase d.state
FramingHasCase (finish d) = Unit
FramingHasCase reject = Unit

framing_byte-HasCase :
    (s : ChunkState) (d : ChunkedDecoder) (c : ℕ)
    → HasCase s
    → d.state ≡ s
    → FramingHasCase (framing_byte s d c)
unfolding framing_byte
framing_byte-HasCase (no_case n) d c h e = absurd h
framing_byte-HasCase _ d c h e = ground arith

record InBuffer (avail : ℕ) (l : Loop) : Type 0 where
  has_case : HasCase l.decoder.state
  behind : l.dst ≤ l.src
  inside : l.src ≤ avail
  same_length : length l.buf ≡ avail

abbrev ReturnsInBuffer : ℕ → Return → Type 0
ReturnsInBuffer avail r = (length r.buf ≡ avail) × (r.bufsz ≤ avail)

abbrev Progress : ℕ → Loop → Iteration → Type 0
Progress avail l (again l') = InBuffer avail l' × (measure avail l' < measure avail l)
Progress avail l (return_with r) = ReturnsInBuffer avail r

complete_at-ReturnsInBuffer :
    (avail : ℕ) (l : Loop) (d : ChunkedDecoder)
    → InBuffer avail l
    → ReturnsInBuffer avail (complete_at avail l d)
unfolding complete_at
complete_at-ReturnsInBuffer avail l d h = elim (Bool-cases (ltb l.src avail)) [
  | inl more ↦ rw more (
    length-memmove l.buf l.dst l.src (avail - l.src) h.behind (omega (arith, h.same_length))
        ∙ h.same_length,
    omega (arith, h.behind, h.inside),
  )
  | inr done ↦ rw done (h.same_length, omega (arith, h.behind, h.inside))
]

extra-le : (s : ChunkState) → extra s ≤ 1
extra-le chunk_data = omega arith
extra-le _ = omega arith

after_framing-Progress :
    (avail : ℕ) (l : Loop) (f : Framing)
    → InBuffer avail l
    → l.src < avail
    → FramingHasCase f
    → Progress avail l (after_framing avail l f)
unfolding after_framing
after_framing-Progress avail l (consume d) h more named = (
  record {
    has_case = named;
    behind = omega (arith, h.behind);
    inside = omega arith;
    same_length = h.same_length;
  },
  omega (arith, extra-le d.state),
)
after_framing-Progress avail l (finish d) h more named =
    complete_at-ReturnsInBuffer avail (record l { src = l.src + 1 }) d
      (record {
        has_case = h.has_case;
        behind = omega (arith, h.behind);
        inside = omega arith;
        same_length = h.same_length;
      })
after_framing-Progress avail l reject h more named = (h.same_length, omega arith)

extra-take_bytes :
    (d : ChunkedDecoder) (n : ℕ)
    → d.state ≡ chunk_data
    → (0 < n) ⊎ (d.bytes_left_in_chunk ≡ n)
    → extra (take_bytes d n).state < n + 1
unfolding take_bytes
extra-take_bytes d n e (inl moves) = omega (arith, extra-le (take_bytes d n).state)
extra-take_bytes d n e (inr empty) = ground arith

take_bytes-HasCase : (d : ChunkedDecoder) (n : ℕ) → HasCase d.state → HasCase (take_bytes d n).state
unfolding take_bytes
take_bytes-HasCase d n h = elim (Bool-cases (d.bytes_left_in_chunk - n == 0)) [
  | inl none ↦ rw none tt
  | inr left ↦ rw left h
]

copied-Progress :
    (avail : ℕ) (l : Loop) (n : ℕ)
    → InBuffer avail l
    → l.decoder.state ≡ chunk_data
    → l.src + n ≤ avail
    → (0 < n) ⊎ (l.decoder.bytes_left_in_chunk ≡ n)
    → Progress avail l (
        again (record {
          decoder = take_bytes l.decoder n;
          buf = memmove l.buf l.dst l.src n;
          src = l.src + n;
          dst = l.dst + n;
        }))
copied-Progress avail l n h e room moves =
    let was : extra l.decoder.state ≡ 1 = ap extra e in
    (
      record {
        has_case = take_bytes-HasCase l.decoder n h.has_case;
        behind = omega (arith, h.behind);
        inside = room;
        same_length =
            length-memmove l.buf l.dst l.src n h.behind (omega (arith, h.same_length))
            ∙ h.same_length;
      },
      omega (arith, was, extra-take_bytes l.decoder n e moves),
    )

copy_data-Progress :
    (avail : ℕ) (l : Loop)
    → InBuffer avail l
    → l.decoder.state ≡ chunk_data
    → l.src < avail
    → Progress avail l (again (copy_data avail l))
unfolding copy_data
copy_data-Progress avail l h e more =
    elim (Bool-cases (ltb l.decoder.bytes_left_in_chunk (avail - l.src))) [
      | inl chunk ↦
          rw chunk
            (copied-Progress avail l l.decoder.bytes_left_in_chunk h e (ground arith) (inr refl))
      | inr all ↦
          rw all (copied-Progress avail l (avail - l.src) h e (omega arith) (inl (omega arith)))
    ]

switch-Progress :
    (s : ChunkState) (avail : ℕ) (l : Loop)
    → l.decoder.state ≡ s
    → InBuffer avail l
    → l.src < avail
    → Progress avail l (switch s avail l)
unfolding switch
switch-Progress chunk_data avail l e h more = copy_data-Progress avail l h e more
switch-Progress chunk_done avail l e h more = complete_at-ReturnsInBuffer avail l l.decoder h
switch-Progress (no_case n) avail l e h more = absurd (subst HasCase e h.has_case)
switch-Progress s avail l e h more =
    after_framing-Progress avail l (framing_byte s l.decoder (get_or l.buf l.src 0)) h more
      (framing_byte-HasCase s l.decoder (get_or l.buf l.src 0) (subst HasCase e h.has_case) e)

Returns : ℕ → ℕ → Loop → Type 0
Returns fuel avail l = (r : Return) × (loop fuel avail l ≡ some r) × ReturnsInBuffer avail r

loop-Returns :
    (fuel avail : ℕ) (l : Loop) → InBuffer avail l → measure avail l < fuel → Returns fuel avail l
unfolding loop Returns
loop-Returns zero avail l h enough = absurd (omega arith)
loop-Returns (suc fuel) avail l h enough = elim (Bool-cases (ltb l.src avail)) [
  | inl more ↦
      rw (more, loop)
        (by_round (switch l.decoder.state avail l)
          (switch-Progress l.decoder.state avail l refl h (ground arith)) (loop-Returns fuel avail))
  | inr done ↦
      rw (done, loop)
        (
          record { status = incomplete; decoder = l.decoder; buf = l.buf; bufsz = l.dst },
          refl,
          (h.same_length, omega (arith, h.behind, h.inside)),
        )
]
  where
    by_round :
        (i : Iteration)
        → Progress avail l i
        → ((l' : Loop)
            → InBuffer avail l'
            → measure avail l' < fuel
            → (r : Return) × (loop fuel avail l' ≡ some r) × ReturnsInBuffer avail r)
        → (r : Return) × ((elim i [ again l' ↦ loop fuel avail l' | return_with r ↦ some r ])
            ≡ some r)
          × ReturnsInBuffer avail r
    by_round (return_with r) p ih = (r, refl, p)
    by_round (again l') p ih = ih l' p.0 (omega arith)

-- From every decoder whose state is one of the eight that the `switch` has a case for, whatever
-- its other fields hold, and on every buffer the call returns: the fuel is enough. The buffer keeps
-- its length and the decoded size does not exceed the size passed in.
pub decode_chunked_returns :
    (d : ChunkedDecoder) (buf : Bytes)
    → HasCase d.state
    → (r : Return) × (decode_chunked d buf ≡ some r)
      × (length r.buf ≡ length buf)
      × (r.bufsz ≤ length buf)
unfolding decode_chunked Returns
decode_chunked_returns d buf named =
    let l : Loop = record { decoder = d; buf = buf; src = 0; dst = 0 } in
    let (r, e, b) =
      loop-Returns (2 * length buf + 2) (length buf) l
        (record {
          has_case = named;
          behind = omega arith;
          inside = omega arith;
          same_length = refl;
        })
        (omega (arith, extra-le d.state)) in
    (r, e, b.0, b.1)
