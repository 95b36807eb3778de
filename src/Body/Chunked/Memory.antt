-- ===== src/Body/Chunked/Memory.antt =====
-- What `memmove` within one buffer leaves below, and behind, the copied bytes.
use iohttpparser.Base.{
  ℕ, ◌+◌, ◌-◌, ◌≤◌, ◌≡◌, sym, ap, ◌∙◌, arith, ◌++◌, append_assoc, Bytes, length, take, drop,
  length-append, length-take, length-drop, take_left, drop_left, drop-drop,
}
use iohttpparser.Body.Chunked.{memmove}

module _ (buf : Bytes) (to from n : ℕ) (down : to ≤ from) (fits : from + n ≤ length buf) where
  copied_length : length (take to buf ++ take n (drop from buf)) ≡ to + n
  copied_length = omega (
    arith,
    length-append (take to buf) (take n (drop from buf)),
    length-take to buf,
    length-take n (drop from buf),
    length-drop from buf,
  )

  memmove_split :
      memmove buf to from n ≡ (take to buf ++ take n (drop from buf)) ++ drop (to + n) buf
  unfolding memmove
  memmove_split = sym (append_assoc (take to buf) (take n (drop from buf)) (drop (to + n) buf))

  pub take-memmove : take (to + n) (memmove buf to from n) ≡ take to buf ++ take n (drop from buf)
  take-memmove =
      rw memmove_split (
        take_left (take to buf ++ take n (drop from buf)) (drop (to + n) buf) (to + n)
          copied_length)

  pub drop-memmove_at : drop (to + n) (memmove buf to from n) ≡ drop (to + n) buf
  drop-memmove_at =
      rw memmove_split (
        drop_left (take to buf ++ take n (drop from buf)) (drop (to + n) buf) (to + n)
          copied_length)

  pub drop-memmove : drop (from + n) (memmove buf to from n) ≡ drop (from + n) buf
  drop-memmove =
      ap (λ (k : ℕ). drop k (memmove buf to from n)) {y = (to + n) + (from - to)} (omega arith)
      ∙ sym (drop-drop (from - to) (to + n) (memmove buf to from n))
      ∙ ap (drop (from - to)) drop-memmove_at
      ∙ drop-drop (from - to) (to + n) buf
      ∙ ap (λ (k : ℕ). drop k buf) (omega arith)

  pub length-memmove : length (memmove buf to from n) ≡ length buf
  length-memmove = rw memmove_split (
      omega (
        arith,
        copied_length,
        length-append (take to buf ++ take n (drop from buf)) (drop (to + n) buf),
        length-drop (to + n) buf,
      ))

  length_front : length (take to buf) ≡ to
  length_front = omega (arith, length-take to buf)

  length_copied : length (take n (drop from buf)) ≡ n
  length_copied = omega (arith, length-take n (drop from buf), length-drop from buf)

  pub take-memmove_front : take to (memmove buf to from n) ≡ take to buf
  unfolding memmove
  take-memmove_front =
      take_left (take to buf) (take n (drop from buf) ++ drop (to + n) buf) to length_front

  pub drop-memmove_front : take n (drop to (memmove buf to from n)) ≡ take n (drop from buf)
  unfolding memmove
  drop-memmove_front =
      ap (take n)
        (drop_left (take to buf) (take n (drop from buf) ++ drop (to + n) buf) to length_front)
      ∙ take_left (take n (drop from buf)) (drop (to + n) buf) n length_copied
