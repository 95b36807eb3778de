-- ===== src/Consumer/Pipeline.antt =====
-- The scenario of bench/bench_extended_contract.c that reads a request with a chunked body and the
-- request behind it.
use iohttpparser.Base.{
  ◌+◌, ◌-◌, ◌<◌, ◌≡◌, ◌%◌, ◌^◌, refl, sym, ◌∙◌, subst, arith, Bool, true, List, ◌++◌, Option, some,
  Bytes, length, take, drop, drop_left, length-append, ltb,
}
use iohttpparser.Body.Chunked.{Return, ChunkStatus, zero_decoder, decode_chunked}
use iohttpparser.Body.Chunked.Grammar.{SizeLine, Chunk, print_body, AllChunks, IsSize, AllTrailers}
use iohttpparser.Body.Chunked.RoundTrip.{decode_chunked_body}
use iohttpparser.Consumer.{success, parsed, applied, decode_tail}
use iohttpparser.Consumer.Requests.{first_request, meaning, scenario_consumer_iohttp_pipeline}
use iohttpparser.Parser.Spans.{AllInside, AllInside-le}
use iohttpparser.Parser.Stateful.{Parsed, parser_state_init, parser_state_reset, parse_request}
use iohttpparser.Consumer.Reuse.{reset_after_call}
use iohttpparser.Parser.Stateful.Invariant.{IsValid}
use iohttpparser.Parser.Stateful.Invariant.EntryPoint.{parse_request_stateful-IsValid}
use iohttpparser.Parser.Stateful.Stable.{parse_request_stateful-append}
use iohttpparser.Semantics.Request.{request_apply_semantics}
use iohttpparser.Semantics.Request.Local.{request_apply_semantics-append}
use iohttpparser.Types.{
  Status, ok, incomplete, error_too_long, policy_iohttp, Request, zero_request, mode_request,
  phase_done,
}

parsed_ok :
    {A : Type 0} {o : Option (Parsed A)} {p : Parsed A}
    → o ≡ some p
    → p.status ≡ ok
    → parsed o ≡ success p
parsed_ok e accepted = rw (e, accepted) refl

applied_ok : {A : Type 0} {r : Status × A} {out : A} → r ≡ (ok, out) → applied r ≡ success out
applied_ok e = rw e refl

-- The body behind a head, decoded.
decode_tail_lem :
    (head body unread : Bytes) (r : Return)
    → decode_chunked (zero_decoder true) body ≡ some r
    → r.status ≡ ChunkStatus.complete (length unread)
    → length body < 256
    → decode_tail 256 true (head ++ body) (length head)
      ≡ success (record { buf = r.buf; body_len = r.bufsz; trailing = length unread })
unfolding decode_tail
decode_tail_lem head body unread r call status short =
    let rest : drop (length head) (head ++ body) ≡ body = drop_left head body (length head) refl in
    let size : length (head ++ body) - length head ≡ length body =
      omega (arith, length-append head body) in
    let fits : ltb (length body) 256 ≡ true = ground arith in
    rw (decode_tail, size, fits, rest, call, status) refl

module _ (is_token : Bytes → Bool) where
  -- The whole text is one request head, which the parser and the semantics accept.
  pub record IsRequest (text : Bytes) : Type 0 where
    pub p : Parsed Request
    pub req : Request
    pub call : parse_request text (some policy_iohttp) 0 ≡ some p
    pub accepted : p.status ≡ ok
    pub whole : p.bytes_consumed ≡ length text
    pub means : request_apply_semantics is_token text p.out (some policy_iohttp) ≡ (ok, req)

  module _ (text : Bytes) (request : IsRequest text) where
    first_request_lem : first_request text policy_iohttp ≡ success request.p
    unfolding parse_request
    first_request_lem = parsed_ok request.call request.accepted

    meaning_lem : meaning is_token text request.p.out policy_iohttp ≡ success request.req
    meaning_lem = applied_ok request.means

    reset_lem : parser_state_reset request.p.state ≡ parser_state_init mode_request
    unfolding parse_request
    reset_lem = reset_after_call text (some policy_iohttp) request.p request.call

  -- A request stays one with more bytes behind it.
  module _ (text : Bytes) (request : IsRequest text) (ys : Bytes) where
    first_request-append : first_request (text ++ ys) policy_iohttp ≡ success request.p
    unfolding parse_request
    first_request-append =
        parsed_ok
          (parse_request_stateful-append (parser_state_init mode_request) text ys zero_request
            (some policy_iohttp) 0 request.p (omega arith) request.call
            (λ e. let wrong : ok ≡ incomplete = sym request.accepted ∙ e in absurd (cc))
            (λ e. let wrong : ok ≡ error_too_long = sym request.accepted ∙ e in absurd (cc)))
          request.accepted

    headers_inside : AllInside (length text) (take request.p.out.num_headers request.p.out.headers)
    unfolding parse_request IsValid
    headers_inside =
        let left =
          parse_request_stateful-IsValid (parser_state_init mode_request) text zero_request
            (some policy_iohttp) 0 request.p (omega arith, refl) request.call in
        let valid : IsValid (length text) phase_done request.p.state.cursor request.p.out =
          subst (λ phase. IsValid (length text) phase request.p.state.cursor request.p.out)
            (left.done request.accepted).0 left.valid in
        AllInside-le request.p.state.cursor (length text) _ valid.0 valid.1.headers

    meaning-append : meaning is_token (text ++ ys) request.p.out policy_iohttp ≡ success request.req
    meaning-append = applied_ok (
        request_apply_semantics-append is_token text ys request.p.out (some policy_iohttp)
          headers_inside
        ∙ request.means)

  -- The pipeline: a request head, a chunked body and another request head behind it, in one
  -- buffer. The scenario succeeds, and reports the length of the buffer and that of the second
  -- head, modulo 2 ^ 64, when: the parser accepts each head under IHTP_POLICY_IOHTTP and consumes
  -- all of it, and the semantics accept it; each size in the body is written with one to sixteen
  -- hexadecimal digits, that of each chunk is the length of its contents, which are not empty, and
  -- the last one is zero; behind the digits stands the CRLF or at once the `;` of an extension
  -- without CR and LF; the trailer lines are not empty and without CR and LF; and body and second
  -- head together are shorter than 256 bytes.
  pub scenario_consumer_iohttp_pipeline_lem :
      (head next : Bytes) (ks : List Chunk) (last : SizeLine) (ts : List Bytes)
      → IsRequest head
      → IsRequest next
      → AllChunks ks
      → IsSize last 0
      → AllTrailers ts
      → length (print_body ks last ts next) < 256
      → let wire = head ++ print_body ks last ts next in
        scenario_consumer_iohttp_pipeline is_token wire
        ≡ success ((length wire + length next) % 2 ^ 64)
  unfolding scenario_consumer_iohttp_pipeline
  scenario_consumer_iohttp_pipeline_lem head next ks last ts first second all size trailers short =
      let body = print_body ks last ts next in
      let (r, decoded, status, _, unread, _) =
        decode_chunked_body ks last ts next true all size trailers in
      let tail = decode_tail_lem head body next r decoded status short in
      rw
        (
          scenario_consumer_iohttp_pipeline,
          first_request-append head first body,
          meaning-append head first body,
          first.whole,
          tail,
        )
        (rw (unread, reset_lem head first, first_request_lem next second, meaning_lem next second)
          refl)
