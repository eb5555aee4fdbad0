-- ===== src/Proxy/Parse/Print/Unparse.antt =====
-- `ParsedRequest_unparse` and `ParsedRequest_totalLen` of http-proxy/src/proxy_parse.c.
use computer_networks.Prelude.{
  ℕ, ◌+◌, ◌-◌, ◌^◌, ◌≤◌, ◌<◌, ◌≡◌, refl, ◌∙◌, ap, sym, ◌⊎◌, inl, inr, true, false, none, some, List,
  [], ◌++◌, leb, ltb, length, drop, length-append, Bool-cases, arith, lt→ltb, le→ltb-false, ltb→lt,
  ltb-false→le,
}
use computer_networks.Prelude.Words.{Bytes, put, length-put}
use computer_networks.Proxy.Sockets.{gives}
use computer_networks.Proxy.Parse.Headers.{ParsedHeader, RequestLine, ParsedRequest}
use computer_networks.Proxy.Parse.Print.{
  parsed_header_headers_len, parsed_request_request_line_len, parsed_request_total_len, write_all,
  headers_pieces, parsed_header_print_headers, line_pieces, parsed_request_print_request_line,
  parsed_request_unparse,
}
use computer_networks.Proxy.Parse.Print.Text.{
  line_onto, headers_text, full_text, overlay_front, put-put, write_all_lem, joined-headers_pieces,
  joined-line_pieces, line-append, length-line, add_line_lens_lem,
}

module _ (l : RequestLine) (hs : List ParsedHeader) (headerslen : ℕ)
    (short : length (full_text l hs) < 2 ^ 31) where
  pr : ParsedRequest
  pr = record { line = some l; headers = hs; headerslen = headerslen }

  line_len : ℕ
  line_len = length (line_onto l [])

  headers_len : ℕ
  headers_len = length (headers_text hs)

  length-full_text : length (full_text l hs) ≡ line_len + headers_len
  unfolding line_len headers_len
  length-full_text =
      ap length (sym (line-append l (headers_text hs)))
      ∙ length-append (line_onto l []) (headers_text hs)

  headers_len_lem : parsed_header_headers_len pr ≡ headers_len
  unfolding parsed_header_headers_len headers_len pr
  headers_len_lem =
      let small : headers_len < 2 ^ 31 = omega (arith, length-full_text) in
      let sum = add_line_lens_lem hs 0 (omega arith) in ground (arith, sum, small)

  line_len_lem : parsed_request_request_line_len pr ≡ line_len
  unfolding parsed_request_request_line_len line_len pr
  line_len_lem = sym (length-line l)

  total_len_lem : parsed_request_total_len pr ≡ length (full_text l hs)
  unfolding parsed_request_total_len pr
  total_len_lem = omega (arith, line_len_lem, headers_len_lem, length-full_text)

  write_line :
      (buf : Bytes)
      → line_len ≤ length buf
      → write_all 0 (line_pieces l) buf ≡ gives (line_len, put 0 (line_onto l []) buf)
  unfolding line_len
  write_line buf fits =
      write_all_lem 0 (line_pieces l) buf (rw (joined-line_pieces l) (omega arith))
      ∙ rw (joined-line_pieces l) (ap (λ n. gives (n, put 0 (line_onto l []) buf)) (omega arith))

  write_headers :
      (start : ℕ) (buf : Bytes)
      → start + headers_len ≤ length buf
      → write_all start (headers_pieces pr.headers) buf
        ≡ gives (start + headers_len, put start (headers_text hs) buf)
  unfolding headers_len pr
  write_headers start buf fits =
      write_all_lem start (headers_pieces hs) buf (rw (joined-headers_pieces hs) fits)
      ∙ rw (joined-headers_pieces hs) refl

  print_line_lem :
      (buf : Bytes) (buflen : ℕ)
      → line_len ≤ buflen
      → buflen ≤ length buf
      → parsed_request_print_request_line pr l buf buflen
        ≡ gives (some line_len, put 0 (line_onto l []) buf)
  unfolding parsed_request_print_request_line
  print_line_lem buf buflen fits most =
      rw (line_len_lem, le→ltb-false buflen line_len fits, write_line buf (omega arith)) refl

  print_headers_lem :
      (start len : ℕ) (buf : Bytes)
      → headers_len ≤ len
      → start + len ≤ length buf
      → parsed_header_print_headers pr start len buf ≡ gives (true, put start (headers_text hs) buf)
  unfolding parsed_header_print_headers
  print_headers_lem start len buf fits most =
      rw (headers_len_lem, le→ltb-false len headers_len fits, write_headers start buf (omega arith))
        refl

  print_line_refuses :
      (buf : Bytes) (buflen : ℕ)
      → buflen < line_len
      → parsed_request_print_request_line pr l buf buflen ≡ gives (none, buf)
  unfolding parsed_request_print_request_line
  print_line_refuses buf buflen less = rw (line_len_lem, lt→ltb buflen line_len less) refl

  print_headers_refuses :
      (start len : ℕ) (buf : Bytes)
      → len < headers_len
      → parsed_header_print_headers pr start len buf ≡ gives (false, buf)
  unfolding parsed_header_print_headers
  print_headers_refuses start len buf less = rw (headers_len_lem, lt→ltb len headers_len less) refl

  text-front :
      (buf : Bytes)
      → length (full_text l hs) ≤ length buf
      → put line_len (headers_text hs) (put 0 (line_onto l []) buf)
        ≡ full_text l hs ++ drop (length (full_text l hs)) buf
  unfolding line_len put
  text-front buf fits =
      let from : 0 + length (line_onto l []) ≡ length (line_onto l []) = omega arith in
      (rw from at
        (put-put 0 (line_onto l []) (headers_text hs) buf (omega (arith, length-full_text))))
      ∙ rw (line-append l (headers_text hs)) (overlay_front (full_text l hs) buf fits)

  unparse_fits :
      (buf : Bytes) (buflen : ℕ)
      → length (full_text l hs) ≤ buflen
      → buflen ≤ length buf
      → parsed_request_unparse pr buf buflen
        ≡ gives (true, full_text l hs ++ drop (length (full_text l hs)) buf)
  unfolding parsed_request_unparse pr
  unparse_fits buf buflen fits most =
      rw (print_line_lem buf buflen (omega (arith, length-full_text)) most) (
        print_headers_lem line_len (buflen - line_len) (put 0 (line_onto l []) buf)
          (omega (arith, length-full_text))
          (omega (arith, length-full_text, length-put 0 (line_onto l []) buf))
        ∙ ap (λ b. gives (true, b)) (text-front buf (omega arith)))

  unparse_refuses :
      (buf : Bytes) (buflen : ℕ)
      → buflen < length (full_text l hs)
      → buflen ≤ length buf
      → (b : Bytes) × (parsed_request_unparse pr buf buflen ≡ gives (false, b))
  unfolding parsed_request_unparse pr
  unparse_refuses buf buflen less most = elim (Bool-cases (ltb buflen line_len)) [
    | inl no_line ↦ (buf, rw (print_line_refuses buf buflen (ltb→lt buflen line_len no_line)) refl)
    | inr line_fits ↦
        let fits = ltb-false→le buflen line_len line_fits in
        (
          put 0 (line_onto l []) buf,
          rw (print_line_lem buf buflen fits most) (
              print_headers_refuses line_len (buflen - line_len) (put 0 (line_onto l []) buf)
                (omega (arith, length-full_text, fits))),
        )
  ]

-- The length of a request is that of its text, if this is short of the limit of an int. If the text
-- is allowed, it is written to the front of the buffer, and the rest stays; if less is allowed than
-- the text, the printer fails; and it never leaves the buffer.
pub unparse_prints :
    (l : RequestLine) (hs : List ParsedHeader) (headerslen : ℕ) (buf : Bytes) (buflen : ℕ)
    → length (full_text l hs) < 2 ^ 31
    → buflen ≤ length buf
    → (parsed_request_total_len (record { line = some l; headers = hs; headerslen = headerslen })
        ≡ length (full_text l hs))
      × (b : Bytes) × (parsed_request_unparse
            (record { line = some l; headers = hs; headerslen = headerslen })
            buf
            buflen
          ≡ gives (leb (length (full_text l hs)) buflen, b))
      × ((buflen < length (full_text l hs))
          ⊎ (b ≡ full_text l hs ++ drop (length (full_text l hs)) buf))
unfolding pr
unparse_prints l hs headerslen buf buflen short most =
    let size = length (full_text l hs) in
    elim (Bool-cases (leb size buflen)) [
      | inl fits ↦
          let below : size ≤ buflen = ground (arith, fits) in
          (
            total_len_lem l hs headerslen short,
            full_text l hs ++ drop size buf,
            rw fits (unparse_fits l hs headerslen short buf buflen below most),
            inr refl,
          )
      | inr less ↦
          let above : buflen < size = ground (arith, less) in
          let (b, refuses) = unparse_refuses l hs headerslen short buf buflen above most in
          (total_len_lem l hs headerslen short, b, rw less refuses, inl above)
    ]
