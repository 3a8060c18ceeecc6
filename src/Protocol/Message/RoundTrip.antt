-- ===== src/Protocol/Message/RoundTrip.antt =====
-- Messages encoded and decoded again, and what decoding accepts.
use fernq.Prelude.{
  ℕ, ◌^◌, ◌≤◌, ◌<◌, ◌≡◌, refl, false, not, ◌&&◌, Option, none, some, ok, arith, take_some,
  ok-injective, pass_if, take_ok, subst,
}
use fernq.Prelude.Bytes.{Bytes, as_u16}
use fernq.Prelude.Text.{text, same, same_refl}
use fernq.Protocol.Json.{Json}
use fernq.Protocol.Message.{
  get_str, get_u64, decode_as, with_body, request_object, response_object, ContentType, json_type,
  form_type, form_flow_type, allows_body, is_some, bad_state, Message, request, response,
  encode_request, encode_response, decode_message, decode_request, decode_response, header_str,
  content_str, parse_header_type, parse_content_type, request_type, response_type, HeaderType,
}

parse_content_type-content_str : (c : ContentType) → parse_content_type (content_str c) ≡ ok c
unfolding parse_content_type content_str
parse_content_type-content_str json_type = refl
parse_content_type-content_str form_type = refl
parse_content_type-content_str form_flow_type = refl

parse_header_type-header_str : (h : HeaderType) → parse_header_type (header_str h) ≡ ok h
unfolding parse_header_type header_str
parse_header_type-header_str request_type = refl
parse_header_type-header_str response_type = refl

bad_state-range : (n : ℕ) → bad_state n ≡ false → (100 ≤ n) × (n ≤ 599)
bad_state-range n h = (ground arith, ground arith)

module _ (json : Json) where
  open json use {Value, Object, get, insert, string, number, object, empty}

  get-with_body :
      (k : Bytes) (b : Option Value) (m : Object)
      → same (text "body") k ≡ false
      → get k (with_body json b m) ≡ get k m
  unfolding with_body
  get-with_body k none m other = refl
  get-with_body k (some b) m other = rw (json.get-insert, other)

  get_body-with_body :
      (b : Option Value) (m : Object)
      → get (text "body") m ≡ none
      → get (text "body") (with_body json b m) ≡ b
  unfolding with_body
  get_body-with_body none m missing = missing
  get_body-with_body (some b) m missing = rw (json.get-insert, same_refl (text "body"))

  get_str-some : (k s : Bytes) (m : Object) → get k m ≡ some (string s) → get_str json k m ≡ some s
  unfolding get_str
  get_str-some k s m h = rw (h, get_str) (json.as_str-string s)

  get_u64-some :
      (k : Bytes) (n : ℕ) (m : Object)
      → n < 2 ^ 16
      → get k m ≡ some (number n)
      → get_u64 json k m ≡ some n
  unfolding get_u64
  get_u64-some k n m small h = rw (h, get_u64) (json.as_u64-number n small)

  -- What the decoders find in the object of a request.
  module _ (path : Bytes) (c : ContentType) (b : Option Value) where
    request_header :
        get (text "header_type") (request_object json path c b)
        ≡ some (string (header_str request_type))
    unfolding text same
    request_header = rw (get-with_body (text "header_type") b _ refl) (simp (json.get-insert))

    request_content :
        get (text "content_type") (request_object json path c b) ≡ some (string (content_str c))
    unfolding text same
    request_content = rw (get-with_body (text "content_type") b _ refl) (simp (json.get-insert))

    request_path : get (text "path") (request_object json path c b) ≡ some (string path)
    unfolding text same
    request_path = rw (get-with_body (text "path") b _ refl) (simp (json.get-insert))

    request_body : get (text "body") (request_object json path c b) ≡ b
    unfolding text same
    request_body = get_body-with_body b _ (simp (json.get-insert, json.get-empty))

    -- A request that has a body only where its content type allows one is encoded, and decoding
    -- gives it back.
    pub decode_message-encode_request :
        (not (allows_body c) && is_some b) ≡ false
        → (v : Value) × (encode_request json path c b ≡ ok v)
          × (decode_message json v
              ≡ ok (request (record { content_type = c; path = path; body = b })))
    unfolding encode_request decode_message decode_request decode_as
    decode_message-encode_request allowed = (
      object (request_object json path c b),
      rw allowed,
      rw (
        json.as_object-object (request_object json path c b),
        get_str-some _ _ _ request_header,
        parse_header_type-header_str request_type,
        get_str-some _ _ _ request_content,
        parse_content_type-content_str c,
        get_str-some _ _ _ request_path,
        request_body,
        allowed,
      ),
    )

  -- What they find in the object of a response.
  module _ (state : ℕ) (c : ContentType) (b : Option Value) where
    response_header :
        get (text "header_type") (response_object json state c b)
        ≡ some (string (header_str response_type))
    unfolding text same
    response_header = rw (get-with_body (text "header_type") b _ refl) (simp (json.get-insert))

    response_content :
        get (text "content_type") (response_object json state c b) ≡ some (string (content_str c))
    unfolding text same
    response_content = rw (get-with_body (text "content_type") b _ refl) (simp (json.get-insert))

    response_state : get (text "state") (response_object json state c b) ≡ some (number state)
    unfolding text same
    response_state = rw (get-with_body (text "state") b _ refl) (simp (json.get-insert))

    response_body : get (text "body") (response_object json state c b) ≡ b
    unfolding text same
    response_body = get_body-with_body b _ (simp (json.get-insert, json.get-empty))

    -- A response with a state from 100 to 599 that has a body only where its content type allows one
    -- is encoded, and decoding gives it back.
    pub decode_message-encode_response :
        100 ≤ state
        → state ≤ 599
        → (not (allows_body c) && is_some b) ≡ false
        → (v : Value) × (encode_response json state c b ≡ ok v)
          × (decode_message json v
              ≡ ok (response (record { content_type = c; state = state; body = b })))
    unfolding encode_response decode_message decode_response decode_as
    decode_message-encode_response lo hi allowed =
        let good : bad_state state ≡ false = ground arith in
        let same_state : as_u16 state ≡ state = omega arith in
        (
          object (response_object json state c b),
          rw (good, allowed),
          rw (
            json.as_object-object (response_object json state c b),
            get_str-some _ _ _ response_header,
            parse_header_type-header_str response_type,
            get_str-some _ _ _ response_content,
            parse_content_type-content_str c,
            get_u64-some _ _ _ (omega arith) response_state,
            same_state,
            good,
            response_body,
            allowed,
          ),
        )

  -- What a response was encoded to is decoded to it.
  pub decode_message-encoded :
      (state : ℕ) (c : ContentType) (b : Option Value) (v : Value)
      → encode_response json state c b ≡ ok v
      → decode_message json v ≡ ok (response (record { content_type = c; state = state; body = b }))
  unfolding encode_response
  decode_message-encoded state c b v h = pass_if (bad_state state) _ _ h λ range h1.
      pass_if (not (allows_body c) && is_some b) _ _ h1 λ allowed h2.
        let r = bad_state-range state range in
        let (v', made, decoded) = decode_message-encode_response state c b r.0 r.1 allowed in
        subst
          (λ w.
            decode_message json w
            ≡ ok (response (record { content_type = c; state = state; body = b })))
          (ok-injective made h) decoded

  -- A message that its encoder accepts.
  abbrev pub IsLawful : Message Value → Type 0
  IsLawful (request r) = (not (allows_body r.content_type) && is_some r.body) ≡ false
  IsLawful (response r) =
      (100 ≤ r.state)
      × (r.state ≤ 599)
      × ((not (allows_body r.content_type) && is_some r.body) ≡ false)

  decode_request-IsLawful :
      (obj : Object) (c : ContentType) (m : Message Value)
      → decode_request json obj c ≡ ok m
      → IsLawful m
  unfolding decode_request
  decode_request-IsLawful obj c m h = take_some (get_str json (text "path") obj) _ _ h λ path e1 h1.
      pass_if (not (allows_body c) && is_some (get (text "body") obj)) _ _ h1
        λ good h2. subst IsLawful (ok-injective refl h2) good

  decode_response-IsLawful :
      (obj : Object) (c : ContentType) (m : Message Value)
      → decode_response json obj c ≡ ok m
      → IsLawful m
  unfolding decode_response
  decode_response-IsLawful obj c m h = take_some (get_u64 json (text "state") obj) _ _ h λ n e1 h1.
      pass_if (bad_state (as_u16 n)) _ _ h1 λ range h2.
        pass_if (not (allows_body c) && is_some (get (text "body") obj)) _ _ h2 λ good h3.
          subst IsLawful (ok-injective refl h3)
            (let r = bad_state-range _ range in (r.0, r.1, good))

  decode_as-IsLawful :
      (t : HeaderType) (obj : Object) (c : ContentType) (m : Message Value)
      → decode_as json t obj c ≡ ok m
      → IsLawful m
  unfolding decode_as
  decode_as-IsLawful request_type = decode_request-IsLawful
  decode_as-IsLawful response_type = decode_response-IsLawful

  -- A decoded message obeys the rules of the encoder: no body but with JSON, and a response's state
  -- from 100 to 599.
  pub decode_message-IsLawful :
      (v : Value) (m : Message Value) → decode_message json v ≡ ok m → IsLawful m
  unfolding decode_message
  decode_message-IsLawful v m h = take_some (json.as_object v) _ _ h λ obj e1 h1.
      take_some (get_str json (text "header_type") obj) _ _ h1 λ s e2 h2.
        take_ok (parse_header_type s) _ h2 λ t e3 h3.
          take_some (get_str json (text "content_type") obj) _ _ h3 λ s' e4 h4.
            take_ok (parse_content_type s') _ h4 λ c e5 h5. decode_as-IsLawful t obj c m h5
