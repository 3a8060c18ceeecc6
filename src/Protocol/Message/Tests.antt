-- ===== src/Protocol/Message/Tests.antt =====
-- The theorems on messages at concrete values, with a small JSON: strings, numbers and objects.
use fernq.Prelude.{
  ap, ok-injective, ◌∷◌, Result, ℕ, ◌≡◌, [], refl, Bool, true, false, Option, none, some, ok, err,
  arith, if◌then◌else◌,
}
use fernq.Prelude.Bytes.{Bytes}
use fernq.Prelude.Text.{text, same}
use fernq.Protocol.Json.{Json}
use fernq.Protocol.Message.{
  request_with_body, decode_from_string, decode_from_bytes, allows_body, with_body, Message,
  request, response, json_type, form_type, encode_request, encode_response, decode_message,
  request_object,
}
use fernq.Protocol.Message.RoundTrip
use fernq.Protocol.Message.Strings

mutual
  pub data TestValue : Type 0 where
    test_string : Bytes → TestValue
    test_number : ℕ → TestValue
    test_bool : Bool → TestValue
    test_object : (Bytes → TestField) → TestValue
    test_array : TestList → TestValue

  pub data TestList : Type 0 where
    last : TestList
    item : TestValue → TestList → TestList

  pub data TestField : Type 0 where
    missing : TestField
    found : TestValue → TestField

abbrev pub field_value : TestField → Option TestValue
field_value missing = none
field_value (found v) = some v

pub field_value-found :
    (hit : Bool) (v : TestValue) (f : TestField)
    → field_value (if hit then found v else f) ≡ (if hit then some v else field_value f)
field_value-found true v f = refl
field_value-found false v f = refl

abbrev pub str_of : TestValue → Option Bytes
str_of (test_string s) = some s
str_of (test_number n) = none
str_of (test_array l) = none
str_of (test_bool b) = none
str_of (test_object m) = none

abbrev pub number_of : TestValue → Option ℕ
number_of (test_string s) = none
number_of (test_number n) = some n
number_of (test_array l) = none
number_of (test_bool b) = none
number_of (test_object m) = none

abbrev pub object_of : TestValue → Option (Bytes → TestField)
object_of (test_string s) = none
object_of (test_number n) = none
object_of (test_array l) = none
object_of (test_bool b) = none
object_of (test_object m) = some m

abbrev pub truth_of : TestValue → Option Bool
truth_of (test_array l) = none
truth_of (test_bool b) = some b
truth_of (test_string s) = none
truth_of (test_number n) = none
truth_of (test_object m) = none

-- Its text is a parameter: every value is written as `written`, and every text is read as `read`.
abbrev pub json_with : (written : Bytes) (read : Result Bytes TestValue) → Json
json_with written read = record {
  Value = TestValue;
  Object = Bytes → TestField;
  empty = λ k. missing;
  insert = λ k v m j. if same k j then found v else m j;
  get = λ k m. field_value (m k);
  string = test_string;
  number = test_number;
  object = test_object;
  boolean = test_bool;
  as_str = str_of;
  as_u64 = number_of;
  as_bool = truth_of;
  as_object = object_of;
  to_string = λ v. written;
  to_vec = λ v. ok written;
  to_str = λ v. ok written;
  from_slice = λ b. read;
  from_str = λ b. read;
  get-empty = λ k. refl;
  get-insert = λ k j v m. field_value-found (same k j) v (m j);
  as_str-string = λ s. refl;
  as_bool-boolean = λ b. refl;
  as_u64-number = λ n h. refl;
  as_object-object = λ m. refl;
}

abbrev pub test_json : Json
test_json = json_with [] (err [])

abbrev ping_path : Bytes
ping_path = text "/api/ping"

abbrev five : Message TestValue
five = request (request_with_body ping_path (test_number 5))

-- This JSON knows one text, which stands for the request.
abbrev five_json : Json
five_json =
    json_with (7 ∷ [])
      (ok (test_object (request_object test_json ping_path json_type (some (test_number 5)))))

decode_from_string-string_of_example :
    (Strings.string_of five_json five ≡ ok (7 ∷ [])
      → decode_from_string five_json (7 ∷ []) ≡ ok five)
    × (Strings.bytes_of five_json five ≡ ok (7 ∷ [])
        → decode_from_bytes five_json (7 ∷ []) ≡ ok five)
unfolding encode_request allows_body with_body
decode_from_string-string_of_example =
    Strings.decode_from_string-string_of five_json five (7 ∷ []) (7 ∷ [])
      (λ v bytes e. (λ h. ap ok (ok-injective refl e), λ h. ap ok (ok-injective refl e)))

decode_message-encode_response_example :
    (v : TestValue) × (encode_response test_json 404 form_type none ≡ ok v)
    × (decode_message test_json v
        ≡ ok (response (record { content_type = form_type; state = 404; body = none })))
unfolding allows_body
decode_message-encode_response_example =
    RoundTrip.decode_message-encode_response test_json 404 form_type none (omega arith)
      (omega arith) refl

abbrev ping_request : Message TestValue
ping_request = request (record { content_type = json_type; path = ping_path; body = none })
