-- ===== src/Protocol/Json.antt =====
-- What the protocol uses of the serde_json crate, as an interface: values, objects and their text.
use fernq.Prelude.{ℕ, ◌^◌, ◌<◌, ◌≡◌, Bool, Option, none, some, if◌then◌else◌, Result}
use fernq.Prelude.Bytes.{Bytes}
use fernq.Prelude.Text.{same}

pub record Json : Type 1 where
  pub Value : Type 0
  pub Object : Type 0
  -- `Map::new`, `Map::insert` and `Map::get`.
  pub empty : Object
  pub insert : Bytes → Value → Object → Object
  pub get : Bytes → Object → Option Value
  -- `Value::String`, `Value::Number` of a `u16`, `Value::Object`, `Value::Bool`.
  pub string : Bytes → Value
  pub number : ℕ → Value
  pub object : Object → Value
  pub boolean : Bool → Value
  pub as_str : Value → Option Bytes
  pub as_bool : Value → Option Bool
  pub as_u64 : Value → Option ℕ
  pub as_object : Value → Option Object
  -- `Value::to_string`.
  pub to_string : Value → Bytes
  -- `to_vec`, `from_slice`: an error is the text that `to_string` gives of it.
  pub to_vec : Value → Result Bytes Bytes
  pub from_slice : Bytes → Result Bytes Value
  -- `serde_json::to_string`, and `from_str`.
  pub to_str : Value → Result Bytes Bytes
  pub from_str : Bytes → Result Bytes Value
  pub get-empty : (k : Bytes) → get k empty ≡ none
  pub get-insert :
      (k j : Bytes) (v : Value) (m : Object)
      → get j (insert k v m) ≡ (if same k j then some v else get j m)
  pub as_str-string : (s : Bytes) → as_str (string s) ≡ some s
  pub as_bool-boolean : (b : Bool) → as_bool (boolean b) ≡ some b
  pub as_u64-number : (n : ℕ) → n < 2 ^ 16 → as_u64 (number n) ≡ some n
  pub as_object-object : (m : Object) → as_object (object m) ≡ some m
