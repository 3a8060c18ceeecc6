-- ===== src/Protocol/Validate/RoundTrip.antt =====
-- The URL of a room: put together and taken apart again.
use fernq.Prelude.{
  ◌≡◌, refl, true, false, not, some, ◌∷◌, ◌++◌, Result, ok, err, panic, stuck, take_some, subst,
  ok-injective, take_ok, pass_if, not-eq-false, sym, ap, ◌∙◌,
}
use fernq.Prelude.Bytes.{Bytes}
use fernq.Prelude.Text.{text, is_utf8}
use fernq.Prelude.Search.{
  lacks-Lacks, find, split, rsplit_next, starts_with, Lacks, Lacks-append, starts_with-append,
  starts_with_refl, strip_prefix-append, find-append, rsplit_next-append, split_one, find_sound,
}
use fernq.Protocol.Validate.{
  is_empty, protocol_prefix, find_param, extract_password, extract_name, extract_uuid,
  parse_validate, as_invalid_uuid,
}

-- What stands in the URL of a room: `fernq://address/uuid#name?room_pass=password`.
pub record RoomUrl : Type 0 where
  pub address : Bytes
  pub uuid : Bytes
  pub name : Bytes
  pub password : Bytes

abbrev pub path_of : RoomUrl → Bytes
path_of u = (protocol_prefix ++ u.address) ++ b'/' ∷ u.uuid

abbrev pub url_of : RoomUrl → Bytes
url_of u = (path_of u ++ b'#' ∷ u.name) ++ b'?' ∷ (text "room_pass=" ++ u.password)

-- The parts are there, are UTF-8, and hold no mark that ends them.
pub record IsRoomUrl (u : RoomUrl) : Type 0 where
  pub utf8 : is_utf8 (url_of u) ≡ true
  pub has_uuid : is_empty u.uuid ≡ false
  pub has_name : is_empty u.name ≡ false
  pub has_password : is_empty u.password ≡ false
  pub address_query : Lacks b'?' u.address
  pub uuid_query : Lacks b'?' u.uuid
  pub name_query : Lacks b'?' u.name
  pub address_hash : Lacks b'#' u.address
  pub uuid_hash : Lacks b'#' u.uuid
  pub uuid_slash : Lacks b'/' u.uuid
  pub password_and : Lacks b'&' u.password

prefix_query : Lacks b'?' protocol_prefix
unfolding text
prefix_query = lacks-Lacks b'?' protocol_prefix refl

prefix_hash : Lacks b'#' protocol_prefix
unfolding text
prefix_hash = lacks-Lacks b'#' protocol_prefix refl

key_and : Lacks b'&' (text "room_pass=")
unfolding text
key_and = lacks-Lacks b'&' (text "room_pass=") refl

url_of_starts : (u : RoomUrl) → starts_with protocol_prefix (url_of u) ≡ true
url_of_starts u = starts_with-append protocol_prefix (path_of u ++ b'#' ∷ u.name) _ (
    starts_with-append protocol_prefix (path_of u) _ (
      starts_with-append protocol_prefix (protocol_prefix ++ u.address) _
        (starts_with-append protocol_prefix protocol_prefix _ (starts_with_refl protocol_prefix))))

module _ (u : RoomUrl) (v : IsRoomUrl u) where
  path_query : Lacks b'?' (path_of u ++ b'#' ∷ u.name)
  path_query =
      Lacks-append b'?' (path_of u) _
        (Lacks-append b'?' (protocol_prefix ++ u.address) _
          (Lacks-append b'?' protocol_prefix _ prefix_query v.address_query) (refl, v.uuid_query))
        (refl, v.name_query)

  path_hash : Lacks b'#' (path_of u)
  path_hash =
      Lacks-append b'#' (protocol_prefix ++ u.address) _
        (Lacks-append b'#' protocol_prefix _ prefix_hash v.address_hash) (refl, v.uuid_hash)

  found_password : find_param (split b'&' (text "room_pass=" ++ u.password)) ≡ some u.password
  found_password =
      rw (split_one b'&' _ (Lacks-append b'&' (text "room_pass=") _ key_and v.password_and))
        (rw (strip_prefix-append (text "room_pass=") u.password) refl)

  extract_password-url_of :
      extract_password (url_of u) ≡ ok (path_of u ++ b'#' ∷ u.name, u.password)
  unfolding extract_password
  extract_password-url_of = rw (
    find-append b'?' _ (text "room_pass=" ++ u.password) path_query,
    found_password,
    v.has_password,
  )

  extract_name-path_of : extract_name (path_of u ++ b'#' ∷ u.name) ≡ ok (path_of u, u.name)
  unfolding extract_name
  extract_name-path_of = rw (find-append b'#' _ u.name path_hash, v.has_name)

-- The URL of a room whose parts hold no mark that ends them is parsed to its UUID, name and password.
pub parse_validate-url_of :
    {Uuid : Type 0} (parse_str : Bytes → Result Bytes Uuid) (u : RoomUrl) (id : Uuid)
    → IsRoomUrl u
    → parse_str u.uuid ≡ ok id
    → parse_validate parse_str (url_of u) ≡ ok (id, u.name, u.password)
unfolding parse_validate extract_uuid
parse_validate-url_of parse_str u id v e = rw (
  v.utf8,
  url_of_starts u,
  extract_password-url_of u v,
  extract_name-path_of u v,
  rsplit_next-append b'/' (protocol_prefix ++ u.address) u.uuid v.uuid_slash,
  v.has_uuid,
  e,
)

-- What a URL that is accepted looks like.
pub record IsParsed {Uuid : Type 0} (parse_str : Bytes → Result Bytes Uuid) (url : Bytes)
    (id : Uuid) (name password : Bytes) : Type 0 where
  pub utf8 : is_utf8 url ≡ true
  pub prefixed : starts_with protocol_prefix url ≡ true
  pub base : Bytes
  pub query : Bytes
  pub parts : url ≡ (base ++ b'#' ∷ name) ++ b'?' ∷ query
  pub has_name : is_empty name ≡ false
  pub has_password : is_empty password ≡ false
  pub param : find_param (split b'&' query) ≡ some password
  pub id_of : parse_str (rsplit_next b'/' base) ≡ ok id

extract_password_sound :
    {P : Type 0} (url base password : Bytes)
    → extract_password url ≡ ok (base, password)
    → ((query : Bytes)
        → url ≡ base ++ b'?' ∷ query
        → find_param (split b'&' query) ≡ some password
        → is_empty password ≡ false
        → P)
    → P
unfolding extract_password
extract_password_sound url base password h go = take_some (find b'?' url) _ _ h λ (x, query) e h1.
    take_some (find_param (split b'&' query)) _ _ h1 λ y e1 h2.
      pass_if (is_empty y) _ _ h2 λ filled h3.
        let q : ◌≡◌ {A = Bytes × Bytes} (x, y) (base, password) = ok-injective refl h3 in
        go query ((find_sound b'?' url x query e).0 ∙ ap (λ r. r.0 ++ b'?' ∷ query) q)
          (e1 ∙ ap (λ r. some r.1) q) (ap (λ r. is_empty r.1) (sym q) ∙ filled)

extract_name_sound :
    {P : Type 0} (url base name : Bytes)
    → extract_name url ≡ ok (base, name)
    → (url ≡ base ++ b'#' ∷ name → is_empty name ≡ false → P)
    → P
unfolding extract_name
extract_name_sound url base name h go = take_some (find b'#' url) _ _ h λ (x, y) e h1.
    pass_if (is_empty y) _ _ h1 λ filled h2.
      let q : ◌≡◌ {A = Bytes × Bytes} (x, y) (base, name) = ok-injective refl h2 in
      go ((find_sound b'#' url x y e).0 ∙ ap (λ r. r.0 ++ b'#' ∷ r.1) q)
        (ap (λ r. is_empty r.1) (sym q) ∙ filled)

known_uuid :
    {Uuid : Type 0} (parse_str : Bytes → Result Bytes Uuid) (s : Bytes) {id : Uuid}
    (m : Result Bytes Uuid)
    → as_invalid_uuid parse_str s m ≡ ok id
    → m ≡ ok id
known_uuid parse_str s (ok a) h = cc
known_uuid parse_str s (err e) h = cc
known_uuid parse_str s panic h = cc
known_uuid parse_str s stuck h = cc

extract_uuid_sound :
    {Uuid : Type 0} (parse_str : Bytes → Result Bytes Uuid) (url : Bytes) (id : Uuid)
    → extract_uuid parse_str url ≡ ok id
    → parse_str (rsplit_next b'/' url) ≡ ok id
unfolding extract_uuid
extract_uuid_sound parse_str url id h =
    pass_if (is_empty (rsplit_next b'/' url)) _ _ h
      λ filled h1. known_uuid parse_str _ (parse_str (rsplit_next b'/' url)) h1

-- A URL that is accepted is UTF-8, starts with `fernq://`, and is a base, `#`, a name, `?` and a query
-- that has the password as its first `room_pass` parameter; name and password are not empty, and the
-- UUID is parsed from what stands behind the last slash of the base.
pub parse_validate_sound :
    {Uuid : Type 0} (parse_str : Bytes → Result Bytes Uuid) (url : Bytes) (id : Uuid)
    (name password : Bytes)
    → parse_validate parse_str url ≡ ok (id, name, password)
    → IsParsed parse_str url id name password
unfolding parse_validate
parse_validate_sound {Uuid = Uuid} parse_str url id name password h =
    pass_if (not (is_utf8 url)) _ _ h λ utf8 h1.
      pass_if (not (starts_with protocol_prefix url)) _ _ h1 λ prefixed h2.
        take_ok (extract_password url) _ h2 λ (x, p) e1 h3.
          take_ok (extract_name x) _ h3 λ (base, n) e2 h4.
            take_ok (extract_uuid parse_str base) _ h4 λ i e3 h5.
              extract_password_sound url x p e1 λ query parts param has_password.
                extract_name_sound x base n e2 λ named has_name.
                  subst (λ (r : Uuid × Bytes × Bytes). IsParsed parse_str url r.0 r.1 r.2)
                    (ok-injective refl h5)
                    (record {
                      utf8 = not-eq-false _ utf8;
                      prefixed = not-eq-false _ prefixed;
                      base = base;
                      query = query;
                      parts = parts ∙ ap (λ s. s ++ b'?' ∷ query) named;
                      has_name = has_name;
                      has_password = has_password;
                      param = param;
                      id_of = extract_uuid_sound parse_str base i e3;
                    })
