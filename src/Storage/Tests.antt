-- ===== src/Storage/Tests.antt =====
-- The theorems on the storage at a concrete store: a log of writes in memory, the last write of a key
-- first.
use fernq.Prelude.{
  ◌≡◌, refl, ap, inl, inr, Option, none, some, List, [], ◌∷◌, ◌++◌, length, take, drop, take-append,
  drop-append, Result, ok, err, Bool-cases, if◌then◌else◌, subst, ok-injective,
}
use fernq.Prelude.Bytes.{Bytes}
use fernq.Prelude.Text.{text, same}
use fernq.Storage.{RoomModel, Among, Fjall, Bincode}

abbrev pub Log : Type 0
Log = List (Bytes × Option Bytes)

abbrev pub lookup : Log → Bytes → Option Bytes
lookup [] k = none
lookup ((j, o) ∷ log) k = let rest = lookup log k in if same j k then o else rest

abbrev pub written : Log → List (Result (Unit {0}) Bytes)
written [] = []
written ((j, none) ∷ log) = written log
written ((j, some v) ∷ log) = ok v ∷ written log

nothing_known : {a : Bytes} → ¬ (none ≡ some a)
nothing_known h = cc

same_value : {v w : Bytes} → some v ≡ some w → w ≡ v
same_value h = cc

pub lookup-written : (log : Log) (k v : Bytes) → lookup log k ≡ some v → Among (ok v) (written log)
lookup-written [] k v h = absurd (nothing_known h)
lookup-written ((j, none) ∷ log) k v h = elim (Bool-cases (same j k)) [
  | inl e ↦ absurd (nothing_known (subst (λ t. (if t then none else lookup log k) ≡ some v) e h))
  | inr e ↦ lookup-written log k v (subst (λ t. (if t then none else lookup log k) ≡ some v) e h)
]
lookup-written ((j, some w) ∷ log) k v h = elim (Bool-cases (same j k)) [
  | inl e ↦
      inl (ap ok (same_value (subst (λ t. (if t then some w else lookup log k) ≡ some v) e h)))
  | inr e ↦
      inr (lookup-written log k v (subst (λ t. (if t then some w else lookup log k) ≡ some v) e h))
]

abbrev pub log_store : Fjall
log_store = record {
  Keyspace = Log;
  Error = Unit {0};
  get = λ k log. ok (lookup log k);
  insert = λ k v log. (ok tt, (k, some v) ∷ log);
  remove = λ k log. (ok tt, (k, none) ∷ log);
  persist = λ log. ok tt;
  iter = written;
  len = λ log. ok (length log);
  contents = lookup;
  get-contents = λ k log o h. ok-injective refl h;
  insert-contents = λ k v log. inl refl;
  remove-contents = λ k log. inl refl;
  iter-contents = λ k v log h. inl (lookup-written log k v h);
}

-- A room as its first two lengths and its three texts.
abbrev pub written_room : RoomModel → Bytes
written_room r = length r.id ∷ length r.name ∷ (r.id ++ (r.name ++ r.password))

abbrev pub read_room : Bytes → Result Bytes RoomModel
read_room [] = err []
read_room (n ∷ []) = err []
read_room (n ∷ m ∷ bytes) =
    ok
      (record { id = take n bytes; name = take m (drop n bytes); password = drop m (drop n bytes) })

pub read_room-written_room : (r : RoomModel) → read_room (written_room r) ≡ ok r
read_room-written_room r =
    rw
      (
        take-append r.id (r.name ++ r.password),
        drop-append r.id (r.name ++ r.password),
        take-append r.name r.password,
        drop-append r.name r.password,
      )
      refl

abbrev pub plain : Bincode
plain = record {
  encode_to_vec = λ r. ok (written_room r);
  decode_from_slice = read_room;
  decode-encode =
      λ r bytes h. subst (λ b. read_room b ≡ ok r) (ok-injective refl h) (read_room-written_room r);
}

abbrev pub den : RoomModel
den = record { id = 1 ∷ []; name = text "den"; password = text "cat" }

-- A log with one room.
abbrev pub den_log : Log
den_log = (1 ∷ [], some (written_room den)) ∷ []
