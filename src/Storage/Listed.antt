-- ===== src/Storage/Listed.antt =====
-- Which rooms `list_all_rooms` returns.
use fernq.Prelude.{
  ◌≡◌, refl, sym, ap, ◌∙◌, subst, inl, inr, Option, some, List, [], ◌∷◌, Result, ok, err,
  ok-injective, take_ok,
}
use fernq.Prelude.Bytes.{Bytes}
use fernq.Storage.{
  RoomModel, Among, Fjall, Bincode, from_fjall, from_bytes, collect, list_all_rooms,
}
use fernq.Storage.Saved.{known_fjall}

module _ (fjall : Fjall) (bincode : Bincode) where
  open fjall use {Keyspace, Error, contents}

  -- The entry of the key holds the room.
  abbrev pub Holds : (Bytes → Option Bytes) → Bytes → RoomModel → Type 0
  Holds m k room = (v : Bytes) × (m k ≡ some v) × (from_bytes fjall bincode v ≡ ok room)

  -- Each entry that holds a room is under the id of that room.
  abbrev pub IsKeyed : (Bytes → Option Bytes) → Type 0
  IsKeyed m = (k : Bytes) (room : RoomModel) → Holds m k room → room.id ≡ k

  -- An iteration meets nothing but entries.
  abbrev pub IsIterated : Keyspace → Type 0
  IsIterated s = (v : Bytes) → Among (ok v) (fjall.iter s) → (k : Bytes) × (contents s k ≡ some v)

  -- What a list of items must be for `collect` to give these rooms: each room is made from an item, each item is
  -- a room, and no item is an error.
  collect_sound :
      (items : List (Result Error Bytes)) (rooms : List RoomModel) (room : RoomModel)
      → collect fjall bincode items ≡ ok rooms
      → Among room rooms
      → (v : Bytes) × Among (ok v) items × (from_bytes fjall bincode v ≡ ok room)
  collect_sound [] rooms room h k =
      absurd (subst (λ rs. Among room rs) (sym (ok-injective refl h)) k)
  collect_sound (item ∷ items) rooms room h k =
      take_ok (from_fjall fjall bincode item) _ h λ bytes e1 h1.
        take_ok (from_bytes fjall bincode bytes) _ h1 λ first e2 h2.
          take_ok (collect fjall bincode items) _ h2 λ others e3 h3.
            let k' : Among room (first ∷ others) =
              subst (λ rs. Among room rs) (sym (ok-injective refl h3)) k in
            elim k' [
              | inl at ↦
                  (bytes, inl (sym (known_fjall fjall bincode item bytes e1)), e2 ∙ ap ok (sym at))
              | inr later ↦
                  let (v, among, d) = collect_sound items others room e3 later in (v, inr among, d)
            ]

  collect_complete :
      (items : List (Result Error Bytes)) (rooms : List RoomModel) (v : Bytes)
      → collect fjall bincode items ≡ ok rooms
      → Among (ok v) items
      → (room : RoomModel) × Among room rooms × (from_bytes fjall bincode v ≡ ok room)
  collect_complete [] rooms v h k = absurd k
  collect_complete (item ∷ items) rooms v h k =
      take_ok (from_fjall fjall bincode item) _ h λ bytes e1 h1.
        take_ok (from_bytes fjall bincode bytes) _ h1 λ first e2 h2.
          take_ok (collect fjall bincode items) _ h2 λ others e3 h3.
            subst
              (λ rs. (room : RoomModel) × Among room rs × (from_bytes fjall bincode v ≡ ok room))
              (ok-injective refl h3)
              (elim k [
                | inl at ↦
                    let same_bytes : v ≡ bytes =
                      ok-injective refl (ap (λ i. from_fjall fjall bincode i) at ∙ e1) in
                    (first, inl refl, ap (λ b. from_bytes fjall bincode b) same_bytes ∙ e2)
                | inr later ↦
                    let (room, among, d) = collect_complete items others v e3 later in
                    (room, inr among, d)
              ])

  collect_no_error :
      (items : List (Result Error Bytes)) (rooms : List RoomModel) (e : Error)
      → collect fjall bincode items ≡ ok rooms
      → ¬ Among (err e) items
  collect_no_error [] rooms e h k = k
  collect_no_error (item ∷ items) rooms e h k =
      take_ok (from_fjall fjall bincode item) _ h λ bytes e1 h1.
        take_ok (from_bytes fjall bincode bytes) _ h1 λ first e2 h2.
          take_ok (collect fjall bincode items) _ h2 λ others e3 h3. elim k [
            | inl at ↦
                let no : from_fjall fjall bincode (err e) ≡ ok bytes =
                  ap (λ i. from_fjall fjall bincode i) at ∙ e1 in
                absurd (cc)
            | inr later ↦ collect_no_error items others e e3 later
          ]

  module _ (s : Keyspace) (rooms : List RoomModel)
      (listed : list_all_rooms fjall bincode s ≡ ok rooms) where
    -- A listed room is held by an entry.
    pub list_all_rooms-Holds :
        IsIterated s
        → (room : RoomModel) → Among room rooms
        → (k : Bytes) × Holds (contents s) k room
    unfolding list_all_rooms
    list_all_rooms-Holds iterated room k =
        let (v, among, d) = collect_sound (fjall.iter s) rooms room listed k in
        let (key, at) = iterated v among in (key, (v, at, d))

    -- An entry holds a listed room.
    pub Holds-list_all_rooms :
        (k v : Bytes)
        → contents s k ≡ some v
        → (room : RoomModel) × Among room rooms × (from_bytes fjall bincode v ≡ ok room)
    unfolding list_all_rooms
    Holds-list_all_rooms k v at = elim (fjall.iter-contents k v s at) [
      | inl found ↦ collect_complete (fjall.iter s) rooms v listed found
      | inr (e, failed) ↦ absurd (collect_no_error (fjall.iter s) rooms e listed failed)
    ]
