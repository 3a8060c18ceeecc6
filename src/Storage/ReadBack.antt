-- ===== src/Storage/ReadBack.antt =====
-- What `create_room` wrote, `get_room` reads.
use fernq.Prelude.{◌≡◌, refl, sym, ap, ◌∙◌, subst, Option, some, ok}
use fernq.Prelude.Bytes.{Bytes}
use fernq.Prelude.Text.{same_refl}
use fernq.Prelude.Action.{Post}
use fernq.Storage.{RoomModel, Fjall, Bincode, new_model, create_room, get_room, from_bytes}
use fernq.Storage.Saved.{IsSaved, IsSavedOrNot, create_room_lem}

module _ (fjall : Fjall) (bincode : Bincode) where
  open fjall use {Keyspace, Error, contents}

  saved_entry :
      (room : RoomModel) (s s' : Keyspace) (o : Option Bytes)
      → IsSaved fjall bincode room s s'
      → fjall.get room.id s' ≡ ok o
      → (bytes : Bytes) × (o ≡ some bytes) × (bincode.decode_from_slice bytes ≡ ok room)
  saved_entry room s s' o (bytes, d, e) h = (
    bytes,
    sym (fjall.get-contents room.id s' o h) ∙ ap (λ m. m room.id) e ∙ rw (same_refl room.id) refl,
    d,
  )

  get_room-IsSaved :
      (room : RoomModel) (s s' : Keyspace) (o : Option Bytes)
      → IsSaved fjall bincode room s s'
      → fjall.get room.id s' ≡ ok o
      → get_room fjall bincode room.id s' ≡ ok (some room)
  unfolding get_room from_bytes
  get_room-IsSaved room s s' o saved h =
      let (bytes, e, d) = saved_entry room s s' o saved h in rw (h, e, d) refl

  pub create_room-IsSaved :
      (id name password : Bytes) (s s' : Keyspace) (room : RoomModel)
      → create_room fjall bincode id name password s ≡ (ok room, s')
      → (room ≡ new_model fjall bincode id name password)
        × IsSaved fjall bincode (new_model fjall bincode id name password) s s'
  unfolding Post
  create_room-IsSaved id name password s s' room made =
      subst
        (λ r.
          Post
            (λ m t.
              (m ≡ new_model fjall bincode id name password)
              × IsSaved fjall bincode (new_model fjall bincode id name password) s t)
            (IsSavedOrNot fjall bincode (new_model fjall bincode id name password) s) r)
        made (create_room_lem fjall bincode id name password s)

  -- After `create_room` succeeded, `get_room` with the id of the room returns it, if the disk can be
  -- read.
  pub get_room-create_room :
      (id name password : Bytes) (s s' : Keyspace) (room : RoomModel) (o : Option Bytes)
      → create_room fjall bincode id name password s ≡ (ok room, s')
      → fjall.get id s' ≡ ok o
      → get_room fjall bincode id s' ≡ ok (some (new_model fjall bincode id name password))
  get_room-create_room id name password s s' room o made h =
      get_room-IsSaved (new_model fjall bincode id name password) s s' o
        (create_room-IsSaved id name password s s' room made).1 h
