-- ===== src/Storage/Saved.antt =====
-- What the storage leaves on disk.
use fernq.Prelude.{
  ◌≡◌, refl, sym, ap, ◌∙◌, subst, ◌⊎◌, inl, inr, Bool, true, false, Option, none, some, Result, ok,
  err, panic, stuck, ok-injective, take_ok,
}
use fernq.Prelude.Bytes.{Bytes}
use fernq.Prelude.Action.{Post, Post-run_next, Post-read, Post-ok}
use fernq.Storage.{
  RoomModel, put, delete, Fjall, Bincode, from_fjall, as_serialization, to_bytes, new_model,
  with_fjall, save_room, create_room, room_exists, is_stored, remove_stored, delete_room,
}

module _ (fjall : Fjall) (bincode : Bincode) where
  open fjall use {Keyspace, Error, contents}

  -- The entry of the room was written, and nothing else changed.
  abbrev pub IsSaved : RoomModel → Keyspace → Keyspace → Type 0
  IsSaved room s s' =
      (bytes : Bytes) × (bincode.decode_from_slice bytes ≡ ok room)
      × (contents s' ≡ put room.id bytes (contents s))

  abbrev pub IsSavedOrNot : RoomModel → Keyspace → Keyspace → Type 0
  IsSavedOrNot room s s' = IsSaved room s s' ⊎ (contents s' ≡ contents s)

  known_result :
      {A : Type 0} (context : Bytes) (m : Result Bytes A) (a : A)
      → as_serialization fjall bincode context m ≡ ok a
      → m ≡ ok a
  known_result context (ok b) a h = cc
  known_result context (err e) a h = cc
  known_result context panic a h = cc
  known_result context stuck a h = cc

  to_bytes_sound :
      (room : RoomModel) (bytes : Bytes)
      → to_bytes fjall bincode room ≡ ok bytes
      → bincode.decode_from_slice bytes ≡ ok room
  unfolding to_bytes
  to_bytes_sound room bytes h =
      bincode.decode-encode room bytes (known_result _ (bincode.encode_to_vec room) bytes h)

  pub known_fjall :
      {A : Type 0} (m : Result Error A) (a : A) → from_fjall fjall bincode m ≡ ok a → m ≡ ok a
  known_fjall (ok b) a h = ap ok (ok-injective refl h)
  known_fjall (err e) a h = cc
  known_fjall panic a h = cc
  known_fjall stuck a h = cc

  nothing_stored : (o : Option Bytes) → is_stored fjall bincode o ≡ false → o ≡ none
  nothing_stored none h = refl
  nothing_stored (some bytes) h = cc

  inserted :
      (room : RoomModel) (bytes : Bytes) (s : Keyspace) (o : Result Error (Unit {0}) × Keyspace)
      → bincode.decode_from_slice bytes ≡ ok room
      → (contents o.1 ≡ put room.id bytes (contents s))
        ⊎ ((e : Error) × (o.0 ≡ err e) × (contents o.1 ≡ contents s))
      → Post (λ u. IsSaved room s) (IsSavedOrNot room s) (with_fjall fjall bincode o)
  unfolding Post
  inserted room bytes s (ok u, s') d (inl done) = (bytes, d, done)
  inserted room bytes s (ok u, s') d (inr (e, h, same')) = absurd (cc)
  inserted room bytes s (err e, s') d (inl done) = inl (bytes, d, done)
  inserted room bytes s (err e, s') d (inr (f, h, kept)) = inr kept
  inserted room bytes s (panic, s') d (inl done) = inl (bytes, d, done)
  inserted room bytes s (panic, s') d (inr (f, h, kept)) = inr kept
  inserted room bytes s (stuck, s') d (inl done) = inl (bytes, d, done)
  inserted room bytes s (stuck, s') d (inr (f, h, kept)) = inr kept

  -- `save_room` writes the entry of the room, or fails and has written it or nothing.
  pub save_room_lem :
      (room : RoomModel) (s : Keyspace)
      → Post (λ u. IsSaved room s) (IsSavedOrNot room s) (save_room fjall bincode room s)
  unfolding save_room
  save_room_lem room s =
      Post-run_next (λ u. IsSaved room s)
        (λ (bytes : Bytes) s1. (s1 ≡ s) × (to_bytes fjall bincode room ≡ ok bytes))
        (IsSavedOrNot room s) (to_bytes fjall bincode room, s) _
        (Post-read _ _ (to_bytes fjall bincode room) s (λ bytes e. (refl, e)) (inr refl))
        λ bytes s1 (at, e).
          Post-run_next (λ u. IsSaved room s) (λ u. IsSaved room s) (IsSavedOrNot room s)
            (with_fjall fjall bincode (fjall.insert room.id bytes s1)) _
            (subst
              (λ x.
                Post (λ u. IsSaved room s) (IsSavedOrNot room s)
                  (with_fjall fjall bincode (fjall.insert room.id bytes x)))
              (sym at)
              (inserted room bytes s (fjall.insert room.id bytes s) (to_bytes_sound room bytes e)
                (fjall.insert-contents room.id bytes s)))
            λ u s2 saved.
              Post-run_next (λ u'. IsSaved room s) (λ u'. IsSaved room s) (IsSavedOrNot room s)
                (from_fjall fjall bincode (fjall.persist s2), s2) _
                (Post-read (λ u'. IsSaved room s) (IsSavedOrNot room s)
                  (from_fjall fjall bincode (fjall.persist s2)) s2 (λ u' e'. saved) (inl saved))
                λ u' s3 saved'. Post-ok _ _ _ tt s3 saved'

  -- And so does `create_room`, which returns that room.
  pub create_room_lem :
      (id name password : Bytes) (s : Keyspace)
      → Post
          (λ room s'.
            (room ≡ new_model fjall bincode id name password)
            × IsSaved (new_model fjall bincode id name password) s s')
          (IsSavedOrNot (new_model fjall bincode id name password) s)
          (create_room fjall bincode id name password s)
  unfolding create_room
  create_room_lem id name password s =
      Post-run_next _ (λ u. IsSaved (new_model fjall bincode id name password) s) _ _ _
        (save_room_lem (new_model fjall bincode id name password) s)
        λ u s' saved. Post-ok _ _ _ _ s' (refl, saved)

  -- The entry is gone, and nothing else changed.
  abbrev pub IsDeletedOrNot : Bytes → Keyspace → Keyspace → Type 0
  IsDeletedOrNot id s s' = (contents s' ≡ delete id (contents s)) ⊎ (contents s' ≡ contents s)

  -- What the answer of `delete_room` means: there was an entry, and it is gone, or there was none.
  abbrev pub IsDeleted : Bytes → Keyspace → Bool → Keyspace → Type 0
  IsDeleted id s existed s' =
      ((existed ≡ true) × (contents s' ≡ delete id (contents s)))
      ⊎ ((existed ≡ false) × (contents s id ≡ none) × (contents s' ≡ contents s))

  removed :
      (id : Bytes) (s : Keyspace) (o : Result Error (Unit {0}) × Keyspace)
      → (contents o.1 ≡ delete id (contents s))
        ⊎ ((e : Error) × (o.0 ≡ err e) × (contents o.1 ≡ contents s))
      → Post
          (λ u s'. contents s' ≡ delete id (contents s))
          (IsDeletedOrNot id s)
          (with_fjall fjall bincode o)
  unfolding Post
  removed id s (ok u, s') (inl done) = done
  removed id s (ok u, s') (inr (e, h, kept)) = absurd (cc)
  removed id s (err e, s') (inl done) = inl done
  removed id s (err e, s') (inr (f, h, kept)) = inr kept
  removed id s (panic, s') (inl done) = inl done
  removed id s (panic, s') (inr (f, h, kept)) = inr kept
  removed id s (stuck, s') (inl done) = inl done
  removed id s (stuck, s') (inr (f, h, kept)) = inr kept

  exists_sound :
      (id : Bytes) (s : Keyspace) → room_exists fjall bincode id s ≡ ok false → contents s id ≡ none
  unfolding room_exists
  exists_sound id s h = take_ok (from_fjall fjall bincode (fjall.get id s)) _ h λ o e h1.
      fjall.get-contents id s none
        (known_fjall (fjall.get id s) none (e ∙ ap ok (nothing_stored o (ok-injective refl h1))))

  remove_stored_lem :
      (id : Bytes) (s : Keyspace) (existed : Bool)
      → room_exists fjall bincode id s ≡ ok existed
      → Post
          (λ u. IsDeleted id s existed)
          (IsDeletedOrNot id s)
          (remove_stored fjall bincode id existed s)
  remove_stored_lem id s false e = Post-ok _ _ _ tt s (inr (refl, exists_sound id s e, refl))
  remove_stored_lem id s true e =
      Post-run_next _ (λ u s'. contents s' ≡ delete id (contents s)) (IsDeletedOrNot id s)
        (with_fjall fjall bincode (fjall.remove id s)) _
        (removed id s (fjall.remove id s) (fjall.remove-contents id s))
        λ u s' gone.
          Post-read _ _ (from_fjall fjall bincode (fjall.persist s')) s' (λ u' e'. inl (refl, gone))
            (inl gone)

  -- `delete_room` says whether there was an entry, which is gone; if it fails, it is gone or not.
  pub delete_room_lem :
      (id : Bytes) (s : Keyspace)
      → Post (IsDeleted id s) (IsDeletedOrNot id s) (delete_room fjall bincode id s)
  unfolding delete_room
  delete_room_lem id s =
      Post-run_next (IsDeleted id s)
        (λ existed s1. (s1 ≡ s) × (room_exists fjall bincode id s ≡ ok existed))
        (IsDeletedOrNot id s) (room_exists fjall bincode id s, s) _
        (Post-read _ _ (room_exists fjall bincode id s) s (λ existed e. (refl, e)) (inr refl))
        λ existed s1 (at, e).
          Post-run_next (IsDeleted id s) (λ u. IsDeleted id s existed) (IsDeletedOrNot id s)
            (remove_stored fjall bincode id existed s1) _
            (subst
              (λ x.
                Post (λ u. IsDeleted id s existed) (IsDeletedOrNot id s)
                  (remove_stored fjall bincode id existed x))
              (sym at) (remove_stored_lem id s existed e))
            λ u s2 gone. Post-ok _ _ _ existed s2 gone
