-- ===== src/Storage/Names.antt =====
-- The names of the stored rooms: how `find_rooms_by_name` keeps them apart.
use fernq.Prelude.{
  ◌≡◌, refl, sym, ap, ◌∙◌, subst, ◌⊎◌, inl, inr, Bool, true, false, Option, none, some, List, [],
  ◌∷◌, Result, ok, err, ok-injective, take_ok, if◌then◌else◌, Bool-cases,
}
use fernq.Prelude.Bytes.{Bytes}
use fernq.Prelude.Text.{same, same_refl, same-eq}
use fernq.Storage.{
  RoomModel, put, delete, Among, Fjall, Bincode, from_fjall, from_bytes, collect_named,
  find_rooms_by_name,
}

some-injective : {a b : Bytes} {o : Option Bytes} → o ≡ some a → o ≡ some b → a ≡ b
some-injective h k = cc

none-some : {a : Bytes} → ¬ (none ≡ some a)
none-some h = cc

module _ (fjall : Fjall) (bincode : Bincode) where
  open fjall use {Keyspace, Error, contents}

  -- No two entries hold rooms of one name.
  abbrev pub HasUniqueNames : (Bytes → Option Bytes) → Type 0
  HasUniqueNames m =
      (k j v w : Bytes) (r q : RoomModel)
      → m k ≡ some v
      → m j ≡ some w
      → from_bytes fjall bincode v ≡ ok r
      → from_bytes fjall bincode w ≡ ok q
      → r.name ≡ q.name
      → k ≡ j

  -- No entry holds a room of this name.
  abbrev pub IsUnused : Bytes → (Bytes → Option Bytes) → Type 0
  IsUnused name m =
      (k v : Bytes) (r : RoomModel)
      → m k ≡ some v
      → from_bytes fjall bincode v ≡ ok r
      → same r.name name ≡ false

  collect_named_ok :
      (name : Bytes) (items : List (Result Error Bytes)) (rs : List RoomModel) (e : Error)
      → collect_named fjall bincode name items ≡ ok rs
      → ¬ Among (err e) items
  collect_named_ok name [] rs e h k = k
  collect_named_ok name (item ∷ items) rs e h k =
      take_ok (from_fjall fjall bincode item) _ h λ bytes e1 h1.
        take_ok (from_bytes fjall bincode bytes) _ h1 λ room e2 h2.
          take_ok (collect_named fjall bincode name items) _ h2 λ rooms e3 h3. elim k [
            | inl at ↦
                let e4 : from_fjall fjall bincode (err e) ≡ ok bytes =
                  ap (λ i. from_fjall fjall bincode i) at ∙ e1 in
                absurd (cc)
            | inr later ↦ collect_named_ok name items rooms e e3 later
          ]

  kept_none :
      (test : Bool) (room : RoomModel) (rooms : List RoomModel)
      → (if test then room ∷ rooms else rooms) ≡ []
      → (test ≡ false) × (rooms ≡ [])
  kept_none true room rooms h = absurd (cc)
  kept_none false room rooms h = (refl, h)

  collect_named_none :
      (name : Bytes) (items : List (Result Error Bytes)) (v : Bytes) (r : RoomModel)
      → collect_named fjall bincode name items ≡ ok []
      → Among (ok v) items
      → from_bytes fjall bincode v ≡ ok r
      → same r.name name ≡ false
  collect_named_none name [] v r h k d = absurd k
  collect_named_none name (item ∷ items) v r h k d =
      take_ok (from_fjall fjall bincode item) _ h λ bytes e1 h1.
        take_ok (from_bytes fjall bincode bytes) _ h1 λ room e2 h2.
          take_ok (collect_named fjall bincode name items) _ h2 λ rooms e3 h3.
            let (other, empty) =
              kept_none (same room.name name) room rooms (ok-injective refl h3) in
            elim k [
              | inl at ↦
                  let e4 : v ≡ bytes =
                    ok-injective refl (ap (λ i. from_fjall fjall bincode i) at ∙ e1) in
                  let e5 : r ≡ room =
                    ok-injective (sym (ap (λ b. from_bytes fjall bincode b) e4) ∙ d) e2 in
                  ap (λ (x : RoomModel). same x.name name) e5 ∙ other
              | inr later ↦ collect_named_none name items v r (e3 ∙ ap ok empty) later d
            ]

  -- When `find_rooms_by_name` finds nothing, no stored room has the name.
  pub find_rooms_by_name-IsUnused :
      (name : Bytes) (s : Keyspace)
      → find_rooms_by_name fjall bincode name s ≡ ok []
      → IsUnused name (contents s)
  unfolding find_rooms_by_name
  find_rooms_by_name-IsUnused name s h k v r at d = elim (fjall.iter-contents k v s at) [
    | inl found ↦ collect_named_none name (fjall.iter s) v r h found d
    | inr (e, failed) ↦ absurd (collect_named_ok name (fjall.iter s) [] e h failed)
  ]

  unused_apart : (name : Bytes) (r : RoomModel) → same r.name name ≡ false → ¬ (r.name ≡ name)
  unused_apart name r h e =
      let t : same r.name name ≡ true = ap (λ n. same n name) e ∙ same_refl name in absurd (cc)

  from_bytes_of :
      (bytes : Bytes) (room : RoomModel)
      → bincode.decode_from_slice bytes ≡ ok room
      → from_bytes fjall bincode bytes ≡ ok room
  unfolding from_bytes
  from_bytes_of bytes room h = rw h refl

  put-cases :
      (i bytes : Bytes) (m : Bytes → Option Bytes) (k v : Bytes)
      → put i bytes m k ≡ some v
      → ((i ≡ k) × (v ≡ bytes)) ⊎ (m k ≡ some v)
  put-cases i bytes m k v h = elim (Bool-cases (same i k)) [
    | inl e ↦ inl (
      same-eq i k e,
      some-injective (subst (λ t. (if t then some bytes else m k) ≡ some v) e h) refl,
    )
    | inr e ↦ inr (subst (λ t. (if t then some bytes else m k) ≡ some v) e h)
  ]

  -- The room of the new entry and that of an old one have different names.
  new_apart :
      (m : Bytes → Option Bytes) (room r q : RoomModel) (j v w bytes : Bytes)
      → IsUnused room.name m
      → bincode.decode_from_slice bytes ≡ ok room
      → v ≡ bytes
      → from_bytes fjall bincode v ≡ ok r
      → m j ≡ some w
      → from_bytes fjall bincode w ≡ ok q
      → ¬ (r.name ≡ q.name)
  new_apart m room r q j v w bytes free d e dr at dq named =
      let e1 : r ≡ room =
        ok-injective (sym (ap (λ b. from_bytes fjall bincode b) e) ∙ dr)
          (from_bytes_of bytes room d) in
      unused_apart room.name q (free j w q at dq) (sym named ∙ ap (λ (x : RoomModel). x.name) e1)

  -- An entry for a room of an unused name keeps the names apart.
  pub HasUniqueNames-put :
      (m : Bytes → Option Bytes) (bytes : Bytes) (room : RoomModel)
      → HasUniqueNames m
      → IsUnused room.name m
      → bincode.decode_from_slice bytes ≡ ok room
      → HasUniqueNames (put room.id bytes m)
  HasUniqueNames-put m bytes room u free d k j v w r q at at' dr dq named =
      elim (put-cases room.id bytes m k v at) [
        | inl (e, f) ↦ elim (put-cases room.id bytes m j w at') [
          | inl (e', f') ↦ sym e ∙ e'
          | inr old' ↦ absurd (new_apart m room r q j v w bytes free d f dr old' dq named)
        ]
        | inr old ↦ elim (put-cases room.id bytes m j w at') [
          | inl (e', f') ↦ absurd (new_apart m room q r k w v bytes free d f' dq old dr (sym named))
          | inr old' ↦ u k j v w r q old old' dr dq named
        ]
      ]

  deleted :
      (i : Bytes) (m : Bytes → Option Bytes) (k v : Bytes) → delete i m k ≡ some v → m k ≡ some v
  deleted i m k v h = elim (Bool-cases (same i k)) [
    | inl e ↦ absurd (none-some (subst (λ t. (if t then none else m k) ≡ some v) e h))
    | inr e ↦ subst (λ t. (if t then none else m k) ≡ some v) e h
  ]

  pub HasUniqueNames-delete :
      (m : Bytes → Option Bytes) (i : Bytes) → HasUniqueNames m → HasUniqueNames (delete i m)
  HasUniqueNames-delete m i u k j v w r q at at' =
      u k j v w r q (deleted i m k v at) (deleted i m j w at')
