-- ===== src/Server/Room/Undropped.antt =====
-- A listener finds a worker for every frame, if their number is a power of two.
use fernq.Prelude.{
  ℕ, ◌+◌, ◌≡◌, ◌≢◌, inl, inr, Bool-cases, true, Option, none, some, ◌++◌, ltb, get_elem?, arith,
  Result, ok, err, panic, stuck, ◌>>=◌,
}
use fernq.Prelude.Bytes.{Bytes, index, read_32}
use fernq.Protocol.{max_frame_size}
use fernq.Protocol.Error.{ProtocolResult}
use fernq.Protocol.Frame.{
  MessageType, MessageFlags, ChannelId, hash_u64, is_power_of_two, assign_target_fast,
}
use fernq.Protocol.Decoder.{decode_header, get_channel_id, get_message_source_target}
use fernq.Server.Room.{
  MessageTask, is_pong, Handled, leaves, takes_pong, drops, dispatch, or_leave, handle_message,
  handle_payload, handle_frame,
}

-- No error comes of it.
abbrev NoError : {A : Type 0} → ProtocolResult A → Type 0
NoError (ok a) = Unit {0}
NoError (err e) = ⊥
NoError panic = Unit {0}
NoError stuck = Unit {0}

>>=-NoError :
    {A B : Type 0} (m : ProtocolResult A) (f : A → ProtocolResult B)
    → NoError m
    → ((a : A) → NoError (f a))
    → NoError (m >>= f)
>>=-NoError (ok a) f h k = k a
>>=-NoError (err e) f h k = elim h [ ]
>>=-NoError panic f h k = tt
>>=-NoError stuck f h k = tt

found-NoError : (o : Option ℕ) → NoError (elim o [ some b ↦ ok b | none ↦ panic ])
found-NoError none = tt
found-NoError (some b) = tt

index-NoError : (bytes : Bytes) (i : ℕ) → NoError (index bytes i)
unfolding index
index-NoError bytes i = found-NoError (get_elem? bytes i)

read_32-NoError : (bytes : Bytes) (i : ℕ) → NoError (read_32 bytes i)
unfolding read_32
read_32-NoError bytes i = >>=-NoError (index bytes i) _ (index-NoError bytes i) λ a.
    >>=-NoError (index bytes (i + 1)) _ (index-NoError bytes (i + 1)) λ b.
      >>=-NoError (index bytes (i + 2)) _ (index-NoError bytes (i + 2))
        λ c. >>=-NoError (index bytes (i + 3)) _ (index-NoError bytes (i + 3)) λ d. tt

hash_u64-NoError : (id : ChannelId) → NoError (hash_u64 id)
unfolding hash_u64
hash_u64-NoError id =
    >>=-NoError (read_32 id.bytes 8) _ (read_32-NoError id.bytes 8)
      λ high. >>=-NoError (read_32 id.bytes 12) _ (read_32-NoError id.bytes 12) λ low. tt

assign_target_fast-NoError :
    (id : ChannelId) (n : ℕ) → is_power_of_two n ≡ true → NoError (assign_target_fast id n)
unfolding assign_target_fast
assign_target_fast-NoError id n h =
    rw h (>>=-NoError (hash_u64 id) _ (hash_u64-NoError id) λ hash. tt)

dispatch-ne-drops :
    (n : ℕ) (task : MessageTask) (r : ProtocolResult ℕ) → NoError r → dispatch n task r ≢ ok drops
dispatch-ne-drops n task (ok w) h e = ground arith
dispatch-ne-drops n task (err u) h e = elim h [ ]
dispatch-ne-drops n task panic h e = cc
dispatch-ne-drops n task stuck h e = cc

or_leave-ne-drops :
    {A : Type 0} (r : ProtocolResult A) (f : A → Result (Unit {0}) Handled)
    → ((a : A) → f a ≢ ok drops)
    → or_leave r f ≢ ok drops
or_leave-ne-drops (ok a) f k e = k a e
or_leave-ne-drops (err u) f k e = cc
or_leave-ne-drops panic f k e = cc
or_leave-ne-drops stuck f k e = cc

module _ (n : ℕ) (power : is_power_of_two n ≡ true) where
  handle_message-ne-drops :
      (flags : MessageFlags) (frame : Bytes) → handle_message n flags frame ≢ ok drops
  unfolding handle_message
  handle_message-ne-drops flags frame = or_leave-ne-drops (get_channel_id frame) _ λ channel_id.
      or_leave-ne-drops (get_message_source_target frame) _ λ names.
        dispatch-ne-drops n _ (assign_target_fast channel_id n)
          (assign_target_fast-NoError channel_id n power)

  handle_payload-ne-drops :
      (t : MessageType) (flags : MessageFlags) (head : Bytes) (read : Option Bytes)
      → handle_payload n t flags head read ≢ ok drops
  handle_payload-ne-drops t flags head none e = cc
  handle_payload-ne-drops t flags head (some payload) e = elim (Bool-cases (is_pong t)) [
    | inl pong ↦
        let h : ◌≡◌ {A = Result (Unit {0}) Handled} (ok takes_pong) (ok drops) = rw pong at e in
        absurd (cc)
    | inr other ↦ handle_message-ne-drops flags (head ++ payload) (rw other at e)
  ]

  -- With a number of workers that is a power of two no frame is dropped for lack of a worker.
  pub handle_frame-ne-drops :
      (head : Bytes) (read_payload : ℕ → Option Bytes) → handle_frame n head read_payload ≢ ok drops
  unfolding handle_frame
  handle_frame-ne-drops head read_payload = or_leave-ne-drops (decode_header head) _ λ header e.
      elim (Bool-cases (ltb max_frame_size header.2)) [
        | inl long ↦
            let h : ◌≡◌ {A = Result (Unit {0}) Handled} (ok leaves) (ok drops) = rw long at e in
            absurd (cc)
        | inr short ↦
            handle_payload-ne-drops header.0 header.1 head (read_payload header.2) (rw short at e)
      ]
