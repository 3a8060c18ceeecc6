-- ===== src/Server/Room/Queued.antt =====
-- What a listener gives to the workers, whatever its peer sends.
use fernq.Prelude.{
  ℕ, ◌<◌, ◌≤◌, ◌≡◌, refl, ap, Bool-cases, inl, inr, false, Option, none, some, List, [], ◌∷◌, ◌++◌,
  suc, get_elem?, length, All, ltb, ltb→lt, ltb→le, Result, ok, err, panic, stuck, subst,
}
use fernq.Prelude.Bytes.{Bytes}
use fernq.Protocol.{max_frame_size}
use fernq.Protocol.Error.{ProtocolResult}
use fernq.Protocol.Frame.{MessageType, MessageFlags, ChannelId, assign_target_fast}
use fernq.Protocol.Decoder.{decode_header, get_channel_id, get_message_source_target}
use fernq.Server.Room.{
  MessageTask, is_pong, Handled, leaves, takes_pong, drops, queues, dispatch, or_leave,
  handle_message, handle_payload, handle_frame, queued, listener,
}

-- The task was made of a frame with this header, no pong and not too long, whose payload was read in this way,
-- and stands in the queue of the worker of its channel.
pub record IsQueued (Read : Bytes → ℕ → Bytes → Type 0) (n w : ℕ) (task : MessageTask)
    : Type 0 where
  pub channel : ChannelId
  pub known : get_channel_id task.payload ≡ ok channel
  pub worker_of : assign_target_fast channel n ≡ ok w
  pub in_range : w < n
  pub names : get_message_source_target task.payload ≡ ok (task.from, task.to)
  pub head : Bytes
  pub rest : Bytes
  pub whole : task.payload ≡ head ++ rest
  pub type_of : MessageType
  pub size : ℕ
  pub decoded : decode_header head ≡ ok (type_of, task.flags, size)
  pub no_pong : is_pong type_of ≡ false
  pub fits : size ≤ max_frame_size
  pub came : Read head size rest

or_leave-queues :
    {A : Type 0} (r : ProtocolResult A) (f : A → Result (Unit {0}) Handled) {w : ℕ}
    {task : MessageTask}
    → or_leave r f ≡ ok (queues w task)
    → (a : A) × (r ≡ ok a) × (f a ≡ ok (queues w task))
or_leave-queues (ok a) f h = (a, refl, h)
or_leave-queues (err e) f h = absurd (cc)
or_leave-queues panic f h = absurd (cc)
or_leave-queues stuck f h = absurd (cc)

queues_injective :
    {v w : ℕ} {made task : MessageTask}
    → ◌≡◌ {A = Result (Unit {0}) Handled} (ok (queues v made)) (ok (queues w task))
    → (v ≡ w) × (made ≡ task)
queues_injective h = (cc, cc)

panic_queues :
    {w : ℕ} {task : MessageTask}
    → ¬ (◌≡◌ {A = Result (Unit {0}) Handled} panic (ok (queues w task)))
panic_queues h = cc

pong_queues :
    {w : ℕ} {task : MessageTask}
    → ¬ (◌≡◌ {A = Result (Unit {0}) Handled} (ok takes_pong) (ok (queues w task)))
pong_queues h = cc

leaves_queues :
    {w : ℕ} {task : MessageTask}
    → ¬ (◌≡◌ {A = Result (Unit {0}) Handled} (ok leaves) (ok (queues w task)))
leaves_queues h = cc

dispatch-queues :
    (n : ℕ) (made : MessageTask) (r : ProtocolResult ℕ) {w : ℕ} {task : MessageTask}
    → dispatch n made r ≡ ok (queues w task)
    → (r ≡ ok w) × (w < n) × (made ≡ task)
dispatch-queues n made (ok v) {w} h = elim (Bool-cases (ltb v n)) [
  | inl e ↦
      let (same_worker, same_task) = queues_injective (rw e at h) in
      (ap ok same_worker, subst (λ k. k < n) same_worker (ltb→lt v n e), same_task)
  | inr e ↦ absurd (panic_queues (rw e at h))
]
dispatch-queues n made (err e) h = absurd (cc)
dispatch-queues n made panic h = absurd (cc)
dispatch-queues n made stuck h = absurd (cc)

module _ (Read : Bytes → ℕ → Bytes → Type 0) (n w : ℕ) (task : MessageTask) where
  handle_message-IsQueued :
      (head rest : Bytes) (t : MessageType) (flags : MessageFlags) (size : ℕ)
      → decode_header head ≡ ok (t, flags, size)
      → is_pong t ≡ false
      → size ≤ max_frame_size
      → Read head size rest
      → handle_message n flags (head ++ rest) ≡ ok (queues w task)
      → IsQueued Read n w task
  unfolding handle_message
  handle_message-IsQueued head rest t flags size decoded no_pong fits came h =
      let (channel, known, h1) = or_leave-queues (get_channel_id (head ++ rest)) _ h in
      let ((source, target), names, h2) =
        or_leave-queues (get_message_source_target (head ++ rest)) _ h1 in
      let (worker_of, in_range, made) = dispatch-queues n _ (assign_target_fast channel n) h2 in
      subst (IsQueued Read n w) made (record {
        channel = channel;
        known = known;
        worker_of = worker_of;
        in_range = in_range;
        names = names;
        head = head;
        rest = rest;
        whole = refl;
        type_of = t;
        size = size;
        decoded = decoded;
        no_pong = no_pong;
        fits = fits;
        came = came;
      })

  handle_payload-IsQueued :
      (head : Bytes) (t : MessageType) (flags : MessageFlags) (size : ℕ) (read : Option Bytes)
      → decode_header head ≡ ok (t, flags, size)
      → size ≤ max_frame_size
      → ((rest : Bytes) → read ≡ some rest → Read head size rest)
      → handle_payload n t flags head read ≡ ok (queues w task)
      → IsQueued Read n w task
  handle_payload-IsQueued head t flags size none decoded fits came h = absurd (cc)
  handle_payload-IsQueued head t flags size (some rest) decoded fits came h =
      elim (Bool-cases (is_pong t)) [
        | inl e ↦ absurd (pong_queues (rw e at h))
        | inr e ↦
            handle_message-IsQueued head rest t flags size decoded e fits (came rest refl)
              (rw e at h)
      ]

  pub handle_frame-IsQueued :
      (head : Bytes) (read_payload : ℕ → Option Bytes)
      → ((k : ℕ) (rest : Bytes) → read_payload k ≡ some rest → Read head k rest)
      → handle_frame n head read_payload ≡ ok (queues w task)
      → IsQueued Read n w task
  unfolding handle_frame
  handle_frame-IsQueued head read_payload came h =
      let ((t, flags, size), decoded, h1) = or_leave-queues (decode_header head) _ h in
      elim (Bool-cases (ltb max_frame_size size)) [
        | inl e ↦ absurd (leaves_queues (rw e at h1))
        | inr e ↦
            handle_payload-IsQueued head t flags size (read_payload size) decoded
              (ltb→le max_frame_size size e) (came size) (rw e at h1)
      ]

-- `read_exact` of a payload gives as many bytes as were asked for, or fails.
abbrev pub IsExact : Bytes × (ℕ → Option Bytes) → Type 0
IsExact (head, read_payload) = (k : ℕ) (rest : Bytes) → read_payload k ≡ some rest → length rest ≡ k

-- One of these frames has this header, and this payload of this size was read after it.
abbrev pub Came : List (Bytes × (ℕ → Option Bytes)) → Bytes → ℕ → Bytes → Type 0
Came frames head size rest =
    (at : ℕ) × (read_payload : ℕ → Option Bytes) × (get_elem? frames at ≡ some (head, read_payload))
    × (read_payload size ≡ some rest)
    × (length rest ≡ size)

module _ (Read : Bytes → ℕ → Bytes → Type 0) (n : ℕ) where
  -- What a read of the payload of this frame gives.
  abbrev Gives : Bytes × (ℕ → Option Bytes) → Type 0
  Gives (head, read_payload) =
      (k : ℕ) (rest : Bytes) → read_payload k ≡ some rest → Read head k rest

  queued-IsQueued :
      (head : Bytes) (read_payload : ℕ → Option Bytes) (r : Result (Unit {0}) Handled)
      (later : List (ℕ × MessageTask))
      → Gives (head, read_payload)
      → handle_frame n head read_payload ≡ r
      → All (λ t. IsQueued Read n t.0 t.1) later
      → All (λ t. IsQueued Read n t.0 t.1) (queued r later)
  queued-IsQueued head read_payload (ok leaves) later gives e k = tt
  queued-IsQueued head read_payload (ok takes_pong) later gives e k = k
  queued-IsQueued head read_payload (ok drops) later gives e k = k
  queued-IsQueued head read_payload (ok (queues w task)) later gives e k =
      (handle_frame-IsQueued Read n w task head read_payload gives e, k)
  queued-IsQueued head read_payload (err u) later gives e k = tt
  queued-IsQueued head read_payload panic later gives e k = tt
  queued-IsQueued head read_payload stuck later gives e k = tt

  frames-IsQueued :
      (frames : List (Bytes × (ℕ → Option Bytes)))
      → ((at : ℕ) (f : Bytes × (ℕ → Option Bytes)) → get_elem? frames at ≡ some f → Gives f)
      → All (λ t. IsQueued Read n t.0 t.1) (listener n frames)
  unfolding listener
  frames-IsQueued [] gives = tt
  frames-IsQueued ((head, read_payload) ∷ frames) gives =
      queued-IsQueued head read_payload (handle_frame n head read_payload) (listener n frames)
        (gives 0 (head, read_payload) refl) refl
        (frames-IsQueued frames (λ at f e. gives (suc at) f e))

-- Whatever a peer sends, frame after frame, also when its listener panics at the end, where a read of a
-- payload gives as many bytes as it asks for or fails: each task that the listener gave to the workers
-- stands in the queue of an existing worker, the one that its channel is assigned to; it holds one of the
-- frames that the peer sent, no pong, whose payload has the size that its header says, which is at most
-- the greatest, and has the source, the target and the flags of that frame.
pub listener-IsQueued :
    (n : ℕ) (frames : List (Bytes × (ℕ → Option Bytes)))
    → ((at : ℕ) (f : Bytes × (ℕ → Option Bytes)) → get_elem? frames at ≡ some f → IsExact f)
    → All (λ t. IsQueued (Came frames) n t.0 t.1) (listener n frames)
listener-IsQueued n frames exact =
    frames-IsQueued (Came frames) n frames λ at (head, read_payload) there k rest e.
      (at, read_payload, there, e, exact at (head, read_payload) there k rest e)
