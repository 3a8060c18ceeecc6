-- ===== src/Server/Room/Pipeline/Delivery.antt =====
-- One stream through a room, while other connections send what they like to others.
use fernq.Prelude.{
  ℕ, suc, ◌<◌, ◌≤◌, ◌≡◌, refl, ap, sym, ◌∙◌, subst, true, false, List, [], ◌∷◌, All, map, length,
  ok, Returns, ok-injective, arith,
}
use fernq.Prelude.Bytes.{Bytes}
use fernq.Protocol.{Crc, max_stream_length}
use fernq.Protocol.Frame.{is_power_of_two}
use fernq.Protocol.Encoder.{Stream, generate_message_data_stream}
use fernq.Protocol.Stream.{IsStream}
use fernq.Protocol.Stream.Receive.{
  Received, receive, on_the_wire, payloads, IsFrom, receive-generate_message_data_stream,
}
use fernq.Protocol.Json.{Json}
use fernq.Server.Room.{MessageTask, is_pong, listener}
use fernq.Server.Room.Relay.{arrival, tasks_of, generate_message_data_stream-queues}
use fernq.Server.Room.Pipeline.{Arrivals, Pipes, Step, Reach}
use fernq.Server.Room.Pipeline.Order.{select}
use fernq.Server.Room.Pipeline.Progress.{Reach-delivers}
use fernq.Server.Room.Pipeline.Written.{
  written_to, All-select, Finds, IsApart, Reach-IsDone, written_to-select, only_there,
  only_there-Finds,
}

select_all : {A : Type 0} (w : ℕ) (xs : List A) → select w (map (λ a. (w, a)) xs) ≡ xs
unfolding select
select_all w [] = refl
select_all w (x ∷ xs) = ground (arith, select_all w xs)

select_none :
    {A : Type 0} (v w : ℕ) (xs : List A) → ¬ (w ≡ v) → select v (map (λ a. (w, a)) xs) ≡ []
unfolding select
select_none v w [] apart = refl
select_none v w (x ∷ xs) apart = ground (arith, select_none v w xs apart)

module _ (crc : Crc) (json : Json) (n : ℕ) (target conn : Bytes) where
  tasks_of-to :
      (s : Stream) (frames : List Bytes)
      → s.target_name ≡ target
      → All (λ t. t.to ≡ target) (tasks_of s frames)
  unfolding tasks_of
  tasks_of-to s [] e = tt
  tasks_of-to s (frame ∷ frames) e = (e, tasks_of-to s frames e)

  -- At rest, a worker wrote to the connection just the frames that it got from the one sender.
  written_to-given :
      ((v : json.Value) → Returns (json.to_vec v))
      → {input : ℕ → Arrivals} {k : ℕ} {t : Pipes}
      → Reach crc json n (Finds crc json n target conn) input k t
      → ((u : Pipes) → ¬ Step crc json n (Finds crc json n target conn) t u)
      → (i : ℕ)
      → ((j : ℕ)
          → ¬ (i ≡ j)
          → All (λ x. (IsApart crc json n target conn) x.1) (listener n (input j)))
      → (w : ℕ) (tasks : List MessageTask) → select w (listener n (input i)) ≡ tasks
      → All (λ t. t.to ≡ target) tasks
      → written_to conn (t.finished w) ≡ map (λ t. t.payload) tasks
  written_to-given printed {input} {k} {t} r over i others w tasks gives named =
      let done : (j : ℕ)
          → select j (map (λ d. d.0) (t.finished w)) ≡ select w (listener n (input j)) =
        λ j.
          (Reach-delivers n crc json (Finds crc json n target conn) printed
            (only_there crc json n target conn) (only_there-Finds crc json n target conn) r over w
            j).6 in
      written_to-select crc json n target conn i (t.finished w)
        (Reach-IsDone crc json n target conn r w)
        (subst (All (λ t. t.to ≡ target)) (sym (done i ∙ gives)) named)
        (λ j apart.
          subst (All (IsApart crc json n target conn)) (sym (done j))
            (All-select (IsApart crc json n target conn) w (listener n (input j)) (others j apart)))
      ∙ ap (map (λ t. t.payload)) (done i ∙ gives)

tasks_of-payload :
    (s : Stream) (frames : List Bytes) → map (λ t. t.payload) (tasks_of s frames) ≡ frames
unfolding tasks_of
tasks_of-payload s [] = refl
tasks_of-payload s (frame ∷ frames) = ap (◌∷◌ frame) (tasks_of-payload s frames)

read_back :
    (crc : Crc) (s : Stream) (bytes : Bytes) (frames : List Bytes)
    → IsStream s
    → length bytes ≤ max_stream_length
    → generate_message_data_stream crc s bytes ≡ ok frames
    → (rs : List Received) × (receive crc (suc (length frames)) (on_the_wire frames) ≡ ok rs)
      × (payloads rs ≡ bytes)
      × IsFrom s (length bytes) rs
read_back crc s bytes frames v small made =
    let (frames', rs, made', read, count, whole, from, fit) =
      receive-generate_message_data_stream crc s bytes v small in
    let same_frames : frames' ≡ frames = ok-injective made' made in
    (
      rs,
      subst (λ fs. receive crc (suc (length fs)) (on_the_wire fs) ≡ ok rs) same_frames read,
      whole,
      from,
    )

-- A valid stream of any type but pong and of at most 8 MiB, to a room with a number of workers that is a
-- power of two, whose connection sends just the frames of this stream, while the other connections send
-- whatever they like but nothing to the name of the target and nothing in its name, in whatever order
-- listeners and workers run, while every look-up in the table finds one connection under the name of the
-- target and this connection under no other name, and nobody closes the room or a connection from
-- outside: when the room has come to rest, one worker gave exactly these frames in order to the write of
-- that connection, no worker gave it any other, and, if these writes succeed, what the target reads off
-- them, the pings of the heartbeat aside, joins to the bytes that were sent, with the sender's name and
-- the channel on every message; that is, if JSON does not panic when it prints.
pub stream_delivered :
    (crc : Crc) (json : Json) (s : Stream) (bytes : Bytes) (frames : List Bytes) (n : ℕ)
    (conn : Bytes)
    → IsStream s
    → length bytes ≤ max_stream_length
    → is_pong s.message_type ≡ false
    → is_power_of_two n ≡ true
    → generate_message_data_stream crc s bytes ≡ ok frames
    → ((v : json.Value) → Returns (json.to_vec v))
    → (input : ℕ → Arrivals) (i : ℕ) → input i ≡ map arrival frames
    → ((j : ℕ)
        → ¬ (i ≡ j)
        → All (λ x. IsApart crc json n s.target_name conn x.1) (listener n (input j)))
    → {k : ℕ} {t : Pipes} → Reach crc json n (Finds crc json n s.target_name conn) input k t
    → ((u : Pipes) → ¬ Step crc json n (Finds crc json n s.target_name conn) t u)
    → (w : ℕ) × (rs : List Received) × (w < n)
      × (written_to conn (t.finished w) ≡ frames)
      × ((v : ℕ) → ¬ (w ≡ v) → written_to conn (t.finished v) ≡ [])
      × (receive crc (suc (length frames)) (on_the_wire (written_to conn (t.finished w))) ≡ ok rs)
      × (payloads rs ≡ bytes)
      × IsFrom s (length bytes) rs
stream_delivered crc json s bytes frames n conn v small no_pong power made printed input i sends
      others {k} {t} r over =
    let (w, in_range, gave) =
      generate_message_data_stream-queues crc s bytes frames n v small made no_pong power in
    let (rs, read, whole, from) = read_back crc s bytes frames v small made in
    let gives : listener n (input i) ≡ map (λ x. (w, x)) (tasks_of s frames) =
      ap (listener n) sends ∙ gave in
    let wrote = written_to-given crc json n s.target_name conn printed r over i others in
    let all_written : written_to conn (t.finished w) ≡ frames =
      wrote w (tasks_of s frames) (ap (select w) gives ∙ select_all w (tasks_of s frames))
        (tasks_of-to crc json n s.target_name conn s frames refl)
      ∙ tasks_of-payload s frames in
    (
      w,
      rs,
      in_range,
      all_written,
      λ u apart. wrote u [] (ap (select u) gives ∙ select_none u w (tasks_of s frames) apart) tt,
      ap (λ fs. receive crc (suc (length frames)) (on_the_wire fs)) all_written ∙ read,
      whole,
      from,
    )
