-- ===== src/Server/Room/Tests.antt =====
-- The theorems on the tasks of a room at concrete streams.
use fernq.Prelude.{
  get_elem?, zero, suc, subst, Bool-cases, inl, inr, leb, leb→le, length, length-take, length-drop,
  ◌-◌, ◌≤◌, sym, ◌∙◌, ℕ, ◌≡◌, refl, ap, ok-injective, ◌↔◌, ◌⊎◌, true, false, Option, none, some,
  List, [], ◌∷◌, All, map, if◌then◌else◌, take, drop, ok, panic, arith,
}
use fernq.Prelude.Bytes.{Bytes, slice, index, read_16, read_32, to_be_16, to_be_32}
use fernq.Prelude.Text.{text, same, is_utf8, decimal}
use fernq.Protocol.Frame.{
  body, validate_magic, validate_version, message_type, type_byte, message_flags, new_flags,
  assign_target_fast, hash_u64, is_power_of_two, power_among, try_from_slice,
}
use fernq.Protocol.Decoder.{decode_header, get_channel_id, get_message_source_target, read_name}
use fernq.Protocol.Encoder.{
  fixed_header, Stream, data_frame, generate_message_data_stream, stream_loop,
}
use fernq.Protocol.Stream.{IsStream, IsName}
use fernq.Protocol.Json.{Json}
use fernq.Protocol.Message.{
  allows_body, json_type, with_body, encode_response, response, encode_response_to_bytes,
  decode_from_bytes,
}
use fernq.Protocol.Message.Tests.{test_string, json_with}
use fernq.Protocol.Tests.{
  net_crc, long_name, long_name_length, sample, sample_id, sample_id-IsChannelId, thirty_two,
}
use fernq.Protocol.Validate.{reply_stream, create_message_response}
use fernq.Protocol.Validate.Tests.{mole-IsName, json_text, welcome_frame}
use fernq.Protocol.Validate.Tests
use fernq.Protocol.Validate.Reply.{Arrives}
use fernq.Server.Room.{
  Conns, MessageTask, leaves, queues, worker, handle_message, handle_frame, listener,
}
use fernq.Server.Room.Relay.{arrival, task_of, tasks_of}
use fernq.Server.Room.NotFound.{not_found}
use fernq.Server.Room.Crash.{handle_frame_panics}
use fernq.Server.Room.Queued.{IsQueued, Came, IsExact, listener-IsQueued}
use fernq.Server.Room.Heartbeat.{Event, tick, frame, fresh, run, HasFailure, HasSilence, run_iff}

-- One connection, with this name.
abbrev only : Bytes → Conns
only name n = if same n name then some (1 ∷ []) else none

target_there : only sample.target_name sample.target_name ≡ some (1 ∷ [])
unfolding same
target_there = refl

-- The connection "mole" asks "gone", who is not there.
abbrev pub question : Stream
question = record {
  message_type = body;
  end_channel = true;
  is_response = false;
  channel_id = sample_id;
  source_name = text "mole";
  target_name = text "gone";
}

gone-IsName : IsName (text "gone")
unfolding text is_utf8
gone-IsName = record { filled = omega arith; fits = omega arith; utf8 = refl }

pub question-IsStream : IsStream question
question-IsStream = record {
  source = mole-IsName;
  target = gone-IsName;
  channel = sample_id-IsChannelId;
}

abbrev pub asked : Bytes
asked = data_frame net_crc question true 2 0 (7 ∷ 8 ∷ [])

pub asked_made : generate_message_data_stream net_crc question (7 ∷ 8 ∷ []) ≡ ok (asked ∷ [])
unfolding generate_message_data_stream stream_loop slice text
asked_made = refl

abbrev pub answer_json : Json
answer_json = json_with json_text (ok Tests.not_found)

answer_made :
    create_message_response net_crc answer_json (text "mole") sample_id 404 (text "404 Not Found !")
    ≡ ok welcome_frame
unfolding create_message_response encode_response_to_bytes encode_response
    generate_message_data_stream stream_loop slice text allows_body with_body
answer_made = refl

not_found_example :
    (w : ℕ) × (payload : Bytes) × (listener 32 (map arrival (asked ∷ []))
      ≡ map (λ t. (w, t)) (tasks_of question (asked ∷ [])))
    × (worker net_crc answer_json (λ k. only (text "mole")) (tasks_of question (asked ∷ []))
        ≡ ok ((1 ∷ [], welcome_frame) ∷ []))
    × Arrives net_crc (reply_stream (text "mole") sample_id) welcome_frame payload
    × (decode_from_bytes answer_json payload
        ≡ ok (
            response (record {
              content_type = json_type;
              state = 404;
              body = some (test_string (text "404 Not Found !"));
            })))
unfolding same text encode_response allows_body with_body
not_found_example =
    not_found net_crc answer_json question (7 ∷ 8 ∷ []) (asked ∷ []) 32 (λ k. only (text "mole"))
      (1 ∷ []) welcome_frame question-IsStream (omega arith) (omega arith) refl thirty_two refl
      asked_made (λ k. refl) (λ k. refl) (λ v bytes h k. ap ok (ok-injective refl h)) answer_made

-- "mole" asks twice, and then sends one byte that is no frame.
abbrev two_and_noise : List (Bytes × (ℕ → Option Bytes))
two_and_noise = arrival asked ∷ arrival asked ∷ (7 ∷ [], λ k. none) ∷ []

abbrev pub asked_task : MessageTask
asked_task = task_of question true asked

pub asked_queues : handle_frame 32 (arrival asked).0 (arrival asked).1 ≡ ok (queues 15 asked_task)
unfolding handle_frame handle_message decode_header data_frame fixed_header to_be_32 to_be_16 slice
    index read_16 read_32 validate_magic validate_version message_type type_byte message_flags
    new_flags text decimal is_utf8 get_channel_id get_message_source_target read_name
    assign_target_fast hash_u64 is_power_of_two power_among try_from_slice
asked_queues = refl

pub noise_leaves : handle_frame 32 (7 ∷ []) (λ k. none) ≡ ok leaves
unfolding handle_frame decode_header
noise_leaves = refl

some_read : {A : Type 0} {a b : A} → some a ≡ some b → a ≡ b
some_read h = cc

none_read : {A : Type 0} {a : A} → ¬ (none ≡ some a)
none_read h = cc

arrival-IsExact : (whole : Bytes) → IsExact (arrival whole)
arrival-IsExact whole k rest h = elim (Bool-cases (leb k (length whole - 11))) [
  | inl e ↦
      let short : k ≤ length whole - 11 = leb→le k (length whole - 11) e in
      ap length (sym (some_read (rw e at h)))
      ∙ length-take k (drop 11 whole)
      ∙ omega (arith, short, length-drop 11 whole)
  | inr e ↦ absurd (none_read (rw e at h))
]

two_and_noise-IsExact :
    (at : ℕ) (f : Bytes × (ℕ → Option Bytes)) → get_elem? two_and_noise at ≡ some f → IsExact f
two_and_noise-IsExact zero f there = subst IsExact (some_read there) (arrival-IsExact asked)
two_and_noise-IsExact (suc zero) f there = subst IsExact (some_read there) (arrival-IsExact asked)
two_and_noise-IsExact (suc (suc zero)) f there = subst IsExact (some_read there) (λ k rest h. cc)
two_and_noise-IsExact (suc (suc (suc at))) f there = absurd (none_read there)

listener-IsQueued_example :
    All {A = ℕ × MessageTask}
      (λ t. IsQueued (Came two_and_noise) 32 t.0 t.1)
      (listener 32 two_and_noise)
listener-IsQueued_example = listener-IsQueued 32 two_and_noise two_and_noise-IsExact

handle_frame_panics_example :
    handle_frame 32 (take 11 long_name) (λ n. some (take n (drop 11 long_name))) ≡ panic
unfolding decode_header slice index read_32 validate_magic validate_version message_type
    message_flags
handle_frame_panics_example =
    handle_frame_panics 32 (take 11 long_name) (drop 11 long_name)
      (λ n. some (take n (drop 11 long_name))) body (record { bits = 192 }) 30 100 refl
      (omega arith) refl refl (omega arith) long_name_length (omega arith) (omega arith)
      (omega arith)

-- With a limit of one the third tick in a row closes the connection.
abbrev day : List Event
day = tick true ∷ frame ∷ tick true ∷ tick true ∷ tick true ∷ []

run_iff_example : ((run 1 day fresh).closed ≡ true) ↔ (HasFailure day ⊎ HasSilence 3 day)
run_iff_example = run_iff 1 (omega arith) day
