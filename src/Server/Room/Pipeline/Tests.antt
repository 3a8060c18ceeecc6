-- ===== src/Server/Room/Pipeline/Tests.antt =====
-- A connection that sends a request and one that sends noise, in a room of 32 workers.
use native.Mathlib.Decide.{ℕ_discrete}
use fernq.Prelude.{
  zero, suc, sym, ◌∙◌, true, Result, panic, Option, All, ℕ, ◌<◌, ◌≡◌, refl, ap, none, some, List,
  [], ◌∷◌, ◌++◌, map, ok, Returns, arith,
}
use fernq.Prelude.Bytes.{Bytes}
use fernq.Prelude.Text.{text, same}
use fernq.Protocol.Stream.Receive.{Received, receive, on_the_wire, payloads, IsFrom}
use fernq.Protocol.Message.Tests.{TestValue}
use fernq.Protocol.Tests.{net_crc, thirty_two}
use fernq.Server.Connection.{update}
use fernq.Server.Room.{Conns, Handled, leaves, handle_frame, listener, work}
use fernq.Server.Room.Relay.{arrival}
use fernq.Server.Room.Tests.{
  question, question-IsStream, asked, asked_task, asked_made, asked_queues, noise_leaves,
  answer_json,
}
use fernq.Server.Room.Pipeline.{
  Arrivals, ends, passes, Pipes, Step, end, pass, send, recv, deliver, init, Reach, begin, next,
}
use fernq.Server.Room.Pipeline.Order.{select, held, Reach-fifo}
use fernq.Server.Room.Pipeline.Progress.{GoesOn, IsOver, Reach-delivers}
use fernq.Server.Room.Pipeline.Written.{Finds, IsApart, written_to, only_there, only_there-Finds}
use fernq.Server.Room.Pipeline.Delivery.{stream_delivered}

abbrev input : ℕ → Arrivals
input = update (update (λ i. []) 1 ((7 ∷ [], λ k. none) ∷ [])) 0 (map arrival (asked ∷ []))

-- The target is there, under no other name.
abbrev there : Conns
there = only_there net_crc answer_json 32 (text "gone") (5 ∷ [])

abbrev Gone : Conns → Type 0
Gone = Finds net_crc answer_json 32 (text "gone") (5 ∷ [])

abbrev sent : Pipes
sent = record (init net_crc answer_json 32 Gone input) {
  rest = update input 0 [];
  channel = update (λ w. []) 15 ((0, asked_task) ∷ []);
}

abbrev heard : Pipes
heard = record sent { ended = update sent.ended 1 true }

abbrev taken : Pipes
taken = record heard {
  channel = update heard.channel 15 [];
  hand = update heard.hand 15 (some (0, asked_task));
}

abbrev resting : Pipes
resting = record taken {
  hand = update taken.hand 15 none;
  finished = update taken.finished 15 (((0, asked_task), (5 ∷ [], asked) ∷ []) ∷ []);
}

there-Finds : Gone there
there-Finds = only_there-Finds net_crc answer_json 32 (text "gone") (5 ∷ [])

task_done : work net_crc answer_json there there asked_task ≡ ok ((5 ∷ [], asked) ∷ [])
unfolding work text same
task_done = refl

taken_reached : Reach net_crc answer_json 32 Gone input 3 taken
unfolding ℕ_discrete
taken_reached =
    next
      (next
        (next begin (
          send 0 (arrival asked).0 (arrival asked).1 [] 15 asked_task refl refl asked_queues
            (omega arith)))
        (end 1 (7 ∷ []) (λ k. none) [] refl refl (ap ends noise_leaves)))
      (recv 15 (0, asked_task) [] refl refl)

resting_reached : Reach net_crc answer_json 32 Gone input 4 resting
unfolding ℕ_discrete
resting_reached = next taken_reached (
    deliver 15 (0, asked_task) there there ((5 ∷ [], asked) ∷ []) refl there-Finds there-Finds
      task_done)

-- What is left is left by a listener that has left its loop.
abbrev first_handled : Arrivals → Result (Unit {0}) Handled
first_handled [] = panic
first_handled ((head, read_payload) ∷ frames) = handle_frame 32 head read_payload

nil_cons : {A : Type 0} {x : A} {xs : List A} → ¬ ([] ≡ x ∷ xs)
nil_cons h = cc

resting_left :
    (i : ℕ) (head : Bytes) (read_payload : ℕ → Option Bytes) (frames : Arrivals)
    → resting.rest i ≡ (head, read_payload) ∷ frames
    → (handle_frame 32 head read_payload ≡ ok leaves) × (resting.ended i ≡ true)
unfolding ℕ_discrete
resting_left zero head read_payload frames h = absurd (cc)
resting_left (suc zero) head read_payload frames h = (sym (ap first_handled h) ∙ noise_leaves, refl)
resting_left (suc (suc i)) head read_payload frames h =
    let nothing : resting.rest (suc (suc i)) ≡ [] = ground arith in
    absurd (nil_cons (sym nothing ∙ h))

no_channel_left : (w : ℕ) → resting.channel w ≡ []
no_channel_left w = ground arith

no_hand_left : (w : ℕ) → resting.hand w ≡ none
no_hand_left w = ground arith

resting_over : (u : Pipes) → ¬ Step net_crc answer_json 32 Gone resting u
resting_over u (end i head read_payload frames hears e h) =
    let still = (resting_left i head read_payload frames e).1 in cc
resting_over u (pass i head read_payload frames hears e h) =
    let stops = (resting_left i head read_payload frames e).0 in
    let passed = sym (ap passes stops) ∙ h in cc
resting_over u (send i head read_payload frames w task hears e h room) =
    let stops = (resting_left i head read_payload frames e).0 in let sent_on = sym stops ∙ h in cc
resting_over u (recv w task later e h) = let empty = no_channel_left w in cc
resting_over u (deliver w task conns later_conns writes e a b h) = let free = no_hand_left w in cc

printed : (v : TestValue) → Returns (answer_json.to_vec v)
unfolding Returns
printed v = tt

Reach-fifo_example :
    select 0 (map (λ d. d.0) (taken.finished 15))
      ++ (select 0 (held (taken.hand 15))
          ++ (select 0 (taken.channel 15) ++ select 15 (listener 32 (taken.rest 0))))
    ≡ select 15 (listener 32 (input 0))
Reach-fifo_example =
    Reach-fifo 32 net_crc answer_json Gone {input = input} {s = taken} taken_reached 15 0

Reach-delivers_example :
    (heard : Arrivals) × (input 1 ≡ heard ++ resting.rest 1)
    × All (GoesOn 32) heard
    × IsOver 32 (resting.ended 1) (resting.rest 1)
    × (resting.channel 15 ≡ [])
    × (resting.hand 15 ≡ none)
    × (select 1 (map (λ d. d.0) (resting.finished 15)) ≡ select 15 (listener 32 (input 1)))
Reach-delivers_example =
    Reach-delivers 32 net_crc answer_json Gone printed there there-Finds {input = input}
      {s = resting} resting_reached resting_over 15 1

-- The noise is no task.
others-IsApart :
    (j : ℕ)
    → ¬ (0 ≡ j)
    → All (λ x. IsApart net_crc answer_json 32 (text "gone") (5 ∷ []) x.1) (listener 32 (input j))
unfolding ℕ_discrete listener
others-IsApart zero apart = absurd (apart refl)
others-IsApart (suc zero) apart = rw noise_leaves tt
others-IsApart (suc (suc j)) apart =
    let nothing : input (suc (suc j)) ≡ [] = ground arith in rw nothing tt

stream_delivered_example :
    (w : ℕ) × (rs : List Received) × (w < 32)
    × (written_to (5 ∷ []) (resting.finished w) ≡ asked ∷ [])
    × ((v : ℕ) → ¬ (w ≡ v) → written_to (5 ∷ []) (resting.finished v) ≡ [])
    × (receive net_crc 2 (on_the_wire (written_to (5 ∷ []) (resting.finished w))) ≡ ok rs)
    × (payloads rs ≡ 7 ∷ 8 ∷ [])
    × IsFrom question 2 rs
unfolding ℕ_discrete
stream_delivered_example =
    stream_delivered net_crc answer_json question (7 ∷ 8 ∷ []) (asked ∷ []) 32 (5 ∷ [])
      question-IsStream (omega arith) refl thirty_two asked_made printed input 0 refl others-IsApart
      {t = resting} resting_reached resting_over
