-- ===== src/Server/Room/Pipeline/Progress.antt =====
-- No task waits in a room for ever.

use fernq.Prelude.{
  ℕ, ◌≡◌, ◌⊎◌, inl, inr, Bool, Bool-cases, true, false, append_assoc, refl, ap, sym, ◌∙◌, subst,
  Option, none, some, List, [], ◌∷◌, ◌++◌, All, map, length, append-nil, Result, ok, err, panic,
  stuck, Returns, arith,
}
use fernq.Prelude.Bytes.{Bytes}
use fernq.Protocol.{Crc}
use fernq.Protocol.Json.{Json}
use fernq.Server.Connection.{update}
use fernq.Server.Room.{Conns, Handled, leaves, takes_pong, drops, queues, handle_frame, listener}
use fernq.Server.Room.Queued.{IsQueued}
use fernq.Server.Room.Safe.{work-ok}
use fernq.Server.Room.Pipeline.{
  Arrivals, Sent, ends, passes, Pipes, Step, end, pass, send, recv, deliver, Reach, begin, next,
}
use fernq.Server.Room.Pipeline.Order.{select, held, queued-ends, Reach-fifo}
use fernq.Server.Room.Pipeline.Waits.{All-append, update-All, Any, AreQueued, Reach-AreQueued}

passes-goes_on : (r : Result (Unit {0}) Handled) → passes r ≡ true → ends r ≡ false
passes-goes_on r h = ground arith

module _ (n : ℕ) where
  -- The frame does not end its listener.
  abbrev pub GoesOn : Bytes × (ℕ → Option Bytes) → Type 0
  GoesOn (head, read_payload) = ends (handle_frame n head read_payload) ≡ false

  -- The first frame that is left ends its listener.
  abbrev pub IsStopped : Arrivals → Type 0
  IsStopped rest =
      (head : Bytes) × (read_payload : ℕ → Option Bytes) × (frames : Arrivals) × (rest
        ≡ (head, read_payload) ∷ frames)
      × (ends (handle_frame n head read_payload) ≡ true)

  -- Nothing is left of what a peer sends, or its listener has ended, at the first frame that is left.
  abbrev pub IsOver : Bool → Arrivals → Type 0
  IsOver ended rest = (rest ≡ []) ⊎ ((ended ≡ true) × IsStopped rest)

  IsOver-listener : (ended : Bool) (rest : Arrivals) → IsOver ended rest → listener n rest ≡ []
  unfolding listener
  IsOver-listener ended rest (inl e) = rw e refl
  IsOver-listener ended rest (inr (there, (head, read_payload, frames, e, h))) =
      rw e (queued-ends (handle_frame n head read_payload) (listener n frames) h)

  module _ (crc : Crc) (json : Json) (Seen : Conns → Type 0) where
    module _ (input : ℕ → Arrivals) where
      -- What was heard of a peer, in front of what is left of it.
      abbrev IsHeard : ℕ → Arrivals → Type 0
      IsHeard i rest = (heard : Arrivals) × (input i ≡ heard ++ rest) × All GoesOn heard

      hear :
          (rest : ℕ → Arrivals) (i : ℕ) (head : Bytes) (read_payload : ℕ → Option Bytes)
          (frames : Arrivals)
          → rest i ≡ (head, read_payload) ∷ frames
          → GoesOn (head, read_payload)
          → ((j : ℕ) → IsHeard j (rest j))
          → (j : ℕ) → IsHeard j (update rest i frames j)
      hear rest i head read_payload frames e goes h =
          let (heard, whole, went_on) = h i in
          update-All IsHeard rest i frames
            (
              heard ++ (head, read_payload) ∷ [],
              whole
                  ∙ ap (λ r. heard ++ r) e
                  ∙ sym (append_assoc heard ((head, read_payload) ∷ []) frames),
              All-append (GoesOn) heard ((head, read_payload) ∷ []) went_on (goes, tt),
            )
            h

      Step-IsHeard :
          {s t : Pipes}
          → Step crc json n Seen s t
          → ((j : ℕ) → IsHeard j (s.rest j))
          → (j : ℕ) → IsHeard j (t.rest j)
      Step-IsHeard (end i head read_payload frames hears e h) q = q
      Step-IsHeard {s} (pass i head read_payload frames hears e h) q =
          hear s.rest i head read_payload frames e
            (passes-goes_on (handle_frame n head read_payload) h) q
      Step-IsHeard {s} (send i head read_payload frames v task hears e h room) q =
          hear s.rest i head read_payload frames e (ap ends h) q
      Step-IsHeard (recv v sent later e h) q = q
      Step-IsHeard (deliver v sent conns later_conns writes e a b h) q = q

    Reach-IsHeard :
        {input : ℕ → Arrivals} {k : ℕ} {s : Pipes}
        → Reach crc json n Seen input k s
        → (j : ℕ) → IsHeard input j (s.rest j)
    Reach-IsHeard begin j = ([], refl, tt)
    Reach-IsHeard {input} (next r step) j = Step-IsHeard input step (Reach-IsHeard r) j

    -- A listener that has ended stands at the frame that ended it.
    Step-IsStopped :
        {s t : Pipes}
        → Step crc json n Seen s t
        → ((j : ℕ) → s.ended j ≡ true → IsStopped (s.rest j))
        → (j : ℕ) → t.ended j ≡ true
        → IsStopped (t.rest j)
    Step-IsStopped {s} (end i head read_payload frames hears e h) q =
        update-All (λ j b. b ≡ true → IsStopped (s.rest j)) s.ended i true
          (λ there. (head, read_payload, frames, e, h)) q
    Step-IsStopped {s} (pass i head read_payload frames hears e h) q =
        update-All (λ j r. s.ended j ≡ true → IsStopped r) s.rest i frames (λ there. absurd (cc)) q
    Step-IsStopped {s} (send i head read_payload frames v task hears e h room) q =
        update-All (λ j r. s.ended j ≡ true → IsStopped r) s.rest i frames (λ there. absurd (cc)) q
    Step-IsStopped (recv v sent later e h) q = q
    Step-IsStopped (deliver v sent conns later_conns writes e a b h) q = q

    Reach-IsStopped :
        {input : ℕ → Arrivals} {k : ℕ} {s : Pipes}
        → Reach crc json n Seen input k s
        → (j : ℕ) → s.ended j ≡ true
        → IsStopped (s.rest j)
    Reach-IsStopped begin j h = absurd (cc)
    Reach-IsStopped (next r step) j h = Step-IsStopped step (Reach-IsStopped r) j h

    module _ (printed : (v : json.Value) → Returns (json.to_vec v)) (conns : Conns)
        (seen : Seen conns) {s : Pipes} (q : AreQueued n s)
        (over : (t : Pipes) → ¬ Step crc json n Seen s t) where
      no_hand : (w : ℕ) (o : Option Sent) → s.hand w ≡ o → o ≡ none
      no_hand w none e = refl
      no_hand w (some sent) e =
          let waits = (subst (λ o. All (λ x. IsQueued Any n w x.1) (held o)) e (q.hands w)).0 in
          let (writes, done) = work-ok crc json printed waits conns conns in
          absurd (over _ (deliver w sent conns conns writes e seen seen done))

      no_channel : (w : ℕ) (c : List Sent) → s.channel w ≡ c → c ≡ []
      no_channel w [] e = refl
      no_channel w (sent ∷ later) e =
          absurd (over _ (recv w sent later (no_hand w (s.hand w) refl) e))

      no_frame :
          (i : ℕ) (head : Bytes) (read_payload : ℕ → Option Bytes) (frames : Arrivals)
          (r : Result (Unit {0}) Handled)
          → s.ended i ≡ false
          → s.rest i ≡ (head, read_payload) ∷ frames
          → ¬ (handle_frame n head read_payload ≡ r)
      no_frame i head read_payload frames (ok leaves) hears e h =
          over _ (end i head read_payload frames hears e (ap ends h))
      no_frame i head read_payload frames (ok takes_pong) hears e h =
          over _ (pass i head read_payload frames hears e (ap passes h))
      no_frame i head read_payload frames (ok drops) hears e h =
          over _ (pass i head read_payload frames hears e (ap passes h))
      no_frame i head read_payload frames (ok (queues w task)) hears e h =
          let empty : s.channel w ≡ [] = no_channel w (s.channel w) refl in
          over _
            (send i head read_payload frames w task hears e h (ground (arith, ap length empty)))
      no_frame i head read_payload frames (err u) hears e h =
          over _ (end i head read_payload frames hears e (ap ends h))
      no_frame i head read_payload frames panic hears e h =
          over _ (end i head read_payload frames hears e (ap ends h))
      no_frame i head read_payload frames stuck hears e h =
          over _ (end i head read_payload frames hears e (ap ends h))

      no_rest : (i : ℕ) (frames : Arrivals) → s.ended i ≡ false → s.rest i ≡ frames → frames ≡ []
      no_rest i [] hears e = refl
      no_rest i ((head, read_payload) ∷ frames) hears e =
          absurd
            (no_frame i head read_payload frames (handle_frame n head read_payload) hears e refl)

      all-IsOver :
          ((i : ℕ) → s.ended i ≡ true → IsStopped (s.rest i))
          → (i : ℕ) → IsOver (s.ended i) (s.rest i)
      all-IsOver stopped i = elim (Bool-cases (s.ended i)) [
        | inl there ↦ inr (there, stopped i there)
        | inr hears ↦ inl (no_rest i (s.rest i) hears refl)
      ]

    -- In a room whose listeners and workers can do nothing more, which nobody closes, and no connection of
    -- which is closed from outside: of what a peer sent, a first part was heard and did not end its
    -- listener, and either this is all, or the next frame is the one at which the listener left its loop or
    -- panicked; no channel holds a task, and the workers are done with exactly the tasks that the frames
    -- gave them, those of one connection in their order. Conversely, while anything waits, something can
    -- be done: a full channel never blocks the room, and no worker panics, if JSON does not panic when it
    -- prints.
    pub Reach-delivers :
        ((v : json.Value) → Returns (json.to_vec v))
        → (conns : Conns) → Seen conns
        → {input : ℕ → Arrivals} {k : ℕ} {s : Pipes} → Reach crc json n Seen input k s
        → ((t : Pipes) → ¬ Step crc json n Seen s t)
        → (w i : ℕ)
        → (heard : Arrivals) × (input i ≡ heard ++ s.rest i)
          × All GoesOn heard
          × IsOver (s.ended i) (s.rest i)
          × (s.channel w ≡ [])
          × (s.hand w ≡ none)
          × (select i (map (λ d. d.0) (s.finished w)) ≡ select w (listener n (input i)))
    unfolding select
    Reach-delivers printed conns seen {input} {k} {s} r over w i =
        let q = Reach-AreQueued n crc json Seen r in
        let (heard, whole, went_on) = Reach-IsHeard r i in
        let over_there : IsOver (s.ended i) (s.rest i) =
          all-IsOver printed conns seen q over (Reach-IsStopped r) i in
        let nothing = IsOver-listener (s.ended i) (s.rest i) over_there in
        let empty : s.channel w ≡ [] = no_channel printed conns seen q over w (s.channel w) refl in
        let free : s.hand w ≡ none = no_hand printed conns seen q over w (s.hand w) refl in
        (
          heard,
          whole,
          went_on,
          over_there,
          empty,
          free,
          sym (append-nil _) ∙ (rw (free, empty, nothing) at (Reach-fifo n crc json Seen r w i)),
        )
