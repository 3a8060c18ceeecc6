-- ===== src/Server/Room/Heartbeat.antt =====
-- Which peers the heartbeat closes.
use fernq.Prelude.{
  ℕ, zero, suc, ◌+◌, ◌^◌, ◌≤◌, ◌<◌, ◌≡◌, refl, ap, ◌↔◌, ◌⊎◌, inl, inr, Bool, true, false, List, [],
  ◌∷◌, map, lt→ltb, le→ltb, arith,
}
use fernq.Server.Room.{Link, beat, beat_all, answered}

-- What happens to a connection: a tick of the heartbeat, with a ping that can be written or not, or a frame
-- of the peer that does not end its listener.
pub data Event : Type 0 where
  tick : (writes : Bool) → Event
  frame : Event

abbrev pub fresh : Link
fresh = record { pending = 0; closed = false; pings = 0 }

unfoldable pub run : ℕ → List Event → Link → Link
run max_pending [] link = link
run max_pending (tick writes ∷ events) link = run max_pending events (beat max_pending writes link)
run max_pending (frame ∷ events) link = run max_pending events (answered link)

-- The next n events are ticks.
abbrev pub Starts : ℕ → List Event → Type 0
Starts zero events = Unit
Starts (suc n) [] = ⊥
Starts (suc n) (frame ∷ events) = ⊥
Starts (suc n) (tick writes ∷ events) = Starts n events

-- Somewhere a ping cannot be written.
abbrev pub HasFailure : List Event → Type 0
HasFailure [] = ⊥
HasFailure (tick true ∷ events) = HasFailure events
HasFailure (tick false ∷ events) = Unit
HasFailure (frame ∷ events) = HasFailure events

-- Somewhere there are n ticks in a row.
abbrev pub HasSilence : ℕ → List Event → Type 0
HasSilence n [] = Starts n []
HasSilence n (e ∷ events) = Starts n (e ∷ events) ⊎ HasSilence n events

Starts-le : (m n : ℕ) (events : List Event) → n ≤ m → Starts m events → Starts n events
Starts-le m zero events l h = tt
Starts-le zero (suc n) events l h = absurd (omega arith)
Starts-le (suc m) (suc n) [] l h = elim h [ ]
Starts-le (suc m) (suc n) (frame ∷ events) l h = elim h [ ]
Starts-le (suc m) (suc n) (tick writes ∷ events) l h = Starts-le m n events (omega arith) h

abbrev live : ℕ → ℕ → Link
live p k = record { pending = p; closed = false; pings = k }

Starts-HasSilence : (n : ℕ) (events : List Event) → Starts n events → HasSilence n events
Starts-HasSilence n [] h = h
Starts-HasSilence n (e ∷ events) h = inl h

module _ (max_pending : ℕ) where
  beat-closed :
      (writes : Bool) (link : Link)
      → link.closed ≡ true
      → (beat max_pending writes link).closed ≡ true
  unfolding beat
  beat-closed writes link h = ground arith

  beat-fails : (link : Link) → (beat max_pending false link).closed ≡ true
  unfolding beat
  beat-fails link = ground arith

  run-closed :
      (events : List Event) (link : Link)
      → link.closed ≡ true
      → (run max_pending events link).closed ≡ true
  unfolding run answered
  run-closed [] link h = h
  run-closed (tick writes ∷ events) link h = run-closed events _ (beat-closed writes link h)
  run-closed (frame ∷ events) link h = run-closed events _ h

  HasFailure-closed :
      (events : List Event) (link : Link)
      → HasFailure events
      → (run max_pending events link).closed ≡ true
  unfolding run answered
  HasFailure-closed [] link h = elim h [ ]
  HasFailure-closed (tick true ∷ events) link h = HasFailure-closed events _ h
  HasFailure-closed (tick false ∷ events) link h = run-closed events _ (beat-fails link)
  HasFailure-closed (frame ∷ events) link h = HasFailure-closed events _ h

  beat-closes :
      (writes : Bool) (p k : ℕ)
      → max_pending < p
      → (beat max_pending writes (live p k)).closed ≡ true
  unfolding beat
  beat-closes writes p k h = rw (lt→ltb max_pending p h)

  module _ (bounded : max_pending + 1 < 2 ^ 32) where
    beat-counts :
        (p k : ℕ) → p ≤ max_pending → beat max_pending true (live p k) ≡ live (p + 1) (k + 1)
    unfolding beat
    beat-counts p k h = rw (le→ltb max_pending p h) (ap (λ n. live n (k + 1)) (omega arith))

    -- With d ticks left before the connection is closed.
    closed-HasSilence :
        (events : List Event) (p k d : ℕ)
        → p + suc d ≡ max_pending + 2
        → (run max_pending events (live p k)).closed ≡ true
        → HasFailure events ⊎ Starts (suc d) events ⊎ HasSilence (suc (suc max_pending)) events
    unfolding run answered
    closed-HasSilence [] p k d e h = absurd (cc)
    closed-HasSilence (tick false ∷ events) p k d e h = inl tt
    closed-HasSilence (tick true ∷ events) p k zero e h = inr (inl tt)
    closed-HasSilence (tick true ∷ events) p k (suc d) e h =
        elim (closed-HasSilence events (p + 1) (k + 1) d (omega (arith, e))
          (rw (beat-counts p k (omega (arith, e)), run) at h)) [
            | inl failure ↦ inl failure
            | inr (inl start) ↦ inr (inl start)
            | inr (inr later) ↦ inr (inr (inr later))
          ]
    closed-HasSilence (frame ∷ events) p k d e h =
        elim (closed-HasSilence events 0 k (suc max_pending) (omega arith) h) [
          | inl failure ↦ inl failure
          | inr (inl start) ↦
              inr (inr (inr (Starts-HasSilence (suc (suc max_pending)) events start)))
          | inr (inr later) ↦ inr (inr (inr later))
        ]

    Starts-closed :
        (events : List Event) (p k d : ℕ)
        → p + suc d ≡ max_pending + 2
        → Starts (suc d) events
        → (run max_pending events (live p k)).closed ≡ true
    unfolding run
    Starts-closed [] p k d e h = elim h [ ]
    Starts-closed (frame ∷ events) p k d e h = elim h [ ]
    Starts-closed (tick writes ∷ events) p k zero e h =
        run-closed events _ (beat-closes writes p k (omega (arith, e)))
    Starts-closed (tick false ∷ events) p k (suc d) e h =
        run-closed events _ (beat-fails (live p k))
    Starts-closed (tick true ∷ events) p k (suc d) e h =
        rw (beat-counts p k (omega (arith, e)), run)
          (Starts-closed events (p + 1) (k + 1) d (omega (arith, e)) h)

    HasSilence-closed :
        (events : List Event) (p k d : ℕ)
        → p + suc d ≡ max_pending + 2
        → HasSilence (suc (suc max_pending)) events
        → (run max_pending events (live p k)).closed ≡ true
    unfolding run answered
    HasSilence-closed [] p k d e h = elim h [ ]
    HasSilence-closed (tick writes ∷ events) p k d e (inl start) =
        Starts-closed (tick writes ∷ events) p k d e (
          Starts-le (suc (suc max_pending)) (suc d) (tick writes ∷ events) (omega (arith, e)) start)
    HasSilence-closed (frame ∷ events) p k d e (inl start) = elim start [ ]
    HasSilence-closed (tick writes ∷ events) p k zero e (inr later) =
        run-closed events _ (beat-closes writes p k (omega (arith, e)))
    HasSilence-closed (tick false ∷ events) p k (suc d) e (inr later) =
        run-closed events _ (beat-fails (live p k))
    HasSilence-closed (tick true ∷ events) p k (suc d) e (inr later) =
        rw (beat-counts p k (omega (arith, e)), run)
          (HasSilence-closed events (p + 1) (k + 1) d (omega (arith, e)) later)
    HasSilence-closed (frame ∷ events) p k d e (inr later) =
        HasSilence-closed events 0 k (suc max_pending) (omega arith) later

    -- While the limit is below 4294967295, the heartbeat closes a connection exactly if some ping cannot be
    -- written, or there are two more ticks in a row than the limit with no frame of the peer between
    -- them: a silent peer is closed, and one that can be written to and sends a frame in time, of
    -- whatever type, never is.
    pub run_iff :
        (events : List Event)
        → ((run max_pending events fresh).closed ≡ true)
          ↔ (HasFailure events ⊎ HasSilence (suc (suc max_pending)) events)
    run_iff events = (
      λ h. elim (closed-HasSilence events 0 0 (suc max_pending) (omega arith) h) [
        | inl failure ↦ inl failure
        | inr (inl start) ↦ inr (Starts-HasSilence (suc (suc max_pending)) events start)
        | inr (inr later) ↦ inr later
      ],
      λ h. elim h [
        | inl failure ↦ HasFailure-closed events fresh failure
        | inr silence ↦ HasSilence-closed events 0 0 (suc max_pending) (omega arith) silence
      ],
    )

-- A tick that nothing cancels does the same to each connection, whatever the others do.
beat_all_uncancelled :
    (max_pending : ℕ) (conns : List (Bool × Link))
    → beat_all max_pending (map (λ c. (false, c.0, c.1)) conns)
      ≡ map (λ c. beat max_pending c.0 c.1) conns
unfolding beat_all
beat_all_uncancelled max_pending [] = refl
beat_all_uncancelled max_pending (c ∷ conns) =
    ap (λ rest. beat max_pending c.0 c.1 ∷ rest) (beat_all_uncancelled max_pending conns)
