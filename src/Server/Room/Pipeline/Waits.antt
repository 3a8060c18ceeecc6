-- ===== src/Server/Room/Pipeline/Waits.antt =====
-- The tasks that wait in a room.
use native.Mathlib.Decide.{ℕ_discrete}
use mathlib.Core.Logic.{ite}
use fernq.Prelude.{ℕ, subst, none, some, List, [], ◌∷◌, ◌++◌, All}
use fernq.Prelude.Bytes.{Bytes}
use fernq.Protocol.{Crc}
use fernq.Protocol.Json.{Json}
use fernq.Server.Connection.{update}
use fernq.Server.Room.{Conns}
use fernq.Server.Room.Queued.{IsQueued, handle_frame-IsQueued}
use fernq.Server.Room.Pipeline.{
  Arrivals, Pipes, Step, end, pass, send, recv, deliver, Reach, begin, next,
}
use fernq.Server.Room.Pipeline.Order.{held}

pub All-append :
    {A : Type 0} (P : A → Type 0) (xs ys : List A) → All P xs → All P ys → All P (xs ++ ys)
All-append P [] ys h k = k
All-append P (x ∷ xs) ys h k = (h.0, All-append P xs ys h.1 k)

pub update-All :
    {A : Type 0} (P : ℕ → A → Type 0) (f : ℕ → A) (i : ℕ) (a : A)
    → P i a
    → ((j : ℕ) → P j (f j))
    → (j : ℕ) → P j (update f i a j)
update-All P f i a h k j = elim (ℕ_discrete i j) as (λ d. P j (ite d a (f j))) [
  | yes e ↦ subst (λ x. P x a) e h
  | no apart ↦ k j
]

-- However the payload was read.
abbrev pub Any : Bytes → ℕ → Bytes → Type 0
Any head size rest = Unit {0}

module _ (n : ℕ) where
  -- What waits at a worker was given to it by a listener.
  pub record AreQueued (s : Pipes) : Type 0 where
    pub channels : (w : ℕ) → All (λ t. IsQueued Any n w t.1) (s.channel w)
    pub hands : (w : ℕ) → All (λ t. IsQueued Any n w t.1) (held (s.hand w))

  module _ (crc : Crc) (json : Json) (Seen : Conns → Type 0) where
    Step-channels :
        {s t : Pipes}
        → Step crc json n Seen s t
        → AreQueued s
        → (w : ℕ) → All (λ x. IsQueued Any n w x.1) (t.channel w)
    Step-channels (end i head read_payload frames hears e h) q = q.channels
    Step-channels (pass i head read_payload frames hears e h) q = q.channels
    Step-channels {s} (send i head read_payload frames v task hears e h room) q =
        update-All (λ w c. All (λ x. IsQueued Any n w x.1) c) s.channel v
          (s.channel v ++ (i, task) ∷ [])
          (All-append (λ x. IsQueued Any n v x.1) (s.channel v) ((i, task) ∷ []) (q.channels v)
            (handle_frame-IsQueued Any n v task head read_payload (λ k rest e. tt) h, tt))
          q.channels
    Step-channels {s} (recv v sent later e h) q =
        update-All (λ w c. All (λ x. IsQueued Any n w x.1) c) s.channel v later
          (subst (All (λ x. IsQueued Any n v x.1)) h (q.channels v)).1 q.channels
    Step-channels (deliver v sent conns later_conns writes e a b h) q = q.channels

    Step-hands :
        {s t : Pipes}
        → Step crc json n Seen s t
        → AreQueued s
        → (w : ℕ) → All (λ x. IsQueued Any n w x.1) (held (t.hand w))
    Step-hands (end i head read_payload frames hears e h) q = q.hands
    Step-hands (pass i head read_payload frames hears e h) q = q.hands
    Step-hands (send i head read_payload frames v task hears e h room) q = q.hands
    Step-hands {s} (recv v sent later e h) q =
        update-All (λ w c. All (λ x. IsQueued Any n w x.1) (held c)) s.hand v (some sent)
          ((subst (All (λ x. IsQueued Any n v x.1)) h (q.channels v)).0, tt) q.hands
    Step-hands {s} (deliver v sent conns later_conns writes e a b h) q =
        update-All (λ w c. All (λ x. IsQueued Any n w x.1) (held c)) s.hand v none tt q.hands

    pub Reach-AreQueued :
        {input : ℕ → Arrivals} {k : ℕ} {s : Pipes} → Reach crc json n Seen input k s → AreQueued s
    Reach-AreQueued begin = record { channels = λ w. tt; hands = λ w. tt }
    Reach-AreQueued (next r step) = record {
      channels = Step-channels step (Reach-AreQueued r);
      hands = Step-hands step (Reach-AreQueued r);
    }
