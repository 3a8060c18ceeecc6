-- ===== src/Server/Room/Pipeline/Order.antt =====
-- The order in which tasks get through a room.
use native.Mathlib.Decide.{ℕ_discrete}
use fernq.Prelude.{
  ℕ, ◌≡◌, refl, ap, ◌∙◌, true, Option, none, some, List, [], ◌∷◌, ◌++◌, map, append_assoc,
  if◌then◌else◌, ◌==◌, Result, arith,
}
use fernq.Protocol.{Crc}
use fernq.Protocol.Json.{Json}
use fernq.Server.Connection.{update}
use fernq.Server.Room.{Conns, MessageTask, Write, Handled, queued, listener}
use fernq.Server.Room.Pipeline.{
  Arrivals, Sent, ends, passes, Pipes, Step, end, pass, send, recv, deliver, Reach, begin, next,
}

-- What is marked with this number.
unfoldable pub select {ℓ} : {A : Type ℓ} → ℕ → List (ℕ × A) → List A
select k [] = []
select k ((j, a) ∷ xs) = if j == k then a ∷ select k xs else select k xs

module _ {ℓ} {A : Type ℓ} (k : ℕ) where
  pub select-append : (xs ys : List (ℕ × A)) → select k (xs ++ ys) ≡ select k xs ++ select k ys
  unfolding select
  select-append [] ys = refl
  select-append ((j, a) ∷ xs) ys = ground (arith, select-append xs ys)

  select_hit : (a : A) (xs : List (ℕ × A)) → select k ((k, a) ∷ xs) ≡ a ∷ select k xs
  unfolding select
  select_hit a xs = ground arith

  select_miss :
      (j : ℕ) (a : A) (xs : List (ℕ × A)) → ¬ (j ≡ k) → select k ((j, a) ∷ xs) ≡ select k xs
  unfolding select
  select_miss j a xs h = ground arith

  select_nil : select {A = A} k [] ≡ []
  unfolding select
  select_nil = refl

  select_one :
      (x : ℕ × A) (xs : List (ℕ × A)) → select k (x ∷ xs) ≡ select k (x ∷ []) ++ select k xs
  select_one x xs = select-append (x ∷ []) xs

  select_back :
      (a : A) (xs ys : List (ℕ × A)) (j : ℕ)
      → select k (xs ++ (k, a) ∷ []) ++ select j ys ≡ select k xs ++ select j ((j, a) ∷ ys)
  unfolding select
  select_back a [] ys j = ground arith
  select_back a (x ∷ xs) ys j = ground (arith, select_back a xs ys j)

  select_skip :
      (j : ℕ) (a : A) (xs : List (ℕ × A)) → ¬ (j ≡ k) → select k (xs ++ (j, a) ∷ []) ≡ select k xs
  unfolding select
  select_skip j a [] h = ground arith
  select_skip j a (x ∷ xs) h = ground (arith, select_skip j a xs h)

abbrev pub held : Option Sent → List Sent
held none = []
held (some sent) = sent ∷ []

pub queued-ends :
    (r : Result (Unit {0}) Handled) (later : List (ℕ × MessageTask))
    → ends r ≡ true
    → queued r later ≡ []
queued-ends r later h = ground arith

queued-passes :
    (r : Result (Unit {0}) Handled) (later : List (ℕ × MessageTask))
    → passes r ≡ true
    → queued r later ≡ later
queued-passes r later h = ground arith

map-snoc :
    {A B : Type 0} (f : A → B) (xs : List A) (x : A) → map f (xs ++ x ∷ []) ≡ map f xs ++ f x ∷ []
map-snoc f [] x = refl
map-snoc f (y ∷ xs) x = ap (◌∷◌ (f y)) (map-snoc f xs x)

module _ (n : ℕ) where
  -- What there is of a connection at a worker: the tasks that the worker is done with, the one it is at,
  -- those in its channel, and those of the frames that are left.
  unfoldable pub line : Pipes → ℕ → ℕ → List MessageTask
  line s w i =
      select i (map (λ d. d.0) (s.finished w))
      ++ (select i (held (s.hand w))
          ++ (select i (s.channel w) ++ select w (listener n (s.rest i))))

  listener-update :
      (rest : ℕ → Arrivals) (i : ℕ) (frames : Arrivals)
      → listener n frames ≡ listener n (rest i)
      → (j : ℕ) → listener n (update rest i frames j) ≡ listener n (rest j)
  listener-update rest i frames e j = ground (arith, ap rest)

  sent-channel :
      (rest : ℕ → Arrivals) (channel : ℕ → List Sent) (i w : ℕ) (task : MessageTask)
      (frames : Arrivals)
      → listener n (rest i) ≡ (w, task) ∷ listener n frames
      → (v j : ℕ)
      → select j (update channel w (channel w ++ (i, task) ∷ []) v)
          ++ select v (listener n (update rest i frames j))
        ≡ select j (channel v) ++ select v (listener n (rest j))
  sent-channel rest channel i w task frames e v j = elim (ℕ_discrete w v) [
    | yes same_worker ↦ elim (ℕ_discrete i j) [
      | yes same_conn ↦
          ground
            (arith, e, ap rest, ap channel, select_back j task (channel w) (listener n frames) w)
      | no apart ↦ ground (arith, ap channel, select_skip j i task (channel w))
    ]
    | no other ↦ elim (ℕ_discrete i j) [
      | yes same_conn ↦ ground (arith, ap rest, select_miss v w task (listener n frames))
      | no apart ↦ ground arith
    ]
  ]

  taken :
      (hand : ℕ → Option Sent) (channel : ℕ → List Sent) (v : ℕ) (sent : Sent) (later : List Sent)
      → hand v ≡ none
      → channel v ≡ sent ∷ later
      → (w i : ℕ) (tail : List MessageTask)
      → select i (held (update hand v (some sent) w))
          ++ (select i (update channel v later w) ++ tail)
        ≡ select i (held (hand w)) ++ (select i (channel w) ++ tail)
  taken hand channel v sent later e h w i tail = ground (
    arith,
    ap hand,
    ap channel,
    select_nil {A = MessageTask} i,
    select_one i sent later,
    append_assoc (select i (sent ∷ [])) (select i later) tail,
  )

  laid_down :
      (finished : ℕ → List (Sent × List Write)) (hand : ℕ → Option Sent) (v : ℕ) (sent : Sent)
      (writes : List Write)
      → hand v ≡ some sent
      → (w i : ℕ) (tail : List MessageTask)
      → select i (map (λ d. d.0) (update finished v (finished v ++ (sent, writes) ∷ []) w))
          ++ (select i (held (update hand v none w)) ++ tail)
        ≡ select i (map (λ d. d.0) (finished w)) ++ (select i (held (hand w)) ++ tail)
  laid_down finished hand v sent writes e w i tail = ground (
    arith,
    ap hand,
    ap finished,
    select_nil {A = MessageTask} i,
    map-snoc (λ d. d.0) (finished v) (sent, writes),
    select-append i (map (λ d. d.0) (finished v)) (sent ∷ []),
    append_assoc (select i (map (λ d. d.0) (finished v))) (select i (sent ∷ [])) tail,
  )

  module _ (crc : Crc) (json : Json) (Seen : Conns → Type 0) where
    Step-line : {s t : Pipes} → Step crc json n Seen s t → (w i : ℕ) → line t w i ≡ line s w i
    unfolding line listener
    Step-line (end j head read_payload frames hears e h) w i = refl
    Step-line {s} (pass j head read_payload frames hears e h) w i =
        rw (listener-update s.rest j frames (rw (e, queued-passes _ (listener n frames) h)) i)
    Step-line {s} (send j head read_payload frames v task hears e h room) w i =
        rw (sent-channel s.rest s.channel j v task frames (rw (e, h)) w i)
    Step-line {s} (recv v sent later e h) w i = rw (taken s.hand s.channel v sent later e h w i)
    Step-line {s} (deliver v sent conns later_conns writes e a b h) w i =
        rw (laid_down s.finished s.hand v sent writes e w i)

    Reach-line :
        {input : ℕ → Arrivals} {k : ℕ} {s : Pipes}
        → Reach crc json n Seen input k s
        → (w i : ℕ) → line s w i ≡ select w (listener n (input i))
    unfolding line
    Reach-line {input} begin w i = rw (select_nil {A = MessageTask} i)
    Reach-line (next r step) w i = Step-line step w i ∙ Reach-line r w i

    -- While nobody closes the room or a connection from outside, in whatever order listeners and workers run, with as many connections as there may be, and whatever
    -- the table of connections holds: the tasks of one connection that a worker is done with, the one it
    -- is at, those in its channel, and those of the frames that are left make up, in this order,
    -- the tasks that the frames of the connection give to that worker. No task is lost, doubled, or
    -- overtaken by a later one of the same connection in the same channel.
    pub Reach-fifo :
        {input : ℕ → Arrivals} {k : ℕ} {s : Pipes}
        → Reach crc json n Seen input k s
        → (w i : ℕ)
        → select i (map (λ d. d.0) (s.finished w))
            ++ (select i (held (s.hand w))
                ++ (select i (s.channel w) ++ select w (listener n (s.rest i))))
          ≡ select w (listener n (input i))
    unfolding line
    Reach-fifo r w i = Reach-line r w i
