-- ===== src/Server/Room/Pipeline/Written.antt =====
-- What a worker gave to the `write` of one connection, whoever sent it.
use fernq.Prelude.{
  ℕ, ◌≡◌, ◌≢◌, refl, ap, sym, ◌∙◌, Bool-cases, inl, inr, true, Option, none, some, List, [], ◌∷◌,
  ◌++◌, ◌&&◌, All, map, if◌then◌else◌, ◌==◌, Result, ok, err, panic, stuck, ok-injective, arith,
}
use fernq.Prelude.Bytes.{Bytes}
use fernq.Prelude.Text.{text, same, same-eq, same_refl}
use fernq.Protocol.{Crc}
use fernq.Protocol.Error.{ProtocolResult}
use fernq.Protocol.Frame.{end_stream, end_channel, is_request}
use fernq.Protocol.Decoder.{get_channel_id}
use fernq.Protocol.Json.{Json}
use fernq.Protocol.Validate.{create_message_response}
use fernq.Server.Room.{Conns, MessageTask, Write, or_nothing, not_found, route, work}
use fernq.Server.Room.Pipeline.{
  Arrivals, Sent, Pipes, end, pass, send, recv, deliver, Reach, begin, next,
}
use fernq.Server.Room.Pipeline.Order.{select}
use fernq.Server.Room.Pipeline.Waits.{All-append, update-All}

-- The frames for a connection among these.
abbrev pub frames_for : Bytes → List Write → List Bytes
frames_for conn [] = []
frames_for conn ((c, frame) ∷ writes) =
    if same c conn then frame ∷ frames_for conn writes else frames_for conn writes

-- What a worker gave to the `write` of a connection, whoever sent it.
unfoldable pub written_to : Bytes → List (Sent × List Write) → List Bytes
written_to conn [] = []
written_to conn ((sent, writes) ∷ later) = frames_for conn writes ++ written_to conn later

-- How a predicate on all goes over to those with one mark.
pub All-select :
    {A : Type 0} (P : A → Type 0) (k : ℕ) (xs : List (ℕ × A))
    → All (λ x. P x.1) xs
    → All P (select k xs)
unfolding select
All-select P k [] h = tt
All-select P k ((j, a) ∷ xs) h = elim (Bool-cases (j == k)) [
  | inl e ↦ rw e (h.0, All-select P k xs h.1)
  | inr e ↦ rw e (All-select P k xs h.1)
]

select-hit :
    {A : Type 0} (P : A → Type 0) (k : ℕ) (a : A) (xs : List (ℕ × A))
    → All P (select k ((k, a) ∷ xs))
    → P a
unfolding select
select-hit P k a xs h = let here : (k == k) ≡ true = ground arith in (rw here at h).0

select-later :
    {A : Type 0} (P : A → Type 0) (k : ℕ) (x : ℕ × A) (xs : List (ℕ × A))
    → All P (select k (x ∷ xs))
    → All P (select k xs)
unfolding select
select-later P k (j, a) xs h = elim (Bool-cases (j == k)) [
  | inl e ↦ (rw e at h).1
  | inr e ↦ rw e at h
]

none-some : {A : Type 0} {a : A} → ¬ (none ≡ some a)
none-some h = cc

module _ (crc : Crc) (json : Json) (n : ℕ) (target conn : Bytes) where
  -- The tables in which this connection has the name, and no other name.
  abbrev pub Finds : Conns → Type 0
  Finds conns =
      (conns target ≡ some conn) × ((name : Bytes) → conns name ≡ some conn → name ≡ target)

  -- A task that is neither for the name nor from it.
  abbrev pub IsApart : MessageTask → Type 0
  IsApart task = (task.to ≢ target) × (task.from ≢ target)

  abbrev pub IsDone : Sent × List Write → Type 0
  IsDone d =
      (d.0.1.to ≡ target → d.1 ≡ (conn, d.0.1.payload) ∷ [])
      × (IsApart d.0.1 → frames_for conn d.1 ≡ [])

  frames_for_other : (c frame : Bytes) → c ≢ conn → frames_for conn ((c, frame) ∷ []) ≡ []
  frames_for_other c frame h = elim (Bool-cases (same c conn)) [
    | inl e ↦ absurd (h (same-eq c conn e))
    | inr e ↦ rw e refl
  ]

  work-Finds :
      (conns later_conns : Conns) (task : MessageTask) (writes : List Write)
      → Finds conns
      → work crc json conns later_conns task ≡ ok writes
      → task.to ≡ target
      → writes ≡ (conn, task.payload) ∷ []
  unfolding work
  work-Finds conns later_conns task writes there h e =
      let found : conns task.to ≡ some conn = ap conns e ∙ there.0 in
      sym (ok-injective refl (rw found at h))

  -- An answer goes to the connection that was found.
  or_nothing-other :
      {A : Type 0} (r : ProtocolResult A) (f : A → Result (Unit {0}) (List Write))
      (writes : List Write)
      → or_nothing r f ≡ ok writes
      → ((a : A) → f a ≡ ok writes → frames_for conn writes ≡ [])
      → frames_for conn writes ≡ []
  or_nothing-other (ok a) f writes h k = k a h
  or_nothing-other (err e) f writes h k =
      let nothing : [] ≡ writes = ok-injective refl h in rw (sym nothing) refl
  or_nothing-other panic f writes h k = absurd (cc)
  or_nothing-other stuck f writes h k = absurd (cc)

  not_found-other :
      (task : MessageTask) (o : Option Bytes) (writes : List Write)
      → o ≢ some conn
      → not_found crc json task o ≡ ok writes
      → frames_for conn writes ≡ []
  not_found-other task none writes apart h =
      let nothing : [] ≡ writes = ok-injective refl h in rw (sym nothing) refl
  not_found-other task (some c) writes apart h =
      or_nothing-other (get_channel_id task.payload) _ writes h λ channel_id h1.
        or_nothing-other
          (create_message_response crc json task.from channel_id 404 (text "404 Not Found !")) _
          writes h1
          λ res h2.
            let one : (c, res) ∷ [] ≡ writes = ok-injective refl h2 in
            rw (sym one) (frames_for_other c res (λ e. apart (ap some e)))

  route-other :
      (conns later_conns : Conns) (task : MessageTask) (o : Option Bytes) (writes : List Write)
      → o ≢ some conn
      → later_conns task.from ≢ some conn
      → route crc json later_conns task o ≡ ok writes
      → frames_for conn writes ≡ []
  route-other conns later_conns task (some c) writes apart quiet h =
      let one : (c, task.payload) ∷ [] ≡ writes = ok-injective refl h in
      rw (sym one) (frames_for_other c task.payload (λ e. apart (ap some e)))
  route-other conns later_conns task none writes apart quiet h =
      elim (Bool-cases
        (end_stream task.flags && (end_channel task.flags && is_request task.flags))) [
          | inl e ↦ not_found-other task (later_conns task.from) writes quiet (rw e at h)
          | inr e ↦
              let nothing : [] ≡ writes = ok-injective refl (rw e at h) in rw (sym nothing) refl
        ]

  work-IsDone :
      (conns later_conns : Conns) (sent : Sent) (writes : List Write)
      → Finds conns
      → Finds later_conns
      → work crc json conns later_conns sent.1 ≡ ok writes
      → IsDone (sent, writes)
  unfolding work
  work-IsDone conns later_conns sent writes there still h = (
    work-Finds conns later_conns sent.1 writes there h,
    λ apart.
        route-other conns later_conns sent.1 (conns sent.1.to) writes
          (λ e. apart.0 (there.1 sent.1.to e)) (λ e. apart.1 (still.1 sent.1.from e)) h,
  )

  pub Reach-IsDone :
      {input : ℕ → Arrivals} {k : ℕ} {s : Pipes}
      → Reach crc json n Finds input k s
      → (w : ℕ) → All IsDone (s.finished w)
  Reach-IsDone begin w = tt
  Reach-IsDone (next r (end i head read_payload frames hears e h)) w = Reach-IsDone r w
  Reach-IsDone (next r (pass i head read_payload frames hears e h)) w = Reach-IsDone r w
  Reach-IsDone (next r (send i head read_payload frames v task hears e h room)) w = Reach-IsDone r w
  Reach-IsDone (next r (recv v sent later e h)) w = Reach-IsDone r w
  Reach-IsDone (next {s = s} r (deliver v sent conns later_conns writes e there still h)) w =
      update-All (λ v fs. All IsDone fs) s.finished v (s.finished v ++ (sent, writes) ∷ [])
        (All-append IsDone (s.finished v) ((sent, writes) ∷ []) (Reach-IsDone r v)
          (work-IsDone conns later_conns sent writes there still h, tt))
        (Reach-IsDone r) w

  -- What was written to the connection, if the tasks of one sender are for it and those of all others
  -- have nothing to do with it.
  pub written_to-select :
      (i : ℕ) (fs : List (Sent × List Write))
      → All IsDone fs
      → All (λ t. t.to ≡ target) (select i (map (λ d. d.0) fs))
      → ((j : ℕ) → ¬ (i ≡ j) → All IsApart (select j (map (λ d. d.0) fs)))
      → written_to conn fs ≡ map (λ t. t.payload) (select i (map (λ d. d.0) fs))
  unfolding written_to select
  written_to-select i [] d named others = refl
  written_to-select i (((j, task), writes) ∷ fs) d named others =
      let later =
        written_to-select i fs d.1 (select-later _ i (j, task) (map (λ d. d.0) fs) named)
          (λ k apart. select-later IsApart k (j, task) (map (λ d. d.0) fs) (others k apart)) in
      elim (Bool-cases (j == i)) [
        | inl e ↦ let written = d.0.0 (rw e at named).0 in rw (e, written, same_refl conn, later)
        | inr e ↦
            let apart = select-hit IsApart j task (map (λ d. d.0) fs) (others j (ground arith)) in
            rw (e, d.0.1 apart, later)
      ]

  -- The tables can be so.
  abbrev pub only_there : Conns
  only_there name = if same name target then some conn else none

  pub only_there-Finds : Finds only_there
  only_there-Finds = (
    rw (same_refl target) refl,
    λ name h. elim (Bool-cases (same name target)) [
      | inl e ↦ same-eq name target e
      | inr e ↦ absurd (none-some (rw e at h))
    ],
  )
