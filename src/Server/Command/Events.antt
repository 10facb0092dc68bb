-- ===== src/Server/Command/Events.antt =====
-- What can happen to the queue and the calls of one node: as events that run, and as a relation with
-- the states that it reaches.
use nodelume.Prelude.{
  ◌⊎◌, List-cases, ◌≤◌, ◌≡◌, ap, arith, List, [], ◌∷◌, Option, none, some, Bytes, str_eq_iff,
  length, length-append, ltb, Bool-cases, Option-cases, inl, inr,
}
use nodelume.Prelude.Map.{find, insert, delete, find-insert, find-delete}
use nodelume.Server.State.{RuntimeNode, AgentCommand, AgentResult}
use nodelume.Server.Command.{enqueue, poll, answer, receive, give_up, command_capacity}

-- A call begins, the agent fetches a command or answers one, a call gets its answer or gives up.
pub data Event : Type 0 where
  sends : AgentCommand → Event
  polls : Event
  answers : AgentResult → Event
  receives : Bytes → Event
  gives_up : Bytes → Event

-- Every answer lies in the channel of its own request.
abbrev pub Matched : List (Bytes × Option AgentResult) → Type 0
Matched m = (id : Bytes) (res : AgentResult) → find id m ≡ some (some res) → res.request_id ≡ id

insert-none-Matched :
    (j : Bytes) (m : List (Bytes × Option AgentResult)) → Matched m → Matched (insert j none m)
insert-none-Matched j m old id res h =
    let split = find-insert id j none m in ground (arith, old id res)

delete-Matched :
    (j : Bytes) (m : List (Bytes × Option AgentResult)) → Matched m → Matched (delete j m)
delete-Matched j m old id res h = let split = find-delete id j m in ground (arith, old id res)

insert_own-Matched :
    (own : AgentResult) (m : List (Bytes × Option AgentResult))
    → Matched m
    → Matched (insert own.request_id (some own) m)
insert_own-Matched own m old id res h =
    let split = find-insert id own.request_id (some own) m in
    ground (arith, old id res, str_eq_iff own.request_id id)

module _ {F : Type 0} where
  unfoldable pub step : Event → RuntimeNode F → RuntimeNode F
  step (Event.sends c) rt = (enqueue c rt).0
  step Event.polls rt = (poll rt).0
  step (Event.answers res) rt = answer res rt
  step (Event.receives id) rt = (receive id rt).0
  step (Event.gives_up id) rt = give_up id rt

  unfoldable pub run : List Event → RuntimeNode F → RuntimeNode F
  run [] rt = rt
  run (e ∷ es) rt = run es (step e rt)

  -- The states that a node can reach.
  pub data Reach (start : RuntimeNode F) : RuntimeNode F → Type 0 where
    here : Reach start start
    next : {rt : RuntimeNode F} (e : Event) → Reach start rt → Reach start (step e rt)

  pub record IsSound (rt : RuntimeNode F) : Type 0 where
    pub bounded : length rt.commands ≤ command_capacity
    pub matched : Matched rt.pending

  enqueue-IsSound : (c : AgentCommand) (rt : RuntimeNode F) → IsSound rt → IsSound (enqueue c rt).0
  unfolding enqueue
  enqueue-IsSound c rt s = elim (Bool-cases (ltb (length rt.commands) command_capacity)) [
    | inl room ↦ rw room (record {
      bounded = ground (arith, length-append rt.commands (c ∷ []));
      matched = insert-none-Matched c.id rt.pending s.matched;
    })
    | inr full ↦ rw full (record {
      bounded = s.bounded;
      matched = delete-Matched c.id _ (insert-none-Matched c.id rt.pending s.matched);
    })
  ]

  poll-IsSound : (rt : RuntimeNode F) → IsSound rt → IsSound (poll rt).0
  unfolding poll
  poll-IsSound rt s = elim (List-cases rt.commands) [
    | inl idle ↦ rw (idle, poll) s
    | inr (c, rest, some_wait) ↦
        rw (some_wait, poll)
          (record { bounded = ground (arith, ap length some_wait, s.bounded); matched = s.matched })
  ]

  answer-IsSound : (res : AgentResult) (rt : RuntimeNode F) → IsSound rt → IsSound (answer res rt)
  unfolding answer
  answer-IsSound res rt s = elim (Option-cases (find res.request_id rt.pending)) [
    | inl nobody ↦ rw (nobody, answer) s
    | inr (none, open_slot) ↦
        rw (open_slot, answer)
          (record { bounded = s.bounded; matched = insert_own-Matched res rt.pending s.matched })
    | inr (some _, taken) ↦ rw (taken, answer) s
  ]

  receive-IsSound : (id : Bytes) (rt : RuntimeNode F) → IsSound rt → IsSound (receive id rt).0
  unfolding receive
  receive-IsSound id rt s = elim (Option-cases (find id rt.pending)) [
    | inl nobody ↦ rw (nobody, receive) s
    | inr (none, open_slot) ↦ rw (open_slot, receive) s
    | inr (some _, taken) ↦
        rw (taken, receive)
          (record { bounded = s.bounded; matched = delete-Matched id rt.pending s.matched })
  ]

  step-IsSound : (e : Event) (rt : RuntimeNode F) → IsSound rt → IsSound (step e rt)
  unfolding step give_up
  step-IsSound (Event.sends c) rt s = enqueue-IsSound c rt s
  step-IsSound Event.polls rt s = poll-IsSound rt s
  step-IsSound (Event.answers res) rt s = answer-IsSound res rt s
  step-IsSound (Event.receives id) rt s = receive-IsSound id rt s
  step-IsSound (Event.gives_up id) rt s = record {
    bounded = s.bounded;
    matched = delete-Matched id rt.pending s.matched;
  }

  pub Reach-IsSound : {start rt : RuntimeNode F} → IsSound start → Reach start rt → IsSound rt
  Reach-IsSound s here = s
  Reach-IsSound s (next e before) = step-IsSound e _ (Reach-IsSound s before)

  -- What a call takes is what lay in its channel.
  receive-some :
      (id : Bytes) (rt : RuntimeNode F) (res : AgentResult)
      → (receive id rt).1 ≡ some res
      → find id rt.pending ≡ some (some res)
  unfolding receive
  receive-some id rt res h = elim (Option-cases (find id rt.pending)) [
    | inl nobody ↦ absurd (cc (rw (nobody, receive) at h))
    | inr (none, open_slot) ↦ absurd (cc (rw (open_slot, receive) at h))
    | inr (some r, taken) ↦ cc (rw (taken, receive) at h)
  ]

  -- In every state that a node with a sound state can reach, at most 16 commands wait, and a call
  -- that asks for its answer gets none, or gets one to its own request.
  pub Reach-own_answer :
      (start rt : RuntimeNode F) (id : Bytes)
      → IsSound start
      → Reach start rt
      → (length rt.commands ≤ 16)
        × (((receive id rt).1 ≡ none)
            ⊎ ((res : AgentResult) × ((receive id rt).1 ≡ some res) × (res.request_id ≡ id)))
  Reach-own_answer start rt id s way =
      let sound = Reach-IsSound s way in
      (
        sound.bounded,
        elim (Option-cases (receive id rt).1) [
          | inl nothing ↦ inl nothing
          | inr (res, got) ↦ inr (res, got, sound.matched id res (receive-some id rt res got))
        ],
      )
