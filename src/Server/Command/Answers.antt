-- ===== src/Server/Command/Answers.antt =====
-- server/main.go: the call of a command, from the queue to its answer.
use nodelume.Prelude.{
  ◌≡◌, refl, ap, ◌∙◌, sym, arith, Bool, true, false, not, List, [], ◌∷◌, none, some, Bytes, str_eq,
  str_eq_iff, str_eq_refl, length, ltb, Bool-cases, List-cases, Option-cases, inl, inr,
}
use nodelume.Prelude.Map.{find, find-insert, find-delete}
use nodelume.Server.State.{RuntimeNode, AgentCommand, AgentResult}
use nodelume.Server.Command.{enqueue, poll, answer, receive, give_up, command_capacity}
use nodelume.Server.Command.Events.{Event, step, run}

-- The events that neither begin nor end the call of an id.
abbrev pub is_foreign : Bytes → Event → Bool
is_foreign id (Event.sends c) = not (str_eq c.id id)
is_foreign id Event.polls = true
is_foreign id (Event.answers res) = true
is_foreign id (Event.receives j) = not (str_eq j id)
is_foreign id (Event.gives_up j) = not (str_eq j id)

-- Those that do not answer it either.
abbrev pub is_quiet : Bytes → Event → Bool
is_quiet id (Event.answers res) = not (str_eq res.request_id id)
is_quiet id e = is_foreign id e

abbrev pub AllPass : (Event → Bool) → List Event → Type 0
AllPass p [] = Unit
AllPass p (e ∷ es) = (p e ≡ true) × AllPass p es

module _ {F : Type 0} where
  enqueue-other :
      (id : Bytes) (c : AgentCommand) (rt : RuntimeNode F)
      → str_eq c.id id ≡ false
      → find id (enqueue c rt).0.pending ≡ find id rt.pending
  unfolding enqueue
  enqueue-other id c rt h = elim (Bool-cases (ltb (length rt.commands) command_capacity)) [
    | inl room ↦ rw (room, find-insert, h)
    | inr full ↦ rw (full, find-delete, h, find-insert, h)
  ]

  poll-pending : (rt : RuntimeNode F) → (poll rt).0.pending ≡ rt.pending
  unfolding poll
  poll-pending rt = elim (List-cases rt.commands) [
    | inl idle ↦ rw (idle, poll)
    | inr (c, rest, some_wait) ↦ rw (some_wait, poll)
  ]

  receive-other :
      (id j : Bytes) (rt : RuntimeNode F)
      → str_eq j id ≡ false
      → find id (receive j rt).0.pending ≡ find id rt.pending
  unfolding receive
  receive-other id j rt h = elim (Option-cases (find j rt.pending)) [
    | inl nobody ↦ rw (nobody, receive)
    | inr (none, open_slot) ↦ rw (open_slot, receive)
    | inr (some _, taken) ↦ rw (taken, receive, find-delete, h)
  ]

  answer-other :
      (id : Bytes) (res : AgentResult) (rt : RuntimeNode F)
      → str_eq res.request_id id ≡ false
      → find id (answer res rt).pending ≡ find id rt.pending
  unfolding answer
  answer-other id res rt h = elim (Option-cases (find res.request_id rt.pending)) [
    | inl nobody ↦ rw (nobody, answer)
    | inr (none, open_slot) ↦ rw (open_slot, answer, find-insert, h)
    | inr (some _, taken) ↦ rw (taken, answer)
  ]

  give_up-other :
      (id j : Bytes) (rt : RuntimeNode F)
      → str_eq j id ≡ false
      → find id (give_up j rt).pending ≡ find id rt.pending
  unfolding give_up
  give_up-other id j rt h = rw (find-delete, h)

  quiet-step :
      (id : Bytes) (e : Event) (rt : RuntimeNode F)
      → is_quiet id e ≡ true
      → find id (step e rt).pending ≡ find id rt.pending
  unfolding step
  quiet-step id (Event.sends c) rt h = enqueue-other id c rt (ground arith)
  quiet-step id Event.polls rt h = ap (find id) (poll-pending rt)
  quiet-step id (Event.answers res) rt h = answer-other id res rt (ground arith)
  quiet-step id (Event.receives j) rt h = receive-other id j rt (ground arith)
  quiet-step id (Event.gives_up j) rt h = give_up-other id j rt (ground arith)

  -- A channel that is full keeps its answer.
  answer-kept :
      (id : Bytes) (own : AgentResult) (res : AgentResult) (rt : RuntimeNode F)
      → find id rt.pending ≡ some (some own)
      → find id (answer res rt).pending ≡ some (some own)
  unfolding answer
  answer-kept id own res rt held = elim (Bool-cases (str_eq res.request_id id)) [
    | inr other ↦ answer-other id res rt other ∙ held
    | inl same ↦
        let full : find res.request_id rt.pending ≡ some (some own) =
          ap (λ j. find j rt.pending) ((str_eq_iff res.request_id id).0 same) ∙ held in
        rw (full, answer) held
  ]

  foreign-step :
      (id : Bytes) (own : AgentResult) (e : Event) (rt : RuntimeNode F)
      → is_foreign id e ≡ true
      → find id rt.pending ≡ some (some own)
      → find id (step e rt).pending ≡ some (some own)
  unfolding step
  foreign-step id own (Event.answers res) rt h held = answer-kept id own res rt held
  foreign-step id own (Event.sends c) rt h held = quiet-step id (Event.sends c) rt h ∙ held
  foreign-step id own Event.polls rt h held = quiet-step id Event.polls rt h ∙ held
  foreign-step id own (Event.receives j) rt h held = quiet-step id (Event.receives j) rt h ∙ held
  foreign-step id own (Event.gives_up j) rt h held = quiet-step id (Event.gives_up j) rt h ∙ held

  quiet-run :
      (id : Bytes) (es : List Event) (rt : RuntimeNode F)
      → AllPass (is_quiet id) es
      → find id (run es rt).pending ≡ find id rt.pending
  unfolding run
  quiet-run id [] rt _ = refl
  quiet-run id (e ∷ es) rt (h, hs) = quiet-run id es (step e rt) hs ∙ quiet-step id e rt h

  foreign-run :
      (id : Bytes) (own : AgentResult) (es : List Event) (rt : RuntimeNode F)
      → AllPass (is_foreign id) es
      → find id rt.pending ≡ some (some own)
      → find id (run es rt).pending ≡ some (some own)
  unfolding run
  foreign-run id own [] rt _ held = held
  foreign-run id own (e ∷ es) rt (h, hs) held =
      foreign-run id own es (step e rt) hs (foreign-step id own e rt h held)

  enqueue-open :
      (c : AgentCommand) (rt : RuntimeNode F)
      → (enqueue c rt).1 ≡ true
      → find c.id (enqueue c rt).0.pending ≡ some none
  unfolding enqueue
  enqueue-open c rt h = elim (Bool-cases (ltb (length rt.commands) command_capacity)) [
    | inl room ↦ rw (room, find-insert, str_eq_refl)
    | inr full ↦ absurd (cc (rw full at h))
  ]

  answer-open :
      (res : AgentResult) (rt : RuntimeNode F)
      → find res.request_id rt.pending ≡ some none
      → find res.request_id (answer res rt).pending ≡ some (some res)
  unfolding answer
  answer-open res rt h = rw (h, answer, find-insert, str_eq_refl)

  receive-full :
      (id : Bytes) (res : AgentResult) (rt : RuntimeNode F)
      → find id rt.pending ≡ some (some res)
      → (receive id rt).1 ≡ some res
  unfolding receive
  receive-full id res rt h = rw (h, receive)

  -- A command that was queued gets the first answer to it, whatever else happens before and after
  -- that answer, other answers to it included, until its call ends.
  pub run-answered :
      (c : AgentCommand) (res : AgentResult) (before after : List Event) (rt : RuntimeNode F)
      → (enqueue c rt).1 ≡ true
      → res.request_id ≡ c.id
      → AllPass (is_quiet c.id) before
      → AllPass (is_foreign c.id) after
      → (receive c.id (run after (answer res (run before (enqueue c rt).0)))).1 ≡ some res
  run-answered c res before after rt queued own quiet foreign =
      let rt1 = run before (enqueue c rt).0 in
      let opened = quiet-run c.id before (enqueue c rt).0 quiet ∙ enqueue-open c rt queued in
      let full =
        ap (λ j. find j (answer res rt1).pending) (sym own)
        ∙ answer-open res rt1 (ap (λ j. find j rt1.pending) own ∙ opened) in
      receive-full c.id res (run after (answer res rt1))
        (foreign-run c.id res after (answer res rt1) foreign full)
