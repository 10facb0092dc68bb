-- ===== src/Server/Command/Order.antt =====
-- server/main.go: the queue of a node against a list of commands.
use nodelume.Prelude.{
  ℕ, ◌≡◌, ap, ◌∙◌, sym, arith, List, [], ◌∷◌, ◌++◌, append_assoc, append-nil, Option, none, some,
  length, ltb, if◌then◌else◌, Bool-cases, List-cases, inl, inr,
}
use nodelume.Server.State.{RuntimeNode, AgentCommand, AgentResult}
use nodelume.Server.Command.{enqueue, poll, answer, receive, give_up, command_capacity}
use nodelume.Server.Command.Events.{Event, step, run}

abbrev list_of : Option AgentCommand → List AgentCommand
list_of none = []
list_of (some c) = c ∷ []

module _ {F : Type 0} where
  -- The commands that an event puts into the queue, and those that it hands to the agent.
  abbrev pub accepts : Event → RuntimeNode F → List AgentCommand
  accepts (Event.sends c) rt = if (enqueue c rt).1 then c ∷ [] else []
  accepts _ rt = []

  abbrev pub hands : Event → RuntimeNode F → List AgentCommand
  hands Event.polls rt = list_of (poll rt).1
  hands _ rt = []

  unfoldable pub accepted : List Event → RuntimeNode F → List AgentCommand
  accepted [] rt = []
  accepted (e ∷ es) rt = accepts e rt ++ accepted es (step e rt)

  unfoldable pub handed : List Event → RuntimeNode F → List AgentCommand
  handed [] rt = []
  handed (e ∷ es) rt = hands e rt ++ handed es (step e rt)

  enqueue-commands :
      (c : AgentCommand) (rt : RuntimeNode F)
      → (enqueue c rt).0.commands ≡ rt.commands ++ (if (enqueue c rt).1 then c ∷ [] else [])
  unfolding enqueue
  enqueue-commands c rt = elim (Bool-cases (ltb (length rt.commands) command_capacity)) [
    | inl room ↦ rw room
    | inr full ↦ rw (full, append-nil)
  ]

  poll-commands : (rt : RuntimeNode F) → rt.commands ≡ list_of (poll rt).1 ++ (poll rt).0.commands
  unfolding poll
  poll-commands rt = elim (List-cases rt.commands) [
    | inl idle ↦ rw (idle, poll) (sym idle)
    | inr (c, rest, some_wait) ↦ rw (some_wait, poll)
  ]

  answer-commands :
      (res : AgentResult) (rt : RuntimeNode F) → (answer res rt).commands ≡ rt.commands
  unfolding answer
  answer-commands res rt = ground arith

  receive-commands : (id : List ℕ) (rt : RuntimeNode F) → (receive id rt).0.commands ≡ rt.commands
  unfolding receive
  receive-commands id rt = ground arith

  -- One event.
  step-commands :
      (e : Event) (rt : RuntimeNode F)
      → rt.commands ++ accepts e rt ≡ hands e rt ++ (step e rt).commands
  unfolding step give_up
  step-commands (Event.sends c) rt = sym (enqueue-commands c rt)
  step-commands Event.polls rt = append-nil rt.commands ∙ poll-commands rt
  step-commands (Event.answers res) rt = append-nil rt.commands ∙ sym (answer-commands res rt)
  step-commands (Event.receives id) rt = append-nil rt.commands ∙ sym (receive-commands id rt)
  step-commands (Event.gives_up id) rt = append-nil rt.commands

  -- Whatever happens, in whatever order: the commands that were waiting and those that were
  -- accepted since are, in this order, the commands that the agent was handed and those that still
  -- wait; no command is lost, repeated or overtaken.
  pub run-commands :
      (es : List Event) (rt : RuntimeNode F)
      → rt.commands ++ accepted es rt ≡ handed es rt ++ (run es rt).commands
  unfolding accepted handed run
  run-commands [] rt = append-nil rt.commands
  run-commands (e ∷ es) rt =
      sym (append_assoc rt.commands (accepts e rt) (accepted es (step e rt)))
      ∙ ap (λ l. l ++ accepted es (step e rt)) (step-commands e rt)
      ∙ append_assoc (hands e rt) (step e rt).commands (accepted es (step e rt))
      ∙ ap (λ l. hands e rt ++ l) (run-commands es (step e rt))
      ∙ sym (append_assoc (hands e rt) (handed es (step e rt)) (run es (step e rt)).commands)
