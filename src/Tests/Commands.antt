-- ===== src/Tests/Commands.antt =====
-- The command channel of a node.
use nodelume.Prelude.{
  ◌⊎◌, str_eq, ℕ, ◌≤◌, ◌≡◌, refl, arith, true, List, [], ◌∷◌, ◌++◌, none, some, Bytes, text, length,
}
use nodelume.Text.{scan_digits, parse_uint, parse_int}
use nodelume.Prelude.Int.{pos}
use nodelume.Prelude.Map.{find, insert, delete}
use nodelume.Ring.{new_ring}
use nodelume.Server.State.{RuntimeNode, AgentCommand, AgentResult}
use nodelume.Server.Command.{prepare, enqueue, poll, answer, receive, give_up, wait_seconds}
use nodelume.Server.Command.Events.{Event, step, run, Reach, IsSound, Reach-own_answer}
use nodelume.Server.Command.Order.{accepted, handed, run-commands}
use nodelume.Server.Command.Answers.{run-answered}
use nodelume.Tests.Data.{blank}

program : Unit {0}
unfolding text str_eq scan_digits parse_uint parse_int find insert delete prepare enqueue poll
    answer receive give_up wait_seconds step run accepted handed
program = tt

abbrev idle : RuntimeNode ℕ
idle = record {
  last_seen = none;
  latest = none;
  history = new_ring blank 3;
  last_history = none;
  commands = [];
  pending = [];
}

abbrev command : Bytes → AgentCommand
command id = record {
  protocol = 1;
  id = id;
  action = text "process_info";
  timestamp = 7;
  pid = pos 9;
  version = [];
  restart_id = [];
  unit = [];
  interval = pos 0;
}

abbrev result : Bytes → AgentResult
result id = record { request_id = id; action = []; ok = true; error = []; content = [] }

abbrev story : List Event
story =
    Event.sends (command (text "x"))
    ∷ Event.sends (command (text "y"))
    ∷ Event.polls
    ∷ Event.answers (result (text "x"))
    ∷ Event.gives_up (text "y")
    ∷ Event.answers (result (text "y"))
    ∷ []

told :
    ((receive (text "x") (run story idle)).1 ≡ some (result (text "x")))
    × ((receive (text "y") (run story idle)).1 ≡ none)
    × (handed story idle ≡ command (text "x") ∷ [])
    × (wait_seconds (text "7") ≡ pos 7)
    × (wait_seconds (text "31") ≡ pos 25)
unfolding program
told = (refl, refl, refl, refl, refl)

run-commands_example :
    idle.commands ++ accepted story idle ≡ handed story idle ++ (run story idle).commands
run-commands_example = run-commands story idle

abbrev asked : RuntimeNode ℕ
asked = step (Event.answers (result (text "x"))) (step (Event.sends (command (text "x"))) idle)

idle-IsSound : IsSound idle
unfolding program
idle-IsSound = record { bounded = omega arith; matched = λ id res h. absurd (cc (h)) }

Reach-own_answer_example :
    (length asked.commands ≤ 16)
    × (((receive (text "x") asked).1 ≡ none)
        ⊎ ((res : AgentResult) × ((receive (text "x") asked).1 ≡ some res)
            × (res.request_id ≡ text "x")))
Reach-own_answer_example = Reach-own_answer idle asked (text "x") idle-IsSound (
    Reach.next (Event.answers (result (text "x")))
      (Reach.next (Event.sends (command (text "x"))) Reach.here))

abbrev between : List Event
between = Event.polls ∷ []

abbrev behind : List Event
behind = Event.answers (result (text "x")) ∷ []

queued : (enqueue (command (text "x")) idle).1 ≡ true
unfolding program
queued = refl

run-answered_example :
    (receive (text "x") (
      run behind
        (answer (result (text "x")) (run between (enqueue (command (text "x")) idle).0)))).1
    ≡ some (result (text "x"))
run-answered_example =
    run-answered (command (text "x")) (result (text "x")) between behind idle queued refl (refl, tt)
      (refl, tt)
