-- ===== src/Server/Nodes/Edit/Applied.antt =====
-- What an accepted edit of a node leaves, and when it says that the interval is applied.
use nodelume.Prelude.{
  ◌∷◌, [], any, ℕ, ◌≡◌, refl, ap, ◌∙◌, sym, arith, Bool, true, false, not, ◌&&◌, ◌||◌, List, Option,
  none, some, Bytes, text, str_eq, is_empty, length, ltb, if◌then◌else◌, if_either, option_either,
  Bool-cases, Option-cases, inl, inr,
}
use nodelume.Prelude.Map.{find, insert, find-insert}
use nodelume.Server.State.{App, PersistNode, AgentCommand, AgentResult, Reply, audit_locked}
use nodelume.Server.Online.{node_is_online}
use nodelume.Server.Command.{Started, send_command}
use nodelume.Server.Nodes.{pos, trim_space, ℤ, Context, no_node}
use nodelume.Server.Nodes.Edit.{
  int_eq, reported_interval, EditInput, trimmed_edit, allowed_interval, edited_node,
  interval_command, answered_ok, edit_outcome, save_edit, in_force, is_told, apply_edit, edit_node,
}

abbrev reply_value : Reply Bool → Bool
reply_value (Reply.ok _ v) = v
reply_value _ = false

-- The node of an edit, by what was given: the texts are trimmed, an interval of 0 stands for 2, and
-- all else is as it was.
pub record Edited (given : EditInput) (old new : PersistNode) : Type 0 where
  pub name : new.name ≡ trim_space given.name
  pub group : new.group ≡ trim_space given.group
  pub note : new.note ≡ trim_space given.note
  pub interval :
      new.report_interval_sec ≡ (if int_eq given.interval (pos 0) then pos 2 else given.interval)
  pub kept : new ≡ (record old {
    name = new.name;
    group = new.group;
    note = new.note;
    report_interval_sec = new.report_interval_sec;
  })

-- The intervals that are on offer.
abbrev pub is_offered : ℤ → Bool
is_offered n = any (int_eq n) (pos 2 ∷ pos 5 ∷ pos 10 ∷ pos 30 ∷ pos 60 ∷ [])

edited_node-Edited :
    (given : EditInput) (old : PersistNode)
    → Edited given old (edited_node (trimmed_edit given) old)
unfolding edited_node trimmed_edit
edited_node-Edited given old = record {
  name = refl;
  group = refl;
  note = refl;
  interval = refl;
  kept = refl;
}

any_of_five :
    (p q r s t : Bool)
    → (p || q || r || s || t) ≡ (
        if p
        then true
        else if q
        then true
        else if r
        then true
        else if s
        then true
        else if t
        then true
        else false)
any_of_five p q r s t = ground arith

-- A node that has not heard the interval is told it, so the conditions of the code are fewer.
said_lem :
    (registered heard online stale ok : Bool)
    → ((not registered || heard)
        || ((registered && online && (stale || not (not registered || heard))) && ok))
      ≡ (not registered || heard || (online && ok))
said_lem registered heard online stale ok = ground arith

module _ {F : Type 0} where
  abbrev sent_nodes : App F × Started → List (Bytes × PersistNode)
  sent_nodes w = w.0.state.nodes

  send_command-nodes :
      (node action : Bytes) (cmd : AgentCommand) (id : Bytes) (now : ℕ) (a : App F)
      → (send_command node action cmd id now a).0.state.nodes ≡ a.state.nodes
  unfolding send_command
  send_command-nodes node action cmd id now a =
      option_either sent_nodes (find node a.runtime) _ _ a.state.nodes refl (λ rt at.
        if_either sent_nodes (node_is_online now (find node a.state.nodes) (find node a.runtime)) _
          _ a.state.nodes refl refl)

  edit_outcome-ok :
      (saved told known : Bool) (a : App F) (sent : App F × Started) (outcome : Option AgentResult)
      (status : ℕ) (applied : Bool) (m : List (Bytes × PersistNode))
      → (edit_outcome saved told known a sent outcome).1 ≡ Reply.ok status applied
      → a.state.nodes ≡ m
      → sent.0.state.nodes ≡ m
      → (applied ≡ known || (told && answered_ok sent.1 outcome))
        × ((edit_outcome saved told known a sent outcome).0.state.nodes ≡ m)
  edit_outcome-ok false told known a sent outcome status applied m h own after = absurd (cc (h))
  edit_outcome-ok true true known a sent outcome status applied m h own after =
      (sym (ap reply_value h), after)
  edit_outcome-ok true false known a sent outcome status applied m h own after =
      (sym (ap reply_value h) ∙ ground arith, own)

  module _ (id : Bytes) (given : EditInput) (c : Context) (cmd_id : Bytes)
      (outcome : Option AgentResult) (a : App F) where
    abbrev input : EditInput
    input = trimmed_edit given

    -- The command of an edit, once the node is saved.
    abbrev pub told : PersistNode → App F × Started
    told n =
        send_command id (text "set_report_interval") (interval_command input.interval) cmd_id c.now
          (save_edit id input n c a)

    save_edit-nodes :
        (n : PersistNode)
        → (save_edit id input n c a).state.nodes ≡ insert id (edited_node input n) a.state.nodes
    unfolding save_edit audit_locked
    save_edit-nodes n = refl

    told-nodes :
        (n : PersistNode) → (told n).0.state.nodes ≡ insert id (edited_node input n) a.state.nodes
    told-nodes n =
        send_command-nodes id (text "set_report_interval") (interval_command input.interval) cmd_id
          c.now (save_edit id input n c a)
        ∙ save_edit-nodes n

    abbrev known : PersistNode → Bool
    known n = in_force id input n a

    abbrev tells : PersistNode → Bool
    tells n = is_told id input n c.now a

    apply_edit-ok :
        (n : PersistNode) (status : ℕ) (applied : Bool)
        → (apply_edit id input n c cmd_id outcome a).1 ≡ Reply.ok status applied
        → (applied ≡ (known n || (tells n && answered_ok (told n).1 outcome)))
          × ((apply_edit id input n c cmd_id outcome a).0.state.nodes
              ≡ insert id (edited_node input n) a.state.nodes)
    unfolding apply_edit
    apply_edit-ok n status applied h =
        edit_outcome-ok c.saved (tells n) (known n) (save_edit id input n c a) (told n) outcome
          status applied (insert id (edited_node input n) a.state.nodes) h (save_edit-nodes n)
          (told-nodes n)

    abbrev malformed : Bool
    malformed =
        is_empty input.name
        || ltb 80 (length input.name)
        || ltb 64 (length input.group)
        || ltb 300 (length input.note)

    abbrev found : Option PersistNode → App F × Reply Bool
    found none = (a, no_node)
    found (some n) = apply_edit id input n c cmd_id outcome a

    abbrev ranged : Bool → App F × Reply Bool
    ranged allowed =
        if not allowed
        then (a, Reply.error (text "不支持的上报频率") 400)
        else found (find id a.state.nodes)

    edit_node-ranged :
        malformed ≡ false
        → edit_node id (some given) c cmd_id outcome a ≡ ranged (allowed_interval input.interval)
    unfolding edit_node
    edit_node-ranged h =
        ap
          (λ b.
            if b
            then (a, Reply.error (text "节点信息格式无效") 400)
            else ranged (allowed_interval input.interval))
          h

    edit_node-malformed :
        malformed ≡ true
        → (edit_node id (some given) c cmd_id outcome a).1 ≡ Reply.error (text "节点信息格式无效") 400
    unfolding edit_node
    edit_node-malformed h =
        ap
          (λ b.
            (if b
              then (a, Reply.error (text "节点信息格式无效") 400)
              else ranged (allowed_interval input.interval)).1)
          h

    -- The `applied` of the reply, for a node as it was and as it is: it was not registered, or its
    -- last heartbeat had the new interval, or it is online and the command was answered with success.
    abbrev pub says_applied : PersistNode → PersistNode → Bool
    says_applied old new =
        not old.registered
        || int_eq (reported_interval (find id a.runtime)) new.report_interval_sec
        || (node_is_online c.now (some old) (find id a.runtime) && answered_ok (told old).1 outcome)

    offered :
        (n : PersistNode)
        → allowed_interval input.interval ≡ true
        → is_offered (edited_node input n).report_interval_sec ≡ true
    unfolding allowed_interval edited_node
    offered n allowed =
        sym (
          any_of_five (int_eq input.interval (pos 2)) (int_eq input.interval (pos 5))
            (int_eq input.interval (pos 10)) (int_eq input.interval (pos 30))
            (int_eq input.interval (pos 60)))
        ∙ allowed

    said-says_applied :
        (n : PersistNode)
        → (known n || (tells n && answered_ok (told n).1 outcome))
          ≡ says_applied n (edited_node input n)
    unfolding in_force is_told edited_node
    said-says_applied n =
        said_lem n.registered (int_eq (reported_interval (find id a.runtime)) input.interval)
          (node_is_online c.now (some n) (find id a.runtime))
          (not (int_eq n.report_interval_sec input.interval)) (answered_ok (told n).1 outcome)

    -- An edit that is answered with success had a node, and an interval of 2, 5, 10, 30 or 60 seconds,
    -- or 0, which stands for 2. The node then has the trimmed name, group and note of the input and
    -- that interval, and is as it was in all else; every other node stays as it was. The interval is
    -- called applied exactly where the node was not registered, or its last heartbeat had that
    -- interval, or it is online and the command was answered with success.
    pub edit_node-saved :
        (j : Bytes) (status : ℕ) (applied : Bool)
        → (edit_node id (some given) c cmd_id outcome a).1 ≡ Reply.ok status applied
        → (n n' : PersistNode) × (find id a.state.nodes ≡ some n)
          × (Edited given n n')
          × (is_offered n'.report_interval_sec ≡ true)
          × (find j (edit_node id (some given) c cmd_id outcome a).0.state.nodes
              ≡ (if str_eq id j then some n' else find j a.state.nodes))
          × (applied ≡ says_applied n n')
    edit_node-saved j status applied h = elim (Bool-cases malformed) [
      | inl bad ↦ absurd (cc (sym (edit_node-malformed bad) ∙ h))
      | inr fine ↦
          let first = edit_node-ranged fine in
          elim (Bool-cases (allowed_interval input.interval)) [
            | inr never ↦
                absurd (cc (ap (λ b. (ranged b).1) (sym never) ∙ ap (λ w. w.1) (sym first) ∙ h))
            | inl allowed ↦ elim (Option-cases (find id a.state.nodes)) [
              | inl gone ↦ absurd (
                  cc (
                    ap (λ o. (found o).1) (sym gone)
                    ∙ ap (λ b. (ranged b).1) (sym allowed)
                    ∙ ap (λ w. w.1) (sym first)
                    ∙ h))
              | inr (n, there) ↦
                  let whole = first ∙ ap ranged allowed ∙ ap found there in
                  let (said, nodes) =
                    apply_edit-ok n status applied (ap (λ w. w.1) (sym whole) ∙ h) in
                  (
                    n,
                    edited_node input n,
                    there,
                    edited_node-Edited given n,
                    offered n allowed,
                    ap (λ w. find j w.0.state.nodes) whole
                        ∙ ap (find j) nodes
                        ∙ find-insert j id (edited_node input n) a.state.nodes,
                    said ∙ said-says_applied n,
                  )
            ]
          ]
    ]
