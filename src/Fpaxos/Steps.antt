-- ===== src/Fpaxos/Steps.antt =====
-- fantoch_ps/src/protocol/fpaxos.rs: every handler keeps to the commands that the leader assigned to
-- slots.
use fantoch.Prelude.{
  ℕ, suc, ◌+◌, ◌≤◌, ◌≡◌, refl, ap, sym, ◌∙◌, subst, ◌⊎◌, inl, inr, Bool, true, Option, none, some,
  List, [], ◌∷◌, done, >>=-eq-done, ◌==◌, u64_partial_eq, leb, Bool-cases, Option-cases, All,
  All-map, add64_lem, word, arith,
}
use fantoch.Prelude.Maps.{Map, get, insert, get-insert}
use fantoch.Identifiers.{ProcessId, ShardId}
use fantoch.Commands.{Command, total_key_count}
use fantoch.Metrics.{command_key_count}
use fantoch.BaseProcess.{collect_metric, discover}
use fantoch.MultiSynod.{
  Slot, MultiSynod, MultiSynodMessage, Commander, Leader, chosen, accept, accepted, spawn, submit,
  try_submit, handle, handle_spawn_commander, handle_accept, handle_prepare,
}
use fantoch.MultiSynod
use fantoch.MultiSynod.Values.{AcceptedCase, SameValues, accepted_cases}
use fantoch.GcTrack.{EventSet, committed_slot}
use fantoch.SlotExecutor.{SlotExecutionInfo}
use fantoch.Protocol.{Action, to_send, to_forward}
use fantoch.Fpaxos.{
  Message, mforward_submit, mspawn_commander, maccept, maccepted, mchosen, mgarbage_collection,
  Fpaxos, PeriodicEvent, garbage_collection, push_action, handle_submit, handle_mspawn_commander,
  handle_maccept, handle_maccepted, handle_mchosen, handle_mgc, handle_event, handle_message,
  send_chosen, gc_running, discover_processes, pop_action, pop_info,
}

-- A message that binds a slot to a command agrees with what was assigned.
abbrev pub MessageAgrees : Map Slot Command → Message → Type 0
MessageAgrees log (mforward_submit cmd) = Unit
MessageAgrees log (mspawn_commander ballot slot cmd) = get slot log ≡ some cmd
MessageAgrees log (maccept ballot slot cmd) = get slot log ≡ some cmd
MessageAgrees log (maccepted ballot slot) = Unit
MessageAgrees log (mchosen slot cmd) = get slot log ≡ some cmd
MessageAgrees log (mgarbage_collection committed) = Unit

abbrev pub ActionAgrees : Map Slot Command → Action Message → Type 0
ActionAgrees log (to_send target message) = MessageAgrees log message
ActionAgrees log (to_forward message) = MessageAgrees log message

abbrev pub InfoAgrees : Map Slot Command → SlotExecutionInfo → Type 0
InfoAgrees log info = get info.slot log ≡ some info.cmd

abbrev pub Extends : Map Slot Command → Map Slot Command → Type 0
Extends log log' =
    (slot : Slot) (cmd : Command) → get slot log ≡ some cmd → get slot log' ≡ some cmd

pub MessageAgrees-Extends :
    (log log' : Map Slot Command) (message : Message)
    → Extends log log'
    → MessageAgrees log message
    → MessageAgrees log' message
MessageAgrees-Extends log log' (mforward_submit cmd) e h = tt
MessageAgrees-Extends log log' (mspawn_commander ballot slot cmd) e h = e slot cmd h
MessageAgrees-Extends log log' (maccept ballot slot cmd) e h = e slot cmd h
MessageAgrees-Extends log log' (maccepted ballot slot) e h = tt
MessageAgrees-Extends log log' (mchosen slot cmd) e h = e slot cmd h
MessageAgrees-Extends log log' (mgarbage_collection committed) e h = tt

ActionAgrees-Extends :
    (log log' : Map Slot Command) (action : Action Message)
    → Extends log log'
    → ActionAgrees log action
    → ActionAgrees log' action
ActionAgrees-Extends log log' (to_send target m) e h = MessageAgrees-Extends log log' m e h
ActionAgrees-Extends log log' (to_forward m) e h = MessageAgrees-Extends log log' m e h

spawned_commanders :
    (log : Map Slot Command) (f ballot slot : ℕ) (cmd : Command) (m : Map Slot (Commander Command))
    → ((i : Slot) (c : Commander Command) → get i m ≡ some c → get i log ≡ some c.value)
    → get slot log ≡ some cmd
    → (i : Slot) (c : Commander Command) → get i (insert slot (spawn f ballot cmd) m) ≡ some c
    → get i log ≡ some c.value
unfolding spawn
spawned_commanders log f ballot slot cmd m h there i c held = elim (Bool-cases (slot == i)) [
  | inl same ↦
      let here : slot ≡ i = ground arith in
      let new : some (spawn f ballot cmd) ≡ some c =
        ground (arith, held, same, get-insert slot i (spawn f ballot cmd) m) in
      let value : cmd ≡ c.value = ground (arith, new) in
      subst (λ j. get j log ≡ some c.value) here (there ∙ ap some value)
  | inr other ↦ h i c (ground (arith, held, other, get-insert slot i (spawn f ballot cmd) m))
]

get_first :
    (slot : Slot) (cmd : Command) (log : Map Slot Command) → get slot ((slot, cmd) ∷ log) ≡ some cmd
unfolding get
get_first slot cmd log = ground arith

pub Extends-fresh :
    (slot : Slot) (cmd : Command) (log : Map Slot Command)
    → get slot log ≡ none
    → Extends log ((slot, cmd) ∷ log)
unfolding get
Extends-fresh slot cmd log free i c held = elim (Bool-cases (slot == i)) [
  | inl same ↦
      let here : slot ≡ i = ground arith in
      let gone : get i log ≡ none = subst (λ j. get j log ≡ none) here free in
      absurd (ground (arith, gone, held))
  | inr other ↦ ground (arith, other, held)
]

value_agrees :
    (log : Map Slot Command) (before after : Map Slot (Commander Command))
    → ((i : Slot) (c : Commander Command) → get i before ≡ some c → get i log ≡ some c.value)
    → SameValues before after
    → (i : Slot) (c : Commander Command) → get i after ≡ some c
    → get i log ≡ some c.value
value_agrees log before after h values i c' held =
    let (c, found, same) = values i c' held in h i c found ∙ ap some (sym same)

-- The commanders, the pending actions and the pending execution infos of a process do too.
pub record Agrees {E : Type 0} (log : Map Slot Command) (p : Fpaxos E) : Type 0 where
  pub commanders :
      (slot : Slot) (c : Commander Command)
      → get slot p.multi_synod.commanders ≡ some c
      → get slot log ≡ some c.value
  pub actions : All (ActionAgrees log) p.to_processes
  pub infos : All (InfoAgrees log) p.to_executors

module _ {E : Type 0} where
  pub Agrees-Extends :
      (log log' : Map Slot Command) (p : Fpaxos E) → Extends log log' → Agrees log p → Agrees log' p
  Agrees-Extends log log' p e a = record {
    commanders = λ slot c held. e slot c.value (a.commanders slot c held);
    actions =
        All-map (ActionAgrees log) (ActionAgrees log')
          (λ action h. ActionAgrees-Extends log log' action e h) p.to_processes a.actions;
    infos =
        All-map (InfoAgrees log) (InfoAgrees log') (λ info h. e info.slot info.cmd h) p.to_executors
          a.infos;
  }

  -- A slot that nothing was assigned to.
  Agrees-fresh :
      (log : Map Slot Command) (slot : ℕ) (cmd : Command) (p : Fpaxos E)
      → get slot log ≡ none
      → Agrees log p
      → Agrees ((slot, cmd) ∷ log) p
  Agrees-fresh log slot cmd p free a =
      Agrees-Extends log ((slot, cmd) ∷ log) p (Extends-fresh slot cmd log free) a

  -- The leader state of the process did not change, and it still agrees.
  abbrev pub Kept : Map Slot Command → (p p' : Fpaxos E) → Type 0
  Kept log p p' = Agrees log p' × (p'.multi_synod.leader ≡ p.multi_synod.leader)

  -- The leader assigned its next slot to a command.
  abbrev pub Assigned : Map Slot Command → (p p' : Fpaxos E) → Command → Type 0
  Assigned log p p' cmd =
      (p.multi_synod.leader.is_leader ≡ true)
      × Agrees ((suc p.multi_synod.leader.last_slot, cmd) ∷ log) p'
      × (p'.multi_synod.leader
          ≡ record p.multi_synod.leader { last_slot = suc p.multi_synod.leader.last_slot })

  abbrev pub Progress : Map Slot Command → (p p' : Fpaxos E) → Type 0
  Progress log p p' = Kept log p p' ⊎ ((cmd : Command) × Assigned log p p' cmd)

  -- There is a next slot, and it is free if the process is the leader.
  abbrev pub HasRoom : Map Slot Command → Fpaxos E → Type 0
  HasRoom log p =
      (p.multi_synod.leader.last_slot + 3 ≤ word)
      × (p.multi_synod.leader.is_leader ≡ true
          → get (suc p.multi_synod.leader.last_slot) log ≡ none)

module _ {E : Type 0} ⦃set : EventSet E⦄ where
  handle_mspawn_commander-Kept :
      (log : Map Slot Command) (from : ProcessId) (ballot slot : ℕ) (cmd : Command)
      (p p' : Fpaxos E)
      → Agrees log p
      → get slot log ≡ some cmd
      → handle_mspawn_commander from ballot slot cmd p ≡ done p'
      → Kept log p p'
  unfolding handle_mspawn_commander handle handle_spawn_commander
  handle_mspawn_commander-Kept log from ballot slot cmd p p' a there h =
      elim (Bool-cases (from == p.bp.process_id)) [
        | inr other ↦ absurd (ground (arith, h, other))
        | inl mine ↦ elim (Option-cases (get slot p.multi_synod.commanders)) [
          | inr (c, held) ↦ absurd (ground (arith, h, mine, held))
          | inl free ↦ elim (Option-cases p.bp.write_quorum) [
            | inl unknown ↦ absurd (ground (arith, h, mine, free, unknown))
            | inr (target, known) ↦
                let spawned = record p.multi_synod {
                  commanders =
                      insert slot (spawn p.multi_synod.f ballot cmd) p.multi_synod.commanders;
                } in
                let same : push_action (to_send target (maccept ballot slot cmd))
                      (record p { multi_synod = spawned })
                    ≡ p' =
                  ground (arith, h, mine, free, known) in
                subst (Kept log p) same (
                  record {
                    commanders =
                        spawned_commanders log p.multi_synod.f ballot slot cmd
                          p.multi_synod.commanders a.commanders there;
                    actions = (there, a.actions);
                    infos = a.infos;
                  },
                  refl,
                )
          ]
        ]
      ]

  handle_maccept-Kept :
      (log : Map Slot Command) (from : ProcessId) (ballot slot : ℕ) (cmd : Command)
      (p p' : Fpaxos E)
      → Agrees log p
      → handle_maccept from ballot slot cmd p ≡ done p'
      → Kept log p p'
  unfolding handle_maccept handle handle_accept
  handle_maccept-Kept log from ballot slot cmd p p' a h =
      elim (Bool-cases (leb p.multi_synod.acceptor.ballot ballot)) [
        | inl joins ↦
            let after = record p.multi_synod {
              acceptor = (handle_accept ballot slot cmd p.multi_synod.acceptor).0;
            } in
            let same : push_action (to_send (from ∷ []) (maccepted ballot slot))
                  (record p { multi_synod = after })
                ≡ p' =
              ground (arith, h, joins) in
            subst (Kept log p) same (
              record { commanders = a.commanders; actions = (tt, a.actions); infos = a.infos },
              refl,
            )
        | inr late ↦
            let same : p ≡ p' = ground (arith, h, late) in subst (Kept log p) same (a, refl)
      ]

  send_chosen-Kept :
      (log : Map Slot Command) (slot : ℕ) (p p' : Fpaxos E) (s' : MultiSynod Command)
      (reply : Option (MultiSynodMessage Command))
      → Agrees log p
      → AcceptedCase slot p.multi_synod s' reply
      → send_chosen reply (record p { multi_synod = s' }) ≡ done p'
      → Kept log p p'
  unfolding send_chosen
  send_chosen-Kept log slot p p' s' reply a (AcceptedCase.silent leader values out) h =
      let same : record p { multi_synod = s' } ≡ p' = ground (arith, h, out) in
      subst (Kept log p) same (
        record {
          commanders = λ i c' held.
              value_agrees log p.multi_synod.commanders s'.commanders a.commanders values i c' held;
          actions = a.actions;
          infos = a.infos;
        },
        leader,
      )
  send_chosen-Kept log slot p p' s' reply a (AcceptedCase.announced c leader values held out) h =
      elim (Option-cases p.bp.all) [
        | inl unknown ↦ absurd (ground (arith, h, out, unknown))
        | inr (target, known) ↦
            let same : push_action (to_send target (mchosen slot c.value))
                  (record p { multi_synod = s' })
                ≡ p' =
              ground (arith, h, out, known) in
            subst (Kept log p) same (
              record {
                commanders = λ i c' held'.
                    value_agrees log p.multi_synod.commanders s'.commanders a.commanders values i c'
                      held';
                actions = (a.commanders slot c held, a.actions);
                infos = a.infos;
              },
              leader,
            )
      ]

  handle_maccepted-Kept :
      (log : Map Slot Command) (from : ProcessId) (ballot slot : ℕ) (p p' : Fpaxos E)
      → Agrees log p
      → handle_maccepted from ballot slot p ≡ done p'
      → Kept log p p'
  unfolding handle_maccepted handle
  handle_maccepted-Kept log from ballot slot p p' a h =
      let (r, e, k) =
        >>=-eq-done (MultiSynod.handle_maccepted from ballot slot p.multi_synod) _ h in
      send_chosen-Kept log slot p p' r.0 r.1 a
        (accepted_cases from ballot slot p.multi_synod r.0 r.1 e) k

  handle_mchosen-Kept :
      (log : Map Slot Command) (slot : ℕ) (cmd : Command) (p : Fpaxos E)
      → Agrees log p
      → get slot log ≡ some cmd
      → Kept log p (handle_mchosen slot cmd p)
  unfolding handle_mchosen
  handle_mchosen-Kept log slot cmd p a there = elim (Bool-cases (gc_running p)) [
    | inl runs ↦
        rw runs (
          record { commanders = a.commanders; actions = a.actions; infos = (there, a.infos) },
          refl,
        )
    | inr off ↦
        rw off (
          record { commanders = a.commanders; actions = a.actions; infos = (there, a.infos) },
          refl,
        )
  ]

  handle_mgc-Kept :
      (log : Map Slot Command) (from : ProcessId) (committed : ℕ) (p : Fpaxos E)
      → Agrees log p
      → Kept log p (handle_mgc from committed p)
  unfolding handle_mgc
  handle_mgc-Kept log from committed p a =
      (record { commanders = a.commanders; actions = a.actions; infos = a.infos }, refl)

  pub handle_event-Kept :
      (log : Map Slot Command) (event : PeriodicEvent) (p p' : Fpaxos E)
      → Agrees log p
      → handle_event event p ≡ done p'
      → Kept log p p'
  unfolding handle_event
  handle_event-Kept log garbage_collection p p' a h = elim (Option-cases p.bp.all_but_me) [
    | inl unknown ↦ absurd (ground (arith, h, unknown))
    | inr (target, known) ↦
        let same : push_action (to_send target (mgarbage_collection (committed_slot p.gc_track))) p
            ≡ p' =
          ground (arith, h, known) in
        subst (Kept log p) same
          (record { commanders = a.commanders; actions = (tt, a.actions); infos = a.infos }, refl)
  ]

  pub discover_processes-Kept :
      (log : Map Slot Command) (processes : List (ProcessId × ShardId)) (p p' : Fpaxos E)
      (ok : Bool)
      → Agrees log p
      → discover_processes processes p ≡ done (p', ok)
      → Kept log p p'
  unfolding discover_processes
  discover_processes-Kept log processes p p' ok a h =
      let (found, e, k) = >>=-eq-done (discover processes p.bp) _ h in
      let same : record p { bp = found.0 } ≡ p' = ground (arith, k) in
      subst (Kept log p) same
        (record { commanders = a.commanders; actions = a.actions; infos = a.infos }, refl)

  pub handle_submit-Progress :
      (log : Map Slot Command) (cmd : Command) (p p' : Fpaxos E)
      → Agrees log p
      → HasRoom log p
      → handle_submit cmd p ≡ done p'
      → Progress log p p'
  unfolding handle_submit submit try_submit
  handle_submit-Progress log cmd p p' a room h = elim (Bool-cases p.multi_synod.leader.is_leader) [
    | inl leads ↦
        let slot = suc p.multi_synod.leader.last_slot in
        let next = add64_lem p.multi_synod.leader.last_slot 1 (omega (arith, room.0)) in
        let log' = (slot, cmd) ∷ log in
        let wider = Agrees-fresh log slot cmd p (room.1 leads) a in
        let synod = record p.multi_synod {
          leader = record p.multi_synod.leader { last_slot = slot };
        } in
        let same : push_action (to_forward (mspawn_commander p.multi_synod.leader.ballot slot cmd))
              (record p {
                multi_synod = synod;
                bp = collect_metric command_key_count (total_key_count cmd) p.bp;
              })
            ≡ p' =
          ground (arith, h, leads, next) in
        inr (
          cmd,
          (
            leads,
            subst (Agrees log') same (record {
              commanders = wider.commanders;
              actions = (get_first slot cmd log, wider.actions);
              infos = wider.infos;
            }),
            ap (λ (x : Fpaxos E). x.multi_synod.leader) (sym same),
          ),
        )
    | inr follows ↦
        let same : push_action (to_send (p.leader ∷ []) (mforward_submit cmd)) p ≡ p' =
          ground (arith, h, follows) in
        inl (
          subst (Kept log p) same (
            record { commanders = a.commanders; actions = (tt, a.actions); infos = a.infos },
            refl,
          ))
  ]

  pub handle_message-Progress :
      (log : Map Slot Command) (from : ProcessId) (message : Message) (p p' : Fpaxos E)
      → Agrees log p
      → HasRoom log p
      → MessageAgrees log message
      → handle_message from message p ≡ done p'
      → Progress log p p'
  unfolding handle_message
  handle_message-Progress log from (mforward_submit cmd) p p' a room m h =
      handle_submit-Progress log cmd p p' a room h
  handle_message-Progress log from (mspawn_commander ballot slot cmd) p p' a room m h =
      inl (handle_mspawn_commander-Kept log from ballot slot cmd p p' a m h)
  handle_message-Progress log from (maccept ballot slot cmd) p p' a room m h =
      inl (handle_maccept-Kept log from ballot slot cmd p p' a h)
  handle_message-Progress log from (maccepted ballot slot) p p' a room m h =
      inl (handle_maccepted-Kept log from ballot slot p p' a h)
  handle_message-Progress log from (mchosen slot cmd) p p' a room m h =
      let same : handle_mchosen slot cmd p ≡ p' = ground (arith, h) in
      inl (subst (Kept log p) same (handle_mchosen-Kept log slot cmd p a m))
  handle_message-Progress log from (mgarbage_collection committed) p p' a room m h =
      let same : handle_mgc from committed p ≡ p' = ground (arith, h) in
      inl (subst (Kept log p) same (handle_mgc-Kept log from committed p a))

  pub pop_action-Agrees :
      (log : Map Slot Command) (p p' : Fpaxos E) (action : Action Message)
      → Agrees log p
      → pop_action p ≡ (p', some action)
      → ActionAgrees log action × Kept log p p'
  unfolding pop_action
  pop_action-Agrees log p p' action a h = popped p.to_processes refl a.actions
    where
      popped :
          (actions : List (Action Message))
          → p.to_processes ≡ actions
          → All (ActionAgrees log) actions
          → ActionAgrees log action × Kept log p p'
      popped [] e agrees = absurd (ground (arith, h, e))
      popped (first ∷ rest) e agrees =
          let same : record p { to_processes = rest } ≡ p' = ground (arith, h, e) in
          let equal : first ≡ action = ground (arith, h, e) in
          (
            subst (ActionAgrees log) equal agrees.0,
            subst (Kept log p) same
                (record { commanders = a.commanders; actions = agrees.1; infos = a.infos }, refl),
          )

  pub pop_info-Agrees :
      (log : Map Slot Command) (p p' : Fpaxos E) (info : SlotExecutionInfo)
      → Agrees log p
      → pop_info p ≡ (p', some info)
      → InfoAgrees log info × Kept log p p'
  unfolding pop_info
  pop_info-Agrees log p p' info a h = popped p.to_executors refl a.infos
    where
      popped :
          (infos : List SlotExecutionInfo)
          → p.to_executors ≡ infos
          → All (InfoAgrees log) infos
          → InfoAgrees log info × Kept log p p'
      popped [] e agrees = absurd (ground (arith, h, e))
      popped (first ∷ rest) e agrees =
          let same : record p { to_executors = rest } ≡ p' = ground (arith, h, e) in
          let equal : first ≡ info = ground (arith, h, e) in
          (
            subst (InfoAgrees log) equal agrees.0,
            subst (Kept log p) same
                (record { commanders = a.commanders; actions = a.actions; infos = agrees.1 }, refl),
          )
