-- ===== src/TableExecutor/Composition.antt =====
-- fantoch_ps/src/executor/table/executor.rs: the executor over its votes tables. The commands on each
-- key run in the order of their clocks and dots.
use fantoch.Prelude.{
  ℕ, ◌≤◌, ◌≡◌, refl, ap, sym, ◌∙◌, subst, Bool, false, List, [], ◌∷◌, ◌++◌, Outcome, done, panic,
  ◌>>=◌, >>=-eq-done, inl, inr, if◌then◌else◌, Bool-cases, ◌==◌, string_partial_eq, All, arith,
}
use fantoch.Prelude.Maps.{Map, get, insert, get-insert, values}
use fantoch.Identifiers.{ProcessId, ShardId, Dot, Rifl, process_ids}
use fantoch.Votes.{VoteRange}
use fantoch.Config.{Config, tempo_quorum_sizes}
use fantoch.Kvs.{Key, KvOp, KvStore}
use fantoch.Kvs
use fantoch.VotesTable.{
  RangeClock, Pending, Ops, new_pending, VotesTable, new_table, MultiVotesTable, table_at,
  update_table, attach_at, detach_at, stable_ops,
}
use fantoch.VotesTable.Sorting.{IsSorted}
use fantoch.VotesTable.Order.{
  Event, attached, detached, ClockLaws, IsFeed, add_event, run_events, attached_ops,
  run_events_in_order, values-append,
}
use fantoch.TableExecutor.{
  PendingPerKey, TableExecutionInfo, attached_votes, detached_votes, stable_at_shard, TableExecutor,
  new, pending_at, handle, execute_now, send_stable_or_execute,
}
use fantoch.TableExecutor.Queues.{
  commands, commands-append, arriving, IsFixed, Request, ready, stable, serve, queue, effects,
  serve-ServedBy,
}
use fantoch.TableExecutor.Order.{
  Entry, CommandList, tagged, at_key, run_entries, serve-queue, in_turn, at_key-append, entries_nil,
  entries_assoc, at_key-tagged, at_key-tagged_other, run_entries-append, run_entries-tagged,
}

done_inj {ℓ} : {A : Type ℓ} (a b : A) → done a ≡ done b → a ≡ b
done_inj a b h = cc

-- The events that a message brings to the table of a key.
unfoldable pub events_of : Key → ShardId → TableExecutionInfo → List Event
unfolding new_pending
events_of key shard_id (attached_votes dot clock at rifl shard_to_keys ops votes) =
    elim (new_pending shard_id rifl shard_to_keys ops) [
      | panic ↦ []
      | done pending ↦ if at == key then attached dot clock pending votes ∷ [] else []
    ]
events_of key shard_id (detached_votes at votes) = if at == key then detached votes ∷ [] else []
events_of key shard_id (stable_at_shard at rifl) = []

unfoldable pub events_at : Key → ShardId → List TableExecutionInfo → List Event
unfolding events_of
events_at key shard_id [] = []
events_at key shard_id (info ∷ infos) = events_of key shard_id info ++ events_at key shard_id infos

-- A command names the shard of the executor.
abbrev pub IsForShard : ShardId → TableExecutionInfo → Type 0
IsForShard shard_id (attached_votes dot clock at rifl shard_to_keys ops votes) =
    (pending : Pending) × (new_pending shard_id rifl shard_to_keys ops ≡ done pending)
IsForShard shard_id (detached_votes at votes) = Unit
IsForShard shard_id (stable_at_shard at rifl) = Unit

-- The queue and the table of a key together.
in_table :
    (ran queued : CommandList) (returned ops ops' all : Ops)
    → ran ++ queued ≡ commands (values returned)
    → ops' ≡ ops
    → returned ++ ops ≡ all
    → ran ++ (queued ++ commands (values ops')) ≡ commands (values all)
in_table ran queued returned ops ops' all out same parts =
    sym (entries_assoc ran queued (commands (values ops')))
    ∙ ap (λ (cs : CommandList). cs ++ commands (values ops')) out
    ∙ ap (λ (o : Ops). commands (values returned) ++ commands (values o)) same
    ∙ sym (commands-append (values returned) (values ops))
    ∙ ap commands (sym (values-append returned ops))
    ∙ ap (λ (o : Ops). commands (values o)) parts

-- What the first event returned, and what the others did, on any key.
arrived_at :
    (at key : Key) (now after : List Pending) (outs : Key → List Pending)
    → now ++ after ≡ outs at
    → at_key key (tagged at (commands now)) ++ commands (if at == key then after else outs key)
      ≡ commands (outs key)
arrived_at at key now after outs split = elim (Bool-cases (at == key)) [
  | inl same ↦
      ap
        (λ (b : Bool).
          at_key key (tagged at (commands now)) ++ commands (if b then after else outs key))
        same
      ∙ subst (λ k. at_key k (tagged at (commands now)) ++ commands after ≡ commands (outs k))
          ((string_partial_eq.equal_iff at key).0 same)
          (ap (λ (cs : CommandList). cs ++ commands after) (at_key-tagged at (commands now))
            ∙ sym (commands-append now after)
            ∙ ap commands split)
  | inr differs ↦
      ap
        (λ (b : Bool).
          at_key key (tagged at (commands now)) ++ commands (if b then after else outs key))
        differs
      ∙ ap (λ (cs : CommandList). cs ++ commands (outs key))
          (at_key-tagged_other at key (commands now) differs)
]

-- A new executor.
module _ (C : Type 0) where
  new-shard :
      (p : ProcessId) (s : ShardId) (config : Config) → (new {C = C} p s config).shard_id ≡ s
  unfolding new
  new-shard p s config = refl

  new-waits :
      (p : ProcessId) (s : ShardId) (config : Config)
      → config.execute_at_commit ≡ false
      → (new {C = C} p s config).execute_at_commit ≡ false
  unfolding new
  new-waits p s config waits = waits

  new-queue :
      (key : Key) (p : ProcessId) (s : ShardId) (config : Config)
      → queue key (new {C = C} p s config) ≡ []
  unfolding new pending_at get
  new-queue key p s config = refl

  new-effects :
      (p : ProcessId) (s : ShardId) (config : Config)
      → effects (new {C = C} p s config) ≡ (Kvs.new config.executor_monitor_execution_order, [])
  unfolding new
  new-effects p s config = refl

module _ {C : Type 0} ⦃ar : RangeClock C⦄ where
  -- What `attach_at` and `detach_at` do to the table of the key.
  abbrev step : Event → VotesTable C → Outcome (VotesTable C × List Pending)
  step event t = add_event event t >>= stable_ops

  table_at-update_table :
      (key : Key) (event : Event) (m : MultiVotesTable C) (t : VotesTable C) (ps : List Pending)
      → step event (table_at key m) ≡ done (t, ps)
      → update_table key (step event) m ≡ done (record m { tables = insert key t m.tables }, ps)
  unfolding update_table
  table_at-update_table key event m t ps steps =
      ap
        (λ (o : Outcome (VotesTable C × List Pending)). o >>= λ (r : VotesTable C × List Pending).
          done (record m { tables = insert key r.0 m.tables }, r.1))
        steps

  table_at-insert :
      (key other : Key) (t : VotesTable C) (m : MultiVotesTable C)
      → table_at other (record m { tables = insert key t m.tables })
        ≡ (if key == other then t else table_at other m)
  unfolding table_at
  table_at-insert key other t m = ground (arith, get-insert key other t m.tables)

  -- A run that succeeded, taken apart at its first event.
  run_events-first :
      (event : Event) (events : List Event) (t t' : VotesTable C) (ps : List Pending)
      → run_events (event ∷ events) t ≡ done (t', ps)
      → (t1 : VotesTable C) × (now : List Pending) × (later : List Pending) × (step event t
          ≡ done (t1, now))
        × (run_events events t1 ≡ done (t', later))
        × (now ++ later ≡ ps)
  unfolding run_events
  run_events-first event events t t' ps runs =
      let (first, steps, rest) =
        >>=-eq-done (step event t)
          (λ (first : VotesTable C × List Pending).
            run_events events first.0 >>= λ (rest : VotesTable C × List Pending).
            done (rest.0, first.1 ++ rest.1))
          runs in
      let (later, runs_later, same) =
        >>=-eq-done (run_events events first.0)
          (λ (rest : VotesTable C × List Pending). done (rest.0, first.1 ++ rest.1)) rest in
      let whole = done_inj (later.0, first.1 ++ later.1) (t', ps) same in
      (
        first.0,
        first.1,
        later.1,
        steps,
        runs_later ∙ ap (λ (r : VotesTable C × List Pending). done (r.0, later.1)) whole,
        ap (λ (r : VotesTable C × List Pending). r.1) whole,
      )

  unfoldable pub handle_all : List TableExecutionInfo → TableExecutor C → Outcome (TableExecutor C)
  unfolding handle
  handle_all [] e = done e
  handle_all (info ∷ infos) e = handle info e >>= handle_all infos

  -- The tables have seen the events, and what they returned was queued.
  abbrev IsHandled :
      (Key → List Pending)
      → (Key → VotesTable C)
      → TableExecutor C
      → Outcome (TableExecutor C)
      → Type 0
  IsHandled outs tables e o =
      (e' : TableExecutor C) × (executed : List Entry) × (o ≡ done e')
      × ((key : Key) → at_key key executed ++ queue key e' ≡ queue key e ++ commands (outs key))
      × (effects e' ≡ run_entries executed (effects e))
      × ((key : Key) → table_at key e'.table ≡ tables key)

  -- One request, and then the rest of the messages.
  advance :
      (key : Key) (request : Request) (infos : List TableExecutionInfo) (e start : TableExecutor C)
      (outs later : Key → List Pending) (tables : Key → VotesTable C)
      → ((at : Key) → pending_at at start ≡ pending_at at e)
      → effects start ≡ effects e
      → ((at : Key)
          → at_key at (tagged key (arriving request)) ++ commands (later at) ≡ commands (outs at))
      → ((e1 : TableExecutor C)
          → IsFixed start e1
          → IsHandled later tables e1 (handle_all infos e1))
      → IsHandled outs tables e (serve key request start >>= handle_all infos)
  advance key request infos e start outs later tables queues same arrived rest =
      let (e1, ran, serves, parts, after, others, fixed) = serve-ServedBy key request start in
      let (e2, executed, runs, more_parts, more_after, tabled) = rest e1 fixed in
      (
        e2,
        tagged key ran ++ executed,
        ap (λ (o : Outcome (TableExecutor C)). o >>= handle_all infos) serves ∙ runs,
        λ at.
            (let first = serve-queue key at ran (arriving request) start e1 parts others in
              ap (λ (cs : CommandList). cs ++ queue at e2)
                (at_key-append at (tagged key ran) executed)
              ∙ in_turn (at_key at (tagged key ran)) (at_key at executed) (queue at start)
                  (queue at e1) (queue at e2) (at_key at (tagged key (arriving request)))
                  (commands (later at)) first (more_parts at)
              ∙ ap (λ (cs : CommandList). queue at start ++ cs) (arrived at)
              ∙ ap (λ (p : PendingPerKey). commands p.pending ++ commands (outs at)) (queues at)),
        more_after
            ∙ ap (run_entries executed) (after ∙ sym (run_entries-tagged key ran (effects start)))
            ∙ sym (run_entries-append (tagged key ran) executed (effects start))
            ∙ ap (run_entries (tagged key ran ++ executed)) same,
        tabled,
      )

  serve_ready :
      (key : Key) (now : List Pending) (infos : List TableExecutionInfo) (e start : TableExecutor C)
      (outs later : Key → List Pending) (tables : Key → VotesTable C)
      → ((at : Key) → pending_at at start ≡ pending_at at e)
      → effects start ≡ effects e
      → ((at : Key)
          → at_key at (tagged key (commands now)) ++ commands (later at) ≡ commands (outs at))
      → ((e1 : TableExecutor C)
          → IsFixed start e1
          → IsHandled later tables e1 (handle_all infos e1))
      → IsHandled outs tables e (send_stable_or_execute key now start >>= handle_all infos)
  unfolding serve
  serve_ready key now infos e start outs later tables =
      advance key (ready now) infos e start outs later tables

  -- The handlers of votes, once the command is built.
  abbrev vote : Key → Event → TableExecutor C → Outcome (TableExecutor C)
  vote key event e =
      update_table key (step event) e.table >>= λ (r : MultiVotesTable C × List Pending).
      send_stable_or_execute key r.1 (record e { table = r.0 })

  abbrev HasRuns :
      ShardId
      → List TableExecutionInfo
      → (Key → VotesTable C)
      → (Key → List Pending)
      → TableExecutor C
      → Type 0
  HasRuns shard_id infos tables outs e =
      (key : Key)
      → run_events (events_at key shard_id infos) (table_at key e.table)
        ≡ done (tables key, outs key)

  pending_at-table :
      (key : Key) (e : TableExecutor C) (m : MultiVotesTable C)
      → pending_at key (record e { table = m }) ≡ pending_at key e
  unfolding pending_at
  pending_at-table key e m = refl

  later_runs_at :
      (at key : Key) (event : Event) (events : List Event) (t t1 : VotesTable C)
      (tables : Key → VotesTable C) (after : List Pending) (outs : Key → List Pending)
      → (at ≡ key → run_events events t1 ≡ done (tables key, after))
      → run_events ((if at == key then event ∷ [] else []) ++ events) t
        ≡ done (tables key, outs key)
      → run_events events (if at == key then t1 else t)
        ≡ done (tables key, if at == key then after else outs key)
  later_runs_at at key event events t t1 tables after outs later runs =
      elim (Bool-cases (at == key)) [
        | inl same ↦
            subst
              (λ (b : Bool).
                run_events events (if b then t1 else t)
                ≡ done (tables key, if b then after else outs key))
              (sym same) (later ((string_partial_eq.equal_iff at key).0 same))
        | inr differs ↦
            subst
              (λ (b : Bool).
                run_events events (if b then t1 else t)
                ≡ done (tables key, if b then after else outs key))
              (sym differs)
              (subst
                (λ (b : Bool).
                  run_events ((if b then event ∷ [] else []) ++ events) t
                  ≡ done (tables key, outs key))
                differs runs)
      ]

  vote-IsHandled :
      (at : Key) (event : Event) (shard_id : ShardId) (infos : List TableExecutionInfo)
      (e : TableExecutor C) (tables : Key → VotesTable C) (outs : Key → List Pending)
      → ((key : Key)
          → run_events
              ((if at == key then event ∷ [] else []) ++ events_at key shard_id infos)
              (table_at key e.table)
            ≡ done (tables key, outs key))
      → ((later : Key → List Pending) (e1 : TableExecutor C)
          → e1.shard_id ≡ e.shard_id
          → e1.execute_at_commit ≡ e.execute_at_commit
          → HasRuns shard_id infos tables later e1
          → IsHandled later tables e1 (handle_all infos e1))
      → IsHandled outs tables e (vote at event e >>= handle_all infos)
  vote-IsHandled at event shard_id infos e tables outs runs rest =
      let here = (string_partial_eq.equal_iff at at).1 refl in
      let all_runs =
        subst
          (λ (b : Bool).
            run_events ((if b then event ∷ [] else []) ++ events_at at shard_id infos)
              (table_at at e.table)
            ≡ done (tables at, outs at))
          here (runs at) in
      let (t1, now, after, steps, later_runs, split) =
        run_events-first event (events_at at shard_id infos) (table_at at e.table) (tables at)
          (outs at) all_runs in
      let m1 : MultiVotesTable C = record e.table { tables = insert at t1 e.table.tables } in
      let start : TableExecutor C = record e { table = m1 } in
      let later : Key → List Pending = λ key. if at == key then after else outs key in
      let send = λ (o : Outcome (MultiVotesTable C × List Pending)).
        o >>= λ (r : MultiVotesTable C × List Pending).
        send_stable_or_execute at r.1 (record e { table = r.0 }) in
      let sent = ap send (table_at-update_table at event e.table t1 now steps) in
      subst (λ (o : Outcome (TableExecutor C)). IsHandled outs tables e (o >>= handle_all infos))
        (sym sent)
        (serve_ready at now infos e start outs later tables (λ key. pending_at-table key e m1) refl
          (λ key. arrived_at at key now after outs split)
          (λ e1 fixed. rest later e1 fixed.1 fixed.2 (λ key.
            subst
              (λ (t : VotesTable C).
                run_events (events_at key shard_id infos) t ≡ done (tables key, later key))
              (sym (ap (table_at key) fixed.0 ∙ table_at-insert at key t1 e.table))
              (later_runs_at at key event (events_at key shard_id infos) (table_at key e.table) t1
                tables after outs
                (λ same.
                  subst (λ k. run_events (events_at k shard_id infos) t1 ≡ done (tables k, after))
                    same later_runs)
                (runs key)))))

  run_events_none : (t : VotesTable C) → run_events [] t ≡ done (t, [])
  unfolding run_events
  run_events_none t = refl

  handle-stable :
      (at : Key) (rifl : Rifl) (e : TableExecutor C)
      → handle (stable_at_shard at rifl) e ≡ serve at (stable rifl) e
  unfolding handle serve
  handle-stable at rifl e = refl

  handle-detached :
      (at : Key) (votes : List VoteRange) (e : TableExecutor C)
      → e.execute_at_commit ≡ false
      → handle (detached_votes at votes) e ≡ vote at (detached votes) e
  unfolding handle detach_at add_event
  handle-detached at votes e waits =
      ap (λ (b : Bool). if b then done e else vote at (detached votes) e) waits

  handle-attached :
      (dot : Dot) (clock : ℕ) (at : Key) (rifl : Rifl) (shard_to_keys : Map ShardId (List Key))
      (ops : List KvOp) (votes : List VoteRange) (pending : Pending) (e : TableExecutor C)
      → new_pending e.shard_id rifl shard_to_keys ops ≡ done pending
      → e.execute_at_commit ≡ false
      → handle (attached_votes dot clock at rifl shard_to_keys ops votes) e
        ≡ vote at (attached dot clock pending votes) e
  unfolding handle attach_at add_event
  handle-attached dot clock at rifl shard_to_keys ops votes pending e built waits =
      ap
        (λ (o : Outcome Pending). o >>= λ (p : Pending).
          (if e.execute_at_commit
            then done (execute_now at p e)
            else vote at (attached dot clock p votes) e))
        built
      ∙ ap
          (λ (b : Bool).
            if b
            then done (execute_now at pending e)
            else vote at (attached dot clock pending votes) e)
          waits

  none-IsHandled :
      (shard_id : ShardId) (e : TableExecutor C) (tables : Key → VotesTable C)
      (outs : Key → List Pending)
      → HasRuns shard_id [] tables outs e
      → IsHandled outs tables e (handle_all [] e)
  unfolding handle_all events_at at_key run_entries
  none-IsHandled shard_id e tables outs runs =
      let seen = λ (key : Key).
        done_inj (table_at key e.table, []) (tables key, outs key)
          (sym (run_events_none (table_at key e.table)) ∙ runs key) in
      (
        e,
        [],
        refl,
        λ key. sym (
            ap (λ (ps : List Pending). queue key e ++ commands ps)
              (sym (ap (λ (r : VotesTable C × List Pending). r.1) (seen key)))
            ∙ entries_nil (queue key e)),
        refl,
        λ key. ap (λ (r : VotesTable C × List Pending). r.0) (seen key),
      )

  handle_all-IsHandled :
      (shard_id : ShardId) (infos : List TableExecutionInfo) (e : TableExecutor C)
      (tables : Key → VotesTable C) (outs : Key → List Pending)
      → e.shard_id ≡ shard_id
      → e.execute_at_commit ≡ false
      → All (IsForShard shard_id) infos
      → HasRuns shard_id infos tables outs e
      → IsHandled outs tables e (handle_all infos e)
  unfolding handle_all events_at at_key
  handle_all-IsHandled shard_id [] e tables outs shard waits here runs =
      none-IsHandled shard_id e tables outs runs
  handle_all-IsHandled shard_id (attached_votes dot clock at rifl shard_to_keys ops votes ∷ infos) e
        tables outs shard waits here runs =
      let (pending, built) = here.0 in
      let own =
        subst (λ s. new_pending s rifl shard_to_keys ops ≡ done pending) (sym shard) built in
      subst (λ (o : Outcome (TableExecutor C)). IsHandled outs tables e (o >>= handle_all infos))
        (sym (handle-attached dot clock at rifl shard_to_keys ops votes pending e own waits))
        (vote-IsHandled at (attached dot clock pending votes) shard_id infos e tables outs
          (λ key.
            subst
              (λ (o : Outcome Pending).
                run_events
                  ((elim o as (λ _. List Event) [
                    | panic ↦ []
                    | done p ↦ if at == key then attached dot clock p votes ∷ [] else []
                  ])
                    ++ events_at key shard_id infos)
                  (table_at key e.table)
                ≡ done (tables key, outs key))
              built (runs key))
          (λ later e1 same_shard same_waits more.
            handle_all-IsHandled shard_id infos e1 tables later (same_shard ∙ shard)
              (same_waits ∙ waits) here.1 more))
  handle_all-IsHandled shard_id (detached_votes at votes ∷ infos) e tables outs shard waits here
        runs =
      subst (λ (o : Outcome (TableExecutor C)). IsHandled outs tables e (o >>= handle_all infos))
        (sym (handle-detached at votes e waits))
        (vote-IsHandled at (detached votes) shard_id infos e tables outs runs
          (λ later e1 same_shard same_waits more.
            handle_all-IsHandled shard_id infos e1 tables later (same_shard ∙ shard)
              (same_waits ∙ waits) here.1 more))
  handle_all-IsHandled shard_id (stable_at_shard at rifl ∷ infos) e tables outs shard waits here
        runs =
      subst (λ (o : Outcome (TableExecutor C)). IsHandled outs tables e (o >>= handle_all infos))
        (sym (handle-stable at rifl e))
        (advance at (stable rifl) infos e e outs outs tables (λ key. refl) refl (λ key. refl)
          (λ e1 fixed.
            handle_all-IsHandled shard_id infos e1 tables outs (fixed.1 ∙ shard) (fixed.2 ∙ waits)
              here.1
              (λ key.
                subst
                  (λ (m : MultiVotesTable C).
                    run_events (events_at key shard_id infos) (table_at key m)
                    ≡ done (tables key, outs key))
                  (sym fixed.0) (runs key))))

  table_at-new :
      (key : Key) (p : ProcessId) (s : ShardId) (config : Config)
      → table_at key (new {C = C} p s config).table
        ≡ new_table key p s config.n (tempo_quorum_sizes config).2
  unfolding new table_at get
  table_at-new key p s config = refl

  -- A new executor of Tempo that waits for stability, and gets votes and commands of its shard such
  -- that each key has a feed as its table of votes expects, never panics. On each key, the commands
  -- that it has run, those that wait in the queue and those that wait in the table are, one after
  -- the other, the commands of the key in the order of their clocks and dots; and its store and
  -- results are those of running commands one after the other.
  pub handle_all_in_order :
      (laws : ClockLaws ar) (process_id : ProcessId) (shard_id : ShardId) (config : Config)
      (infos : List TableExecutionInfo)
      → config.execute_at_commit ≡ false
      → 1 ≤ (tempo_quorum_sizes config).2
      → (tempo_quorum_sizes config).2 ≤ config.n
      → ar.size (ar.with_ids (process_ids shard_id config.n)) ≡ config.n
      → All (IsForShard shard_id) infos
      → ((key : Key)
          → IsFeed config.n
              (tempo_quorum_sizes config).2
              []
              (ar.with_ids (process_ids shard_id config.n))
              (events_at key shard_id infos))
      → (e : TableExecutor C) × (executed : List Entry) × (handle_all infos
            (new process_id shard_id config)
          ≡ done e)
        × ((key : Key)
            → (at_key key executed ++ (queue key e ++ commands (values (table_at key e.table).ops))
                ≡ commands (values (attached_ops (events_at key shard_id infos) [])))
              × IsSorted (attached_ops (events_at key shard_id infos) []))
        × (effects e ≡ run_entries executed (Kvs.new config.executor_monitor_execution_order, []))
  handle_all_in_order laws process_id shard_id config infos waits least most sized here feeds =
      let run = λ (key : Key).
        run_events_in_order laws key process_id shard_id config.n (tempo_quorum_sizes config).2
          (events_at key shard_id infos) least most sized (feeds key) in
      let start : TableExecutor C = new process_id shard_id config in
      let (e, executed, handles, parts, after, tabled) =
        handle_all-IsHandled shard_id infos start (λ key. (run key).0) (λ key. values (run key).1)
          (new-shard C process_id shard_id config) (new-waits C process_id shard_id config waits)
          here
          (λ key.
            subst
              (λ (t : VotesTable C).
                run_events (events_at key shard_id infos) t
                ≡ done ((run key).0, values (run key).1))
              (sym (table_at-new key process_id shard_id config)) (run key).2) in
      (
        e,
        executed,
        handles,
        (λ key. (
          in_table (at_key key executed) (queue key e) (run key).1 (run key).0.ops
              (table_at key e.table).ops _
              (parts key
                ∙ ap (λ (cs : CommandList). cs ++ commands (values (run key).1))
                    (new-queue C key process_id shard_id config))
              (ap (λ (t : VotesTable C). t.ops) (tabled key)) (run key).3,
          (run key).4,
        )),
        after ∙ ap (run_entries executed) (new-effects C process_id shard_id config),
      )
