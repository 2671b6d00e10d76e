-- ===== src/TableExecutor/Queues.antt =====
-- fantoch_ps/src/executor/table/executor.rs: the commands of a key run in the order in which they
-- became stable, however the messages of the other shards arrive.
use fantoch.Prelude.{
  ℕ, ◌≡◌, refl, ap, sym, ◌∙◌, subst, Bool, false, Option, none, some, List, [], ◌∷◌, ◌++◌, Outcome,
  done, panic, ◌>>=◌, if◌then◌else◌, if-cases, ◌==◌, u64_partial_eq, string_partial_eq, add64,
  sub64, arith,
}
use fantoch.Prelude.Maps.{get, insert, remove, get-insert}
use fantoch.Identifiers.{Rifl}
use fantoch.Kvs.{Key, KvOp, KvStore}
use fantoch.Kvs
use fantoch.Commands.{ExecutorResult}
use fantoch.Pending.{rifl_partial_eq}
use fantoch.VotesTable.{Pending, single_key_command}
use fantoch.TableExecutor.{
  Work, TableExecutor, do_execute, count_of, send_stable_msg, mark_as_stable, take_buffered,
  execute_if_stable, execute_single_or_mark_it_as_stable, try_all, pending_at, work_at, put_back,
  send_stable_or_execute, handle_stable_msg, buffer_stable, send_after, receive_stable,
}

-- What execution reads of a command.
abbrev pub command_of : Pending → Rifl × List KvOp
command_of p = (p.rifl, p.ops)

abbrev pub commands : List Pending → List (Rifl × List KvOp)
commands [] = []
commands (p ∷ ps) = command_of p ∷ commands ps

-- Commands run one after the other on a key.
unfoldable pub run_commands :
    Key → List (Rifl × List KvOp) → KvStore × List ExecutorResult → KvStore × List ExecutorResult
unfolding Kvs.execute
run_commands key [] (store, results) = (store, results)
run_commands key ((rifl, ops) ∷ more) (store, results) =
    let (store', partial_results) = Kvs.execute key ops rifl store in
    let result : ExecutorResult = record {
      rifl = rifl;
      key = key;
      partial_results = partial_results;
    } in
    run_commands key more (store', results ++ (result ∷ []))

abbrev pub outcome_of : Work → KvStore × List ExecutorResult
outcome_of w = (w.store, w.to_clients)

-- Nothing ran, and the command is the same but for what it waits for.
abbrev IsKept : Pending → Work → Work × Pending → Type 0
IsKept p w (w', p') = (command_of p' ≡ command_of p) × (outcome_of w' ≡ outcome_of w)

abbrev KeptBy : Pending → Work → Outcome (Work × Pending) → Type 0
KeptBy p w o = (m : Work × Pending) × (o ≡ done m) × IsKept p w m

mark_as_stable-KeptBy : (key : Key) (p : Pending) (w : Work) → KeptBy p w (mark_as_stable key p w)
unfolding mark_as_stable send_stable_msg
mark_as_stable-KeptBy key p w =
    let count = add64 (count_of p.rifl w.rifl_to_stable_count) 1 in
    let counted = insert p.rifl count w.rifl_to_stable_count in
    let same = (rifl_partial_eq.equal_iff p.rifl p.rifl).1 refl in
    let found : get p.rifl counted ≡ some count =
      get-insert p.rifl p.rifl count w.rifl_to_stable_count
      ∙ ap (λ (b : Bool). if b then some count else get p.rifl w.rifl_to_stable_count) same in
    let sent = λ (w' : Work). send_stable_msg key p w' in
    if-cases (KeptBy p w) (p.shard_key_count == 1) _ _ (λ _. (sent w, refl, (refl, refl)))
      (λ _.
        if-cases (KeptBy p w) (count == p.shard_key_count) _ _
          (λ _.
            subst
              (λ (g : Option ℕ). KeptBy p w (elim g as (λ _. Outcome (Work × Pending)) [
                | none ↦ panic
                | some removed ↦
                    done (sent (record w { rifl_to_stable_count = remove p.rifl counted }))
              ]))
              (sym found) (_, refl, (refl, refl)))
          (λ _. (_, refl, (refl, refl))))

take_buffered-IsKept :
    (p : Pending) (w : Work) (m : Work × Pending) → IsKept p w m → IsKept p w (take_buffered m)
unfolding take_buffered
take_buffered-IsKept p w (w', p') kept =
    elim (get p'.rifl w'.stable_shards_buffered)
      as (λ g. IsKept p w (elim g as (λ _. Work × Pending) [
        | none ↦ (w', p')
        | some count ↦ (
          record w' { stable_shards_buffered = remove p'.rifl w'.stable_shards_buffered },
          record p' { missing_stable_shards = sub64 p'.missing_stable_shards count },
        )
      ])) [ none ↦ kept | some count ↦ kept ]

-- A command that is tried has run, or waits.
abbrev IsTried : Key → Pending → Work → Work × Option Pending → Type 0
IsTried key p w (w', none) = outcome_of w' ≡ run_commands key (command_of p ∷ []) (outcome_of w)
IsTried key p w (w', some waiting) = IsKept p w (w', waiting)

execute_if_stable-IsTried :
    (key : Key) (p : Pending) (w : Work) (m : Work × Pending)
    → IsKept p w m
    → IsTried key p w (execute_if_stable key m)
unfolding execute_if_stable run_commands
execute_if_stable-IsTried key p w (w', p') kept =
    if-cases (IsTried key p w) (p'.missing_stable_shards == 0) _ _
      (λ _.
        ap (λ (c : Rifl × List KvOp). run_commands key (c ∷ []) (outcome_of w')) kept.0
        ∙ ap (λ (o : KvStore × List ExecutorResult). run_commands key (command_of p ∷ []) o) kept.1)
      (λ _. kept)

abbrev TriedBy : Key → Pending → Work → Outcome (Work × Option Pending) → Type 0
TriedBy key p w o = (r : Work × Option Pending) × (o ≡ done r) × IsTried key p w r

single-TriedBy :
    (key : Key) (p : Pending) (w : Work)
    → TriedBy key p w (execute_single_or_mark_it_as_stable key p w)
unfolding execute_single_or_mark_it_as_stable run_commands
single-TriedBy key p w =
    let (m, marks, kept) = mark_as_stable-KeptBy key p w in
    if-cases (TriedBy key p w) (single_key_command p) _ _
      (λ _. ((do_execute key p w, none), refl, refl))
      (λ _. (
        execute_if_stable key (take_buffered m),
        ap
            (λ (o : Outcome (Work × Pending)).
              o >>= λ marked. done (execute_if_stable key (take_buffered marked)))
            marks,
        execute_if_stable-IsTried key p w (take_buffered m) (take_buffered-IsKept p w m kept),
      ))

-- The first commands have run, in order, and the others are left.
abbrev IsServed : Key → List (Rifl × List KvOp) → Work → Outcome (Work × List Pending) → Type 0
IsServed key all w o =
    (w' : Work) × (left : List Pending) × (executed : List (Rifl × List KvOp)) × (o
      ≡ done (w', left))
    × (executed ++ commands left ≡ all)
    × (outcome_of w' ≡ run_commands key executed (outcome_of w))

-- How the loop goes on after a try.
abbrev go_on : Key → List Pending → Outcome (Work × Option Pending) → Outcome (Work × List Pending)
go_on key ps o = o >>= λ (tried : Work × Option Pending).
    elim tried.1 as (λ _. Outcome (Work × List Pending)) [
      | none ↦ try_all key ps tried.0
      | some waiting ↦ done (tried.0, waiting ∷ ps)
    ]

try_all-IsServed :
    (key : Key) (ps : List Pending) (w : Work) → IsServed key (commands ps) w (try_all key ps w)
unfolding try_all run_commands
try_all-IsServed key [] w = (w, [], [], refl, refl, refl)
try_all-IsServed key (p ∷ ps) w = tried (try_all-IsServed key ps) (single-TriedBy key p w)
  where
    tried :
        ((w1 : Work) → IsServed key (commands ps) w1 (try_all key ps w1))
        → TriedBy key p w (execute_single_or_mark_it_as_stable key p w)
        → IsServed key (commands (p ∷ ps)) w (try_all key (p ∷ ps) w)
    tried rest ((w1, none), tries, runs) =
        let (w', left, executed, serves, all, outcome) = rest w1 in
        (
          w',
          left,
          command_of p ∷ executed,
          ap (go_on key ps) tries ∙ serves,
          ap (λ (cs : List (Rifl × List KvOp)). command_of p ∷ cs) all,
          outcome ∙ ap (run_commands key executed) runs,
        )
    tried rest ((w1, some waiting), tries, kept) = (
      w1,
      waiting ∷ ps,
      [],
      ap (go_on key ps) tries,
      ap (λ (c : Rifl × List KvOp). c ∷ commands ps) kept.0,
      kept.1,
    )

-- What reaches the queue of a key: commands that became stable there, or the message of another key
-- of a command.
pub data Request : Type 0 where
  ready : List Pending → Request
  stable : Rifl → Request

abbrev pub arriving : Request → List (Rifl × List KvOp)
arriving (ready ps) = commands ps
arriving (stable rifl) = []

commands_assoc : (a b c : List (Rifl × List KvOp)) → (a ++ b) ++ c ≡ a ++ (b ++ c)
commands_assoc [] b c = refl
commands_assoc (x ∷ a) b c =
    ap (λ (rest : List (Rifl × List KvOp)). x ∷ rest) (commands_assoc a b c)

commands_nil : (a : List (Rifl × List KvOp)) → a ++ [] ≡ a
commands_nil [] = refl
commands_nil (x ∷ a) = ap (λ (rest : List (Rifl × List KvOp)). x ∷ rest) (commands_nil a)

pub commands-append : (ps qs : List Pending) → commands (ps ++ qs) ≡ commands ps ++ commands qs
commands-append [] qs = refl
commands-append (p ∷ ps) qs =
    ap (λ (rest : List (Rifl × List KvOp)). command_of p ∷ rest) (commands-append ps qs)

module _ {C : Type 0} where
  unfoldable pub serve : Key → Request → TableExecutor C → Outcome (TableExecutor C)
  unfolding send_stable_or_execute handle_stable_msg
  serve key (ready ps) e = send_stable_or_execute key ps e
  serve key (stable rifl) e = handle_stable_msg key rifl e

  abbrev pub queue : Key → TableExecutor C → List (Rifl × List KvOp)
  queue key e = commands (pending_at key e).pending

  abbrev pub effects : TableExecutor C → KvStore × List ExecutorResult
  effects e = (e.store, e.to_clients)

  pending_at-put_back :
      (key other : Key) (w : Work) (ps : List Pending) (e : TableExecutor C)
      → pending_at other (put_back key (w, ps) e) ≡ (
          if key == other
          then (record { pending = ps; stable_shards_buffered = w.stable_shards_buffered })
          else pending_at other e)
  unfolding pending_at put_back
  pending_at-put_back key other w ps e = ground (
    arith,
    get-insert key other
        (record { pending = ps; stable_shards_buffered = w.stable_shards_buffered }) e.pending,
  )

  -- A request reads the tables of votes and the settings, and leaves them alone.
  abbrev pub IsFixed : (e e' : TableExecutor C) → Type 0
  IsFixed e e' =
      (e'.table ≡ e.table)
      × (e'.shard_id ≡ e.shard_id)
      × (e'.execute_at_commit ≡ e.execute_at_commit)

  -- What a request leaves: `executed` ran, in order, and the rest of the queue and of what arrived
  -- waits, on this key only.
  abbrev pub ServedBy :
      Key → List (Rifl × List KvOp) → TableExecutor C → Outcome (TableExecutor C) → Type 0
  ServedBy key arrived e o =
      (e' : TableExecutor C) × (executed : List (Rifl × List KvOp)) × (o ≡ done e')
      × (executed ++ queue key e' ≡ queue key e ++ arrived)
      × (effects e' ≡ run_commands key executed (effects e))
      × ((other : Key) → (key == other) ≡ false → pending_at other e' ≡ pending_at other e)
      × IsFixed e e'

  put_back-ServedBy :
      (key : Key) (arrived executed : List (Rifl × List KvOp)) (e : TableExecutor C) (w : Work)
      (ps : List Pending)
      → executed ++ commands ps ≡ queue key e ++ arrived
      → outcome_of w ≡ run_commands key executed (effects e)
      → ServedBy key arrived e (done (put_back key (w, ps) e))
  unfolding put_back
  put_back-ServedBy key arrived executed e w ps parts outcome =
      let same = (string_partial_eq.equal_iff key key).1 refl in
      let here : (pending_at key (put_back key (w, ps) e)).pending ≡ ps =
        ground (arith, pending_at-put_back key key w ps e, same) in
      (
        put_back key (w, ps) e,
        executed,
        refl,
        ap (λ (left : List Pending). executed ++ commands left) here ∙ parts,
        outcome,
        λ other differs. ground (arith, pending_at-put_back key other w ps e, differs),
        (refl, refl, refl),
      )

  -- The loop runs on what is pending, and its result is put back.
  try_all-ServedBy :
      (key : Key) (ps : List Pending) (w : Work) (e : TableExecutor C)
      (first arrived : List (Rifl × List KvOp))
      → first ++ commands ps ≡ queue key e ++ arrived
      → ((more : List (Rifl × List KvOp))
          → run_commands key more (outcome_of w) ≡ run_commands key (first ++ more) (effects e))
      → ServedBy key arrived e
          (try_all key ps w >>= λ (r : Work × List Pending). done (put_back key r e))
  try_all-ServedBy key ps w e first arrived parts outcome =
      let (w', left, executed, runs, all, after) = try_all-IsServed key ps w in
      let put = λ (o : Outcome (Work × List Pending)).
        o >>= λ (r : Work × List Pending). done (put_back key r e) in
      subst (ServedBy key arrived e) (sym (ap put runs)) (
        put_back-ServedBy key arrived (first ++ executed) e w' left
          (commands_assoc first executed (commands left)
            ∙ ap (λ (cs : List (Rifl × List KvOp)). first ++ cs) all
            ∙ parts)
          (after ∙ outcome executed))

  send_after-ServedBy :
      (key : Key) (pending ps : List Pending) (e : TableExecutor C)
      → commands pending ≡ queue key e
      → ServedBy key (commands ps) e (send_after key pending ps e)
  unfolding send_after work_at run_commands
  send_after-ServedBy key [] ps e same =
      try_all-ServedBy key ps (work_at key e) e [] (commands ps)
        (ap (λ (cs : List (Rifl × List KvOp)). cs ++ commands ps) same) (λ more. refl)
  send_after-ServedBy key (p ∷ pending) ps e same =
      put_back-ServedBy key (commands ps) [] e (work_at key e) ((p ∷ pending) ++ ps)
        (commands-append (p ∷ pending) ps
          ∙ ap (λ (cs : List (Rifl × List KvOp)). cs ++ commands ps) same)
        refl

  receive_stable-ServedBy :
      (key : Key) (rifl : Rifl) (pending : List Pending) (e : TableExecutor C)
      → commands pending ≡ queue key e
      → ServedBy key [] e (receive_stable key rifl pending e)
  unfolding receive_stable work_at buffer_stable do_execute run_commands
  receive_stable-ServedBy key rifl [] e same =
      put_back-ServedBy key [] [] e (buffer_stable rifl (work_at key e)) []
        (same ∙ sym (commands_nil (queue key e))) refl
  receive_stable-ServedBy key rifl (first ∷ pending) e same =
      let whole = same ∙ sym (commands_nil (queue key e)) in
      let reached : Pending = record first {
        missing_stable_shards = sub64 first.missing_stable_shards 1;
      } in
      if-cases (ServedBy key [] e) (first.rifl == rifl) _ _
        (λ _.
          if-cases (ServedBy key [] e) (sub64 first.missing_stable_shards 1 == 0) _ _
            (λ _.
              try_all-ServedBy key pending (do_execute key reached (work_at key e)) e
                (command_of first ∷ []) [] whole (λ more. refl))
            (λ _. put_back-ServedBy key [] [] e (work_at key e) (reached ∷ pending) whole refl))
        (λ _.
          put_back-ServedBy key [] [] e (buffer_stable rifl (work_at key e)) (first ∷ pending) whole
            refl)

  -- A request on a key never panics. The commands that it runs are the first ones of those that
  -- wait there followed by those that arrived, in this order, with the effects of running them one
  -- after the other; the others wait, in the same order; and nothing changes for the other keys.
  pub serve-ServedBy :
      (key : Key) (request : Request) (e : TableExecutor C)
      → ServedBy key (arriving request) e (serve key request e)
  unfolding serve send_stable_or_execute handle_stable_msg
  serve-ServedBy key (ready ps) e = send_after-ServedBy key (pending_at key e).pending ps e refl
  serve-ServedBy key (stable rifl) e =
      receive_stable-ServedBy key rifl (pending_at key e).pending e refl
