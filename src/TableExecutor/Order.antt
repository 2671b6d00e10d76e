-- ===== src/TableExecutor/Order.antt =====
-- fantoch_ps/src/executor/table/executor.rs: over any sequence of requests on any keys, the commands
-- of each key run in the order in which they became stable.
use fantoch.Prelude.{
  ◌≡◌, refl, ap, sym, ◌∙◌, subst, false, List, [], ◌∷◌, ◌++◌, Outcome, done, ◌>>=◌, inl, inr,
  if◌then◌else◌, Bool-cases, ◌==◌, string_partial_eq, arith,
}
use fantoch.Prelude.Maps.{get}
use fantoch.Identifiers.{ProcessId, ShardId, Rifl}
use fantoch.Config.{Config}
use fantoch.Kvs.{Key, KvOp, KvStore}
use fantoch.Kvs
use fantoch.Commands.{ExecutorResult}
use fantoch.TableExecutor.{PendingPerKey, TableExecutor, new, pending_at}
use fantoch.TableExecutor.Queues.{
  commands, Request, arriving, serve, queue, effects, run_commands, serve-ServedBy,
}

-- Commands with their keys.
abbrev pub Entry : Type 0
Entry = Key × (Rifl × List KvOp)

abbrev pub CommandList : Type 0
CommandList = List (Rifl × List KvOp)

abbrev pub tagged : Key → CommandList → List Entry
tagged key [] = []
tagged key (c ∷ cs) = (key, c) ∷ tagged key cs

unfoldable pub at_key : Key → List Entry → CommandList
at_key key [] = []
at_key key (entry ∷ entries) =
    let rest = at_key key entries in if entry.0 == key then entry.1 ∷ rest else rest

-- Commands run one after the other, each on its key.
unfoldable pub run_entries :
    List Entry → KvStore × List ExecutorResult → KvStore × List ExecutorResult
unfolding run_commands
run_entries [] state = state
run_entries ((key, c) ∷ entries) state = run_entries entries (run_commands key (c ∷ []) state)

pub run_entries-append :
    (front back : List Entry) (state : KvStore × List ExecutorResult)
    → run_entries (front ++ back) state ≡ run_entries back (run_entries front state)
unfolding run_entries
run_entries-append [] back state = refl
run_entries-append ((key, c) ∷ front) back state = run_entries-append front back _

pub run_entries-tagged :
    (key : Key) (cs : CommandList) (state : KvStore × List ExecutorResult)
    → run_entries (tagged key cs) state ≡ run_commands key cs state
unfolding run_entries run_commands
run_entries-tagged key [] state = refl
run_entries-tagged key (c ∷ cs) state = run_entries-tagged key cs _

pub at_key-append :
    (key : Key) (front back : List Entry)
    → at_key key (front ++ back) ≡ at_key key front ++ at_key key back
unfolding at_key
at_key-append key [] back = refl
at_key-append key (entry ∷ front) back = ground (arith, at_key-append key front back)

pub at_key-tagged : (key : Key) (cs : CommandList) → at_key key (tagged key cs) ≡ cs
unfolding at_key
at_key-tagged key [] = refl
at_key-tagged key (c ∷ cs) =
    ground (arith, at_key-tagged key cs, (string_partial_eq.equal_iff key key).1 refl)

pub at_key-tagged_other :
    (key other : Key) (cs : CommandList)
    → (key == other) ≡ false
    → at_key other (tagged key cs) ≡ []
unfolding at_key
at_key-tagged_other key other [] differs = refl
at_key-tagged_other key other (c ∷ cs) differs =
    ground (arith, at_key-tagged_other key other cs differs, differs)

pub entries_assoc : (a b c : CommandList) → (a ++ b) ++ c ≡ a ++ (b ++ c)
entries_assoc [] b c = refl
entries_assoc (x ∷ a) b c = ap (λ (rest : CommandList). x ∷ rest) (entries_assoc a b c)

pub entries_nil : (a : CommandList) → a ++ [] ≡ a
entries_nil [] = refl
entries_nil (x ∷ a) = ap (λ (rest : CommandList). x ∷ rest) (entries_nil a)

-- Two runs in turn: what ran and waits is what waited and arrived.
pub in_turn :
    (ran more before between after arrived later : CommandList)
    → ran ++ between ≡ before ++ arrived
    → more ++ after ≡ between ++ later
    → (ran ++ more) ++ after ≡ before ++ (arrived ++ later)
in_turn ran more before between after arrived later first second =
    entries_assoc ran more after
    ∙ ap (λ (cs : CommandList). ran ++ cs) second
    ∙ sym (entries_assoc ran between later)
    ∙ ap (λ (cs : CommandList). cs ++ later) first
    ∙ entries_assoc before arrived later

unfoldable pub arrivals : List (Key × Request) → List Entry
arrivals [] = []
arrivals ((key, request) ∷ requests) = tagged key (arriving request) ++ arrivals requests

module _ {C : Type 0} where
  unfoldable pub serve_all : List (Key × Request) → TableExecutor C → Outcome (TableExecutor C)
  unfolding serve
  serve_all [] e = done e
  serve_all ((key, request) ∷ requests) e = serve key request e >>= serve_all requests

  abbrev AllServed : List Entry → TableExecutor C → Outcome (TableExecutor C) → Type 0
  AllServed arrived e o =
      (e' : TableExecutor C) × (executed : List Entry) × (o ≡ done e')
      × ((key : Key) → at_key key executed ++ queue key e' ≡ queue key e ++ at_key key arrived)
      × (effects e' ≡ run_entries executed (effects e))

  -- The queue of any key after a request on one key.
  pub serve-queue :
      (key at : Key) (executed arrived : CommandList) (e e' : TableExecutor C)
      → executed ++ queue key e' ≡ queue key e ++ arrived
      → ((other : Key) → (key == other) ≡ false → pending_at other e' ≡ pending_at other e)
      → at_key at (tagged key executed) ++ queue at e'
        ≡ queue at e ++ at_key at (tagged key arrived)
  serve-queue key at executed arrived e e' parts others = elim (Bool-cases (key == at)) [
    | inl same ↦
        subst
          (λ k.
            at_key k (tagged key executed) ++ queue k e'
            ≡ queue k e ++ at_key k (tagged key arrived))
          ((string_partial_eq.equal_iff key at).0 same)
          (ap (λ (cs : CommandList). cs ++ queue key e') (at_key-tagged key executed)
            ∙ parts
            ∙ sym (ap (λ (cs : CommandList). queue key e ++ cs) (at_key-tagged key arrived)))
    | inr differs ↦
        ap (λ (cs : CommandList). cs ++ queue at e') (at_key-tagged_other key at executed differs)
        ∙ ap (λ (p : PendingPerKey). commands p.pending) (others at differs)
        ∙ sym (
            ap (λ (cs : CommandList). queue at e ++ cs) (at_key-tagged_other key at arrived differs)
            ∙ entries_nil (queue at e))
  ]

  serve_all-AllServed :
      (requests : List (Key × Request)) (e : TableExecutor C)
      → AllServed (arrivals requests) e (serve_all requests e)
  unfolding serve_all arrivals at_key run_entries
  serve_all-AllServed [] e = (e, [], refl, λ key. sym (entries_nil (queue key e)), refl)
  serve_all-AllServed ((key, request) ∷ requests) e =
      let (e1, ran, serves, parts, after, others, fixed) = serve-ServedBy key request e in
      let (e2, executed, runs, more_parts, more_after) = serve_all-AllServed requests e1 in
      (
        e2,
        tagged key ran ++ executed,
        ap (λ (o : Outcome (TableExecutor C)). o >>= serve_all requests) serves ∙ runs,
        λ at.
            (let first = serve-queue key at ran (arriving request) e e1 parts others in
              ap (λ (cs : CommandList). cs ++ queue at e2)
                (at_key-append at (tagged key ran) executed)
              ∙ in_turn (at_key at (tagged key ran)) (at_key at executed) (queue at e) (queue at e1)
                  (queue at e2) (at_key at (tagged key (arriving request)))
                  (at_key at (arrivals requests)) first (more_parts at)
              ∙ ap (λ (cs : CommandList). queue at e ++ cs)
                  (sym (at_key-append at (tagged key (arriving request)) (arrivals requests)))),
        more_after
            ∙ ap (run_entries executed) (after ∙ sym (run_entries-tagged key ran (effects e)))
            ∙ sym (run_entries-append (tagged key ran) executed (effects e)),
      )

  -- Whatever requests a new executor serves, on any keys and in any order, none panics. It runs
  -- commands one after the other, with the effects of that on the store and the results; and on each
  -- key the commands that it has run, followed by those that wait, are those that became stable
  -- there, in that order.
  pub serve_all_in_order :
      (process_id : ProcessId) (shard_id : ShardId) (config : Config)
      (requests : List (Key × Request))
      → (e : TableExecutor C) × (executed : List Entry) × (serve_all requests
            (new process_id shard_id config)
          ≡ done e)
        × ((key : Key) → at_key key executed ++ queue key e ≡ at_key key (arrivals requests))
        × (effects e ≡ run_entries executed (Kvs.new config.executor_monitor_execution_order, []))
  unfolding new pending_at at_key get
  serve_all_in_order process_id shard_id config requests =
      serve_all-AllServed requests (new process_id shard_id config)
