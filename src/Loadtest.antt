-- ===== src/Loadtest.antt =====
-- cmd/loadtest/main.go: the tool that sends triggers to a cycle's stream and waits for the results.
-- Each call that leaves the process is one tick. `log.Fatal` and `os.Exit` are values, and so is
-- what the tool prints at its end.
pub mod Counting
pub mod Sending
pub mod Ending
pub mod Early
use Prim.Native.String.{◌++◌ as ◌<>◌}
use package.text.Mathlib.Text.{◌==◌ as str_eq}
use mytonprovider_agent.Common.{
  ℕ, zero, suc, ◌+◌, ◌-◌, ◌*◌, ◌%◌, ◌^◌, String, Bool, true, false, not, ◌||◌, Option, none, some,
  List, [], ◌∷◌, ltb, leb, select, if◌then◌else◌,
}
use mytonprovider_agent.Jobs.{TriggerEnvelope, ResultEnvelope, Status}
use mytonprovider_agent.World.{Error, failed, wrap, Result, ok, err}
use mytonprovider_agent.Consumer.{Message, text}

-- The command line, parsed. A count that is not positive is 0 here.
pub record Flags : Type 0 where
  pub prefix : String
  pub cycle : String
  pub count : ℕ
  pub timeout : ℕ  -- int64, as its bit pattern

-- Redis, the UUIDs, the clock and the JSON decoder, by the tick of a call. XADD and XREAD get the
-- stream's key, and XREAD the id to read after.
pub record Broker : Type 0 where
  pub ping : ℕ → Result (Unit {0})
  pub new_id : ℕ → String
  pub clock : ℕ → ℕ
  pub xadd : String → TriggerEnvelope → ℕ → Result (Unit {0})
  pub xread : String → String → ℕ → Result (List Message)
  pub unmarshal : String → Option ResultEnvelope

-- The variables of `main` beside its flags; `pending` holds the keys of `jobIDs`.
pub record Run : Type 0 where
  pub tick : ℕ
  pub pending : List String
  pub last_id : String
  pub got_ok : ℕ
  pub got_err : ℕ

-- `jobIDs[id]`
unfoldable pub is_pending : String → List String → Bool
is_pending id [] = false
is_pending id (x ∷ xs) = str_eq x id || is_pending id xs

-- `jobIDs[id] = true`
unfoldable pub add : String → List String → List String
unfolding is_pending
add id ids = if is_pending id ids then ids else id ∷ ids

-- `delete(jobIDs, id)`
unfoldable pub remove : String → List String → List String
remove id = select (λ x. not (str_eq x id))

-- the loop that sends, with `n` triggers left; only XADD can fail
unfoldable pub send_triggers : Broker → Flags → ℕ → Run → Result Run
unfolding add
send_triggers b f zero r = ok r
send_triggers b f (suc n) r =
    let id = b.new_id r.tick in
    let env : TriggerEnvelope = record {
      job_id = id;
      cycle = f.cycle;
      enqueued_at = b.clock (r.tick + 1);
    } in
    let rest = send_triggers b f n (record r { tick = r.tick + 3; pending = add id r.pending }) in
    elim (b.xadd (f.prefix <> ":cycle:" <> f.cycle) env (r.tick + 2)) [
      | ok _ ↦ rest
      | err e ↦ err (wrap "xadd" e)
    ]

-- `raw, _ := msg.Values["data"].(string)`
abbrev pub raw_text : Message → String
raw_text m = elim m.data_field [ text s ↦ s | _ ↦ "" ]

abbrev count_result : Status → Run → Run
count_result Status.status_ok r = record r { got_ok = r.got_ok + 1 }
count_result Status.status_error r = record r { got_err = r.got_err + 1 }

-- the body of the loop over the messages, on a result that could be read
unfoldable pub take_result : ResultEnvelope → Run → Run
unfolding is_pending remove
take_result env r =
    if is_pending env.job_id r.pending
    then count_result env.status (record r { pending = remove env.job_id r.pending })
    else r

-- the loop over the messages of a read
unfoldable pub take_all : Broker → List Message → Run → Run
unfolding take_result
take_all b [] r = r
take_all b (m ∷ ms) r =
    let r' = record r { last_id = m.id } in
    take_all b ms (elim (b.unmarshal (raw_text m)) [ none ↦ r' | some env ↦ take_result env r' ])

-- Both an empty read and an error go on with the loop.
unfoldable pub read_results : Broker → Result (List Message) → Run → Run
unfolding take_all
read_results b (ok ms) r = take_all b ms r
read_results b (err e) r = r

abbrev is_settled : List String → Bool
is_settled [] = true
is_settled (x ∷ xs) = false

-- The loop that waits, for `n` turns at most. The context of a read, which ends at the deadline,
-- shows in what the read answers.
unfoldable pub wait : Broker → Flags → ℕ → ℕ → Run → Option Run
unfolding read_results
wait b f deadline zero r = none
wait b f deadline (suc n) r =
    let answer = b.xread (f.prefix <> ":result:" <> f.cycle) r.last_id (r.tick + 1) in
    let rest = wait b f deadline n (read_results b answer (record r { tick = r.tick + 2 })) in
    if is_settled r.pending || leb deadline (b.clock r.tick) then some r else rest

-- `t.Add(d)`, with the duration as its bit pattern; before the clock's first moment is 0 here
abbrev pub add_duration : ℕ → ℕ → ℕ
add_duration t d = if ltb d (2 ^ 63) then t + d else t - (2 ^ 64 - d)

-- `time.Now().Add(*timeout * time.Duration(*count))`
unfoldable pub deadline_of : Broker → Flags → ℕ → ℕ
deadline_of b f t = add_duration (b.clock t) (f.timeout * f.count % 2 ^ 64)

-- how the process ends
pub data Exit : Type 0 where
  fatal : Error → Exit
  reported : (code : ℕ) (r : Run) → Exit

unfoldable pub exit_code : Run → ℕ
exit_code r = if not (is_settled r.pending) then 1 else if ltb 0 r.got_err then 2 else 0

unfoldable pub initial : Run
initial = record { tick = 1; pending = []; last_id = "$"; got_ok = 0; got_err = 0 }

unfoldable pub await : Broker → Flags → ℕ → Run → Option Exit
unfolding wait deadline_of exit_code
await b f n r = elim (wait b f (deadline_of b f r.tick) n (record r { tick = r.tick + 1 })) [
  | none ↦ none
  | some r' ↦ some (reported (exit_code r') r')
]

-- `main`, with `n` turns of the loop that waits; `none` where they are not enough
unfoldable pub main : Broker → Flags → ℕ → Option Exit
unfolding send_triggers initial await
main b f n =
    if str_eq f.cycle "" then some (fatal (failed "cycle is required")) else elim (b.ping 0) [
      | err e ↦ some (fatal (wrap "redis ping" e))
      | ok _ ↦ elim (send_triggers b f f.count initial) [
        | err e ↦ some (fatal e)
        | ok r ↦ await b f n r
      ]
    ]
