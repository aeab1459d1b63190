-- ===== src/Coordinator/Body.antt =====
-- src/sync/coordinator.ts: the body of one session, by what its hooks and its task do.
use obsidian_yandex_disk_syn.Common.{
  ◌≡◌, Bool, true, false, not, ◌&&◌, ◌||◌, List, [], ◌∷◌, ◌++◌, arith, if◌then◌else◌, nat_eq,
  bool_eq, option_eq, list_eq, length, filter,
}

-- Whether each call that the body awaits fulfils, and whether `this.activeSession` is set when the
-- body looks at it: when its `try` block has thrown, after a settlement, and after a reported
-- failure. Another session that runs beside this one may have set or cleared it.
pub record Outcomes : Type 0 where
  pub enter : Bool
  pub task : Bool
  pub settle : Bool
  pub exit : Bool
  pub active_on_error : Bool
  pub active_after_settle : Bool
  pub active_after_exit : Bool

pub data Call : Type 0 where
  on_enter run_task settle_fulfilled settle_rejected : Call
  on_exit : (success : Bool) → Call

-- The calls that the body made, and whether its promise fulfils.
pub record Trace : Type 0 where
  pub calls : List Call
  pub success : Bool

-- The `catch` block, with `entered` and `fulfilledSettlementAttempted`: its calls, and after it the
-- value of `entered` and whether `this.activeSession` is set. A failure of `onExit` leaves `entered`
-- set. What the body knows of `this.activeSession` changes only across a call that it awaits.
unfoldable pub catch_block : Outcomes → (entered attempted : Bool) → List Call × Bool × Bool
catch_block o entered attempted =
    let settles = not attempted && o.active_on_error in
    let active = if settles then o.active_after_settle else o.active_on_error in
    let settlement : List Call = if settles then settle_rejected ∷ [] else [] in
    if entered && active
    then (settlement ++ on_exit false ∷ [], not o.exit, o.active_after_exit)
    else (settlement, entered, active)

-- The `try` block: its calls, whether it returned, `entered` and `fulfilledSettlementAttempted`.
unfoldable pub try_block : Outcomes → List Call × Bool × Bool × Bool
try_block o =
    if not o.enter
    then (on_enter ∷ [], false, false, false)
    else if not o.task
    then (on_enter ∷ run_task ∷ [], false, true, false)
    else (on_enter ∷ run_task ∷ settle_fulfilled ∷ [], o.settle, true, true)

-- The `finally` block: it reports success if `entered` is still set.
unfoldable pub finally_block : (entered active : Bool) → List Call
finally_block entered active = if entered && active then on_exit true ∷ [] else []

-- The function that `enqueueSession` passes to `then`.
unfoldable pub session_body : Outcomes → Trace
unfolding catch_block try_block finally_block
session_body o =
    let (calls, returned, entered, attempted) = try_block o in
    if returned
    then record {
      calls = calls ++ finally_block entered o.active_after_settle;
      success = not o.active_after_settle || o.exit;
    }
    else let (caught, still, active) = catch_block o entered attempted in
      record { calls = (calls ++ caught) ++ finally_block still active; success = false }

abbrev pub is_settlement : Call → Bool
is_settlement settle_fulfilled = true
is_settlement settle_rejected = true
is_settlement _ = false

abbrev pub is_exit : Call → Bool
is_exit (on_exit success) = true
is_exit _ = false

-- No other session has cleared `this.activeSession` when the body looks at it.
abbrev pub stays_active : Outcomes → Bool
stays_active o = o.active_on_error && o.active_after_settle && o.active_after_exit

-- If no other session clears `this.activeSession` while the body runs, then, whatever the hooks and
-- the task do, the session tries to settle exactly once. A session that was not entered reports no
-- exit. One that was entered reports exactly one exit, with its outcome, if `onExit` does not fail;
-- if `onExit` fails, a session whose task and settlement were good has reported one success, and
-- any other has reported a failure and then a success.
pub session_body_lem :
    (o : Outcomes)
    → stays_active o ≡ true
    → (length (filter is_settlement (session_body o).calls) ≡ 1)
      × (filter is_exit (session_body o).calls ≡ (
          if not o.enter
          then []
          else if o.exit
          then on_exit (session_body o).success ∷ []
          else if o.task && o.settle
          then on_exit true ∷ []
          else on_exit false ∷ on_exit true ∷ []))
unfolding session_body
session_body_lem o h = ground arith
