-- ===== src/Transaction/Capacity/Redo.antt =====
-- RedoCapacity and AbortCapacity of internal/transaction/recovery.go: what is left to publish after a
-- linked receipt, and what an abort leaves for UNPAUSE.
use corvint_tasks.Base.{◌-◌, ◌*◌, false, none, List, [], ◌∷◌, ◌++◌, if◌then◌else◌, length, is_some}
use corvint_tasks.Text.{txt}
use corvint_tasks.Wire.Code.{Result, ok, malformed, require, ◌>>=◌, ◌>>◌}
use corvint_tasks.Snapshot.Stage.{Description}
use corvint_tasks.Snapshot.Head.{Head, decode_head}
use corvint_tasks.Archive.Cost.{checked_add}
use corvint_tasks.Transaction.Stage.{StageCalls, Observation}
use corvint_tasks.Transaction.Cleanup.{CleanupState, CleanupResult, cleanup}
use corvint_tasks.Transaction.Inventory.{Inventory, FrozenPlan, find_entry, entry, add_dir, put}
use corvint_tasks.Transaction.Recovery.{RedoCalls, validate_redo}
use corvint_tasks.Transaction.Capacity.{
  CostCalls, Cost, Charge, no_charge, hard_limits, check, measure, unpause_peak,
}
use corvint_tasks.Transaction.Capacity.Check.{
  Capacity, Terms, Walk, record_point, posts_of, put_head, sum_promised, unlink_barrier, charge_of,
  reversed,
}

-- The loop over the posts, in the order of the plan.
unfoldable pub redo_posts : Terms → Charge → List Description → Walk → Result Walk
unfolding put record_point
redo_posts t charge [] w = ok w
redo_posts t charge (a ∷ more) w = do
  i ← put w.working (entry a) false
  next ←
      record_point t charge false (txt "durable-redo-post:" ++ a.target) (record w { working = i })
  redo_posts t charge more next

-- A barrier that stays must leave room for UNPAUSE.
unfoldable pub check_unpause : CostCalls → Inventory → Head → Result (Unit {0})
unfolding find_entry unpause_peak
check_unpause calls i h =
    if is_some (find_entry (txt "barrier.json") i.files)
    then (do unpause_peak calls i h hard_limits; ok tt)
    else ok tt

-- RedoCapacity
unfoldable pub redo_capacity : RedoCalls → CostCalls → FrozenPlan → Inventory → Result Capacity
unfolding validate_redo decode_head sum_promised checked_add record_point posts_of redo_posts
    unlink_barrier put_head check_unpause
redo_capacity redo calls p current = do
  validate_redo redo p current
  h ← decode_head p.head
  promised ← sum_promised 0 p.artifacts
  temporary ← checked_add promised (2 * length p.descriptor)
  let t : Terms = record { calls = calls; limits = hard_limits; head = h; abort_head = none }
  let charge = charge_of p promised temporary
  w0 ←
      record_point t charge false (txt "existing-linked-receipt")
        (record { working = add_dir current (txt "staging"); points = [] })
  w1 ← redo_posts t charge (posts_of p.artifacts) w0
  w2 ← unlink_barrier t charge (txt "durable-redo-barrier-unlink") p.deletes_barrier w1
  i ← put_head calls p.head w2.working
  w3 ← record_point t charge false (txt "durable-redo-head") (record w2 { working = i })
  w4 ← record_point t no_charge false (txt "durable-redo-cleanup") w3
  check_unpause calls w4.working h
  ok (record { prefixes = reversed w4.points []; final = w4.working })

pub record AbortCapacityResult : Type 0 where
  pub cleaned : CleanupResult
  pub current : Cost
  pub unpause : Cost

-- AbortCapacity; `files` is the inventory of the observation
unfoldable pub abort_capacity :
    StageCalls → CostCalls → Observation → Inventory → CleanupState → Result AbortCapacityResult
unfolding cleanup decode_head measure check find_entry unpause_peak
abort_capacity stage calls o files c = do
  cleaned ← cleanup stage o c
  h ← decode_head o.current_head
  let i = add_dir files (txt "staging")
  cost ← measure calls i h (record {
    temporary = cleaned.temporary_bytes;
    promised = cleaned.promised_bytes;
    names = cleaned.entries - 1;
  })
  check cost hard_limits
  require (is_some (find_entry (txt "barrier.json") i.files)) malformed
  peak ← unpause_peak calls i h hard_limits
  ok (record { cleaned = cleaned; current = cost; unpause = peak })
