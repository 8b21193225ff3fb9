-- ===== src/Transaction/Capacity/Check.antt =====
-- CheckCapacity of internal/transaction/capacity.go: a plan is costed at each durable point of its publication.
pub mod Within
use corvint_tasks.Base.{
  ℕ, ◌+◌, ◌*◌, Bool, true, false, not, ◌&&◌, ◌||◌, Option, none, some, List, [], ◌∷◌, ◌++◌,
  if◌then◌else◌, ltb, leb, length, is_some,
}
use corvint_tasks.Text.{Text, txt, text_eq, text_ltb, has_prefix}
use corvint_tasks.Wire.Code.{
  Result, ok, err, malformed, limit_exceeded, require, refuse_if, ◌>>=◌, ◌>>◌,
}
use corvint_tasks.Snapshot.Stage.{Description}
use corvint_tasks.Snapshot.Head.{Head, decode_head}
use corvint_tasks.Archive.Manifest.{FileEntry}
use corvint_tasks.Archive.Cost.{checked_add}
use corvint_tasks.Ticket.Inventory.Planning.{sort_by}
use corvint_tasks.Transaction.Inventory.{
  Inventory, FrozenPlan, find_entry, entry, bytes_entry, add_dir, put, remove_entry,
}
use corvint_tasks.Transaction.Capacity.{
  CostCalls, Cost, Limits, Charge, no_charge, hard_limits, journal_reserve, measure, measured,
  unpause_peak,
}

-- Prefix: a durable point, and the peak of an UNPAUSE after an abort there
pub record Prefix : Type 0 where
  pub step : Text
  pub cost : Cost
  pub abort_to_unpause : Option Cost

pub record Capacity : Type 0 where
  pub prefixes : List Prefix
  pub final : Inventory

-- What stays the same while a plan is costed: the head that is charged, the limits, and the head of an
-- abort where a barrier was there.
pub record Terms : Type 0 where
  pub calls : CostCalls
  pub limits : Limits
  pub head : Head
  pub abort_head : Option Head

-- The working inventory, and the points so far, the last one in front.
pub record Walk : Type 0 where
  pub working : Inventory
  pub points : List Prefix

-- The peak of an abort before the receipt is linked.
unfoldable pub abort_peak : Terms → Inventory → Bool → Result (Option Cost)
unfolding unpause_peak
abort_peak t i false = ok none
abort_peak t i true = elim t.abort_head [
  | none ↦ ok none
  | some h ↦ do u ← unpause_peak t.calls i h t.limits; ok (some u)
]

-- The closure `record`
unfoldable pub record_point : Terms → Charge → Bool → Text → Walk → Result Walk
unfolding measured abort_peak
record_point t charge precommit step w = do
  c ← measured t.calls w.working t.head charge t.limits
  peak ← abort_peak t w.working precommit
  ok (record w { points = (record { step = step; cost = c; abort_to_unpause = peak }) ∷ w.points })

abbrev pub is_evidence_target : Description → Bool
is_evidence_target a = has_prefix a.target (txt "evidence/")

-- The loop over the evidence, which is published before the receipt.
unfoldable pub link_evidence : Terms → Charge → List Description → Walk → Result Walk
unfolding has_prefix put record_point
link_evidence t charge [] w = ok w
link_evidence t charge (a ∷ more) w = do
  next ←
      if is_evidence_target a
      then (do
        i ← put w.working (entry a) true
        record_point t charge true (txt "durable-link:" ++ a.target) (record w { working = i }))
      else ok w
  link_evidence t charge more next

-- The loop that links the receipt.
unfoldable pub link_receipt : List Description → Inventory → Result Inventory
unfolding text_eq find_entry put
link_receipt [] i = ok i
link_receipt (a ∷ more) i = do
  next ←
      if text_eq a.role (txt "RECEIPT")
      then (do refuse_if (is_some (find_entry a.target i.files)) malformed; put i (entry a) true)
      else ok i
  link_receipt more next

abbrev size_in : List FileEntry → Text → ℕ
size_in files path = elim (find_entry path files) [ none ↦ 0 | some f ↦ f.bytes ]

-- The order of the posts: what grows first, then by target.
unfoldable pub published_before : List FileEntry → Description → Description → Bool
unfolding find_entry text_ltb
published_before files a b =
    let grow_a = leb (size_in files a.target) a.bytes in
    let grow_b = leb (size_in files b.target) b.bytes in
    if (grow_a && not grow_b) || (not grow_a && grow_b) then grow_a else text_ltb a.target b.target

unfoldable pub posts_of : List Description → List Description
unfolding text_eq has_prefix
posts_of [] = []
posts_of (a ∷ more) =
    if text_eq a.role (txt "POST") && not (is_evidence_target a)
    then a ∷ posts_of more
    else posts_of more

abbrev pub is_exclusive : Description → Bool
is_exclusive a = has_prefix a.target (txt "requests/") || has_prefix a.target (txt "pinned/")

-- The loop over the posts.
unfoldable pub publish_posts : Terms → Charge → List Description → Walk → Result Walk
unfolding has_prefix put record_point
publish_posts t charge [] w = ok w
publish_posts t charge (a ∷ more) w = do
  i ← put w.working (entry a) (is_exclusive a)
  next ← record_point t charge false (txt "durable-post:" ++ a.target) (record w { working = i })
  publish_posts t charge more next

-- The sum of the promised bytes
unfoldable pub sum_promised : ℕ → List Description → Result ℕ
unfolding checked_add
sum_promised total [] = ok total
sum_promised total (a ∷ more) = do n ← checked_add total a.bytes; sum_promised n more

unfoldable pub without_barrier : Walk → Walk
unfolding remove_entry
without_barrier w = record w {
  working = record w.working { files = remove_entry (txt "barrier.json") w.working.files };
}

-- The removal of the barrier.
unfoldable pub unlink_barrier : Terms → Charge → Text → Bool → Walk → Result Walk
unfolding without_barrier record_point
unlink_barrier t charge step false w = ok w
unlink_barrier t charge step true w = record_point t charge false step (without_barrier w)

abbrev pub has_barrier : Inventory → Bool
has_barrier i = is_some (find_entry (txt "barrier.json") i.files)

-- The head of the base, and the one to be written where there is none.
abbrev pub head_or : Option Head → Head → Head
head_or none h = h
head_or (some b) h = b

abbrev pub charge_of : FrozenPlan → ℕ → ℕ → Charge
charge_of p promised temporary = record {
  temporary = temporary;
  promised = promised;
  names = length p.artifacts + 2;
}

-- The publication up to the link of the receipt.
unfoldable pub link_plan : Terms → FrozenPlan → Charge → Inventory → Result Walk
unfolding record_point link_evidence link_receipt
link_plan t p charge working = do
  w0 ←
      record_point t charge true (txt "descriptor-and-all-promised-artifacts")
        (record { working = working; points = [] })
  w1 ← link_evidence t charge p.artifacts w0
  linked ← link_receipt p.artifacts w1.working
  record_point t charge false (txt "durable-receipt-link") (record w1 { working = linked })

unfoldable pub put_head : CostCalls → Text → Inventory → Result Inventory
unfolding put
put_head calls head i = put i (bytes_entry calls.sum (txt "head.json") head) false

-- The replacement of the head and the cleanup of the stage.
unfoldable pub write_head : Terms → FrozenPlan → Charge → Walk → Result Walk
unfolding record_point put_head
write_head t p charge w = do
  i ← put_head t.calls p.head w.working
  v ← record_point t charge false (txt "durable-head") (record w { working = i })
  record_point t no_charge false (txt "durable-staging-cleanup") v

-- The publication, from the descriptor to the cleanup of the stage.
unfoldable pub walk_plan : Terms → FrozenPlan → Charge → Inventory → Result Walk
unfolding link_plan sort_by published_before posts_of publish_posts unlink_barrier write_head
walk_plan t p charge working = do
  w ← link_plan t p charge working
  let ordered = sort_by (published_before w.working.files) (posts_of p.artifacts)
  posted ← publish_posts t charge ordered w
  unlinked ← unlink_barrier t charge (txt "durable-barrier-unlink") p.deletes_barrier posted
  write_head t p charge unlinked

-- The reserve of the last point, and the UNPAUSE that a barrier which stays needs.
unfoldable pub reserve_final : Terms → Inventory → List Prefix → Result (List Prefix)
unfolding journal_reserve find_entry unpause_peak
reserve_final t working [] = err malformed
reserve_final t working (q ∷ qs) = do
  journal_reserve q.cost (has_barrier working) t.limits
  if has_barrier working
      then (do
        u ← unpause_peak t.calls working t.head t.limits
        ok (
            (record { step = txt "reserved-fresh-UNPAUSE"; cost = u; abort_to_unpause = none })
            ∷ q
            ∷ qs))
      else ok (q ∷ qs)

abbrev pub reversed : List Prefix → List Prefix → List Prefix
reversed [] acc = acc
reversed (q ∷ qs) acc = reversed qs (q ∷ acc)

-- checkCapacity
unfoldable pub check_capacity : CostCalls → Limits → FrozenPlan → Result Capacity
unfolding decode_head measure find_entry journal_reserve sum_promised checked_add walk_plan
    reserve_final
check_capacity calls l p = do
  h ← decode_head p.head
  let working = add_dir p.base (txt "staging")
  let base_head = head_or p.base_head h
  base_cost ← measure calls working base_head no_charge
  journal_reserve base_cost (has_barrier working) l
  promised ← sum_promised 0 p.artifacts
  temporary ← checked_add promised (2 * length p.descriptor)
  let t : Terms = record {
    calls = calls;
    limits = l;
    head = h;
    abort_head = if has_barrier working then some base_head else none;
  }
  w ← walk_plan t p (charge_of p promised temporary) working
  points ← reserve_final t w.working w.points
  ok (record { prefixes = reversed points []; final = w.working })
