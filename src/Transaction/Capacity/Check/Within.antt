-- ===== src/Transaction/Capacity/Check/Within.antt =====
-- The points that CheckCapacity of internal/transaction/capacity.go lists are within the limits.
use corvint_tasks.Base.{
  ℕ, ◌+◌, ◌^◌, ◌≤◌, ◌<◌, ◌≡◌, Bool, true, false, ◌||◌, Option, none, some, List, [], ◌∷◌, arith,
  ltb, if◌then◌else◌, not_ltb→le, All, Bool-cases, ap, refl, ◌∙◌, any, is_some, inl, inr, ◌-◌, ◌++◌,
  ◌*◌, length,
}
use mathlib.Core.Path.{subst}
use corvint_tasks.Text.{Text, txt, text_eq, has_prefix}
use corvint_tasks.Wire.Code.{
  Result, ok, err, limit_exceeded, refuse_if, ◌>>=◌, >>=-eq-ok, unit_step, refuse_if-passed,
}
use corvint_tasks.Archive.Cost.{checked_add}
use corvint_tasks.Snapshot.Head.{Head, decode_head}
use corvint_tasks.Transaction.Inventory.{Inventory, FrozenPlan, put, entry, add_dir, find_entry}
use corvint_tasks.Snapshot.Stage.{Description}
use corvint_tasks.Ticket.Inventory.Planning.{sort_by}
use corvint_tasks.Transaction.Capacity.{
  CostCalls, Cost, Limits, is_over, check, Charge, unpause_charge, no_charge, journal_reserve,
  measure, measured, reserve_unpause, unpause_peak,
}
use corvint_tasks.Transaction.Capacity.Check.{
  Prefix, Capacity, Terms, Walk, abort_peak, record_point, reversed, is_evidence_target,
  is_exclusive, link_evidence, link_receipt, publish_posts, published_before, posts_of,
  without_barrier, unlink_barrier, link_plan, put_head, write_head, walk_plan, reserve_final,
  check_capacity, has_barrier, head_or, charge_of, sum_promised,
}

-- A cost within the limits, whose temporary and promised bytes have a sum of 64 bits.
pub record IsWithinLimits (l : Limits) (c : Cost) : Type 0 where
  pub files : c.files ≤ l.files
  pub scan : c.scanned_entries ≤ l.scan
  pub manifest : c.manifest_size ≤ l.manifest
  pub tar : c.tar_bytes ≤ l.tar
  pub journal_count : c.journal_count ≤ l.journal_count
  pub journal_bytes : c.journal_bytes ≤ l.journal_bytes
  pub evidence : c.evidence_bytes ≤ l.evidence
  pub intent : c.intent_bytes ≤ l.intent
  pub staged : c.temporary_bytes < 2 ^ 64 → c.temporary_bytes + c.promised_bytes < 2 ^ 64

-- A test of a chain that failed, and the rest of the chain.
le_step : (a b : ℕ) (rest : Bool) → (ltb b a || rest) ≡ false → (a ≤ b) × (rest ≡ false)
le_step a b rest h = ground arith

checked_add-bound : (a b n : ℕ) → checked_add a b ≡ ok n → a < 2 ^ 64 → a + b < 2 ^ 64
unfolding checked_add
checked_add-bound a b n h small = elim (Bool-cases (ltb (2 ^ 64 - 1 - a) b)) [
  | inl over ↦ absurd (no_sum (rw over at h))
  | inr fits ↦ ground arith
]
  where
    no_sum : ◌≡◌ {A = Result ℕ} (err limit_exceeded) (ok n) → ⊥
    no_sum e = cc

check-IsWithinLimits : (c : Cost) (l : Limits) → check c l ≡ ok tt → IsWithinLimits l c
unfolding check
check-IsWithinLimits c l h =
    let (under, h1) = unit_step (refuse_if (is_over c l) limit_exceeded) _ h in
    let (n, sum, _) = >>=-eq-ok (checked_add c.temporary_bytes c.promised_bytes) _ h1 in
    let passed = refuse_if-passed _ limit_exceeded under in
    let (files, h2) = le_step c.files l.files _ passed in
    let (scan, h3) = le_step c.scanned_entries l.scan _ h2 in
    let (manifest, h4) = le_step c.manifest_size l.manifest _ h3 in
    let (tar, h5) = le_step c.tar_bytes l.tar _ h4 in
    let (count, h6) = le_step c.journal_count l.journal_count _ h5 in
    let (bytes, h7) = le_step c.journal_bytes l.journal_bytes _ h6 in
    let (evidence, h8) = le_step c.evidence_bytes l.evidence _ h7 in
    record {
      files = files;
      scan = scan;
      manifest = manifest;
      tar = tar;
      journal_count = count;
      journal_bytes = bytes;
      evidence = evidence;
      intent = not_ltb→le l.intent c.intent_bytes h8;
      staged = checked_add-bound _ _ n sum;
    }

-- The points in front of the receipt, at which a transaction can still be aborted.
unfoldable pub is_precommit : Text → Bool
unfolding text_eq has_prefix
is_precommit step =
    text_eq step (txt "descriptor-and-all-promised-artifacts")
    || has_prefix step (txt "durable-link:")

-- The peak of an abort at a point: the inventory that is charged there is the one from which the
-- UNPAUSE goes on.
pub record HasPeak (calls : CostCalls) (l : Limits) (head : Head) (q : Prefix) : Type 0 where
  pub peak : Cost
  pub listed : q.abort_to_unpause ≡ some peak
  pub at : Inventory
  pub after : Head
  pub charge : Charge
  pub costed : measure calls at after charge ≡ ok q.cost
  pub resumed : unpause_peak calls at head l ≡ ok peak
  pub within : IsWithinLimits l peak

-- A durable point whose cost is within the limits, and the peak of an abort there, if the store is paused
-- under a head and the point is in front of the receipt.
pub record IsAffordable (calls : CostCalls) (l : Limits) (paused : Option Head) (q : Prefix)
    : Type 0 where
  pub within : IsWithinLimits l q.cost
  pub abort :
      (head : Head) → paused ≡ some head → is_precommit q.step ≡ true → HasPeak calls l head q

measured-IsWithinLimits :
    (calls : CostCalls) (i : Inventory) (h : Head) (charge : Charge) (l : Limits) (c : Cost)
    → measured calls i h charge l ≡ ok c
    → IsWithinLimits l c
unfolding measured
measured-IsWithinLimits calls i h charge l c e =
    let (d, _, e1) = >>=-eq-ok (measure calls i h charge) _ e in
    let (checked, last) = unit_step (check d l) _ e1 in
    subst (λ x. IsWithinLimits l x) (same d c last) (check-IsWithinLimits d l checked)
  where
    same : (x y : Cost) → ◌≡◌ {A = Result Cost} (ok x) (ok y) → x ≡ y
    same x y e = cc

measured-measure :
    (calls : CostCalls) (i : Inventory) (h : Head) (charge : Charge) (l : Limits) (c : Cost)
    → measured calls i h charge l ≡ ok c
    → measure calls i h charge ≡ ok c
unfolding measured
measured-measure calls i h charge l c e =
    let (d, cost, e1) = >>=-eq-ok (measure calls i h charge) _ e in
    let (_, last) = unit_step (check d l) _ e1 in cost ∙ last

pub unpause_peak-IsWithinLimits :
    (calls : CostCalls) (i : Inventory) (h : Head) (l : Limits) (c : Cost)
    → unpause_peak calls i h l ≡ ok c
    → IsWithinLimits l c
unfolding unpause_peak
unpause_peak-IsWithinLimits calls i h l c e =
    let (s, _, e1) = >>=-eq-ok (reserve_unpause calls i h l) _ e in
    measured-IsWithinLimits calls s.0 s.1 unpause_charge l c e1

abort_peak-unpause_peak :
    (t : Terms) (i : Inventory) (b : Bool) (o : Option Cost) (head : Head)
    → t.abort_head ≡ some head
    → b ≡ true
    → abort_peak t i b ≡ ok o
    → (u : Cost) × (unpause_peak t.calls i head t.limits ≡ ok u) × (o ≡ some u)
unfolding abort_peak
abort_peak-unpause_peak t i false o head paused early e = cc
abort_peak-unpause_peak t i true o head paused early e =
    let (u, peak, last) =
      >>=-eq-ok (unpause_peak t.calls i head t.limits) (λ v. ok (some v))
        (rw (paused, abort_peak) at e) in
    (u, peak, same o (some u) last)
  where
    same : (x y : Option Cost) → ◌≡◌ {A = Result (Option Cost)} (ok y) (ok x) → x ≡ y
    same x y e = cc

-- The points of a walk.
abbrev pub ArePoints : Terms → Walk → Type 0
ArePoints t w = All (IsAffordable t.calls t.limits t.abort_head) w.points

same_ok : (x y : Walk) → ◌≡◌ {A = Result Walk} (ok x) (ok y) → x ≡ y
same_ok x y e = cc

pub record_point-ArePoints :
    (t : Terms) (charge : Charge) (b : Bool) (step : Text) (w v : Walk)
    → (is_precommit step ≡ true → b ≡ true)
    → ArePoints t w
    → record_point t charge b step w ≡ ok v
    → ArePoints t v
unfolding record_point measured
record_point-ArePoints t charge b step w v early all e =
    let (c, cost, e1) = >>=-eq-ok (measured t.calls w.working t.head charge t.limits) _ e in
    let (peak, abort, last) = >>=-eq-ok (abort_peak t w.working b) _ e1 in
    let point : IsAffordable t.calls t.limits t.abort_head
        (record { step = step; cost = c; abort_to_unpause = peak }) =
      record {
        within = measured-IsWithinLimits t.calls w.working t.head charge t.limits c cost;
        abort = λ head paused first.
            let (u, resumed, listed) =
              abort_peak-unpause_peak t w.working b peak head paused (early first) abort in
            record {
              peak = u;
              listed = listed;
              at = w.working;
              after = t.head;
              charge = charge;
              costed = measured-measure t.calls w.working t.head charge t.limits c cost;
              resumed = resumed;
              within = unpause_peak-IsWithinLimits t.calls w.working head t.limits u resumed;
            };
      } in
    subst (λ x. ArePoints t x) (same_ok _ v last) (point, all)

-- The points from the receipt on are not in front of it.
late_post : (s : Text) → is_precommit (txt "durable-post:" ++ s) ≡ true → false ≡ true
unfolding is_precommit
late_post s e = e

late_receipt : is_precommit (txt "durable-receipt-link") ≡ true → false ≡ true
unfolding is_precommit
late_receipt e = e

late_unlink : is_precommit (txt "durable-barrier-unlink") ≡ true → false ≡ true
unfolding is_precommit
late_unlink e = e

late_head : is_precommit (txt "durable-head") ≡ true → false ≡ true
unfolding is_precommit
late_head e = e

late_cleanup : is_precommit (txt "durable-staging-cleanup") ≡ true → false ≡ true
unfolding is_precommit
late_cleanup e = e

late_reserve : is_precommit (txt "reserved-fresh-UNPAUSE") ≡ true → false ≡ true
unfolding is_precommit
late_reserve e = e

link_evidence-ArePoints :
    (t : Terms) (charge : Charge) (posts : List Description) (w v : Walk)
    → ArePoints t w
    → link_evidence t charge posts w ≡ ok v
    → ArePoints t v
unfolding link_evidence
link_evidence-ArePoints t charge [] w v all e = subst (λ x. ArePoints t x) (same_ok w v e) all
link_evidence-ArePoints t charge (a ∷ more) w v all e =
    let (next, here, rest) = >>=-eq-ok (if is_evidence_target a then _ else ok w) _ e in
    link_evidence-ArePoints t charge more next v (linked (is_evidence_target a) here) rest
  where
    linked :
        {next : Walk} (b : Bool)
        → ◌≡◌ {A = Result Walk}
            (if b
              then (do
                i ← put w.working (entry a) true
                record_point t charge true
                    (txt "durable-link:" ++ a.target)
                    (record w { working = i }))
              else ok w)
            (ok next)
        → ArePoints t next
    linked {next} false e = subst (λ x. ArePoints t x) (same_ok w next e) all
    linked {next} true e =
        let (i, _, e1) = >>=-eq-ok (put w.working (entry a) true) _ e in
        record_point-ArePoints t charge true _ (record w { working = i }) next (λ _. refl) all e1

publish_posts-ArePoints :
    (t : Terms) (charge : Charge) (posts : List Description) (w v : Walk)
    → ArePoints t w
    → publish_posts t charge posts w ≡ ok v
    → ArePoints t v
unfolding publish_posts
publish_posts-ArePoints t charge [] w v all e = subst (λ x. ArePoints t x) (same_ok w v e) all
publish_posts-ArePoints t charge (a ∷ more) w v all e =
    let (i, _, e1) = >>=-eq-ok (put w.working (entry a) (is_exclusive a)) _ e in
    let (next, here, rest) =
      >>=-eq-ok
        (record_point t charge false (txt "durable-post:" ++ a.target) (record w { working = i })) _
        e1 in
    publish_posts-ArePoints t charge more next v
      (record_point-ArePoints t charge false _ (record w { working = i }) next (late_post a.target)
        all here)
      rest

unlink_barrier-ArePoints :
    (t : Terms) (charge : Charge) (step : Text) (b : Bool) (w v : Walk)
    → (is_precommit step ≡ true → false ≡ true)
    → ArePoints t w
    → unlink_barrier t charge step b w ≡ ok v
    → ArePoints t v
unfolding unlink_barrier without_barrier
unlink_barrier-ArePoints t charge step false w v late all e =
    subst (λ x. ArePoints t x) (same_ok w v e) all
unlink_barrier-ArePoints t charge step true w v late all e =
    record_point-ArePoints t charge false step (without_barrier w) v late all e

link_plan-ArePoints :
    (t : Terms) (p : FrozenPlan) (charge : Charge) (i : Inventory) (v : Walk)
    → link_plan t p charge i ≡ ok v
    → ArePoints t v
unfolding link_plan
link_plan-ArePoints t p charge i v e =
    let start : Walk = record { working = i; points = [] } in
    let (w0, s0, e0) =
      >>=-eq-ok (record_point t charge true (txt "descriptor-and-all-promised-artifacts") start) _
        e in
    let (w1, s1, e1) = >>=-eq-ok (link_evidence t charge p.artifacts w0) _ e0 in
    let (linked, _, e2) = >>=-eq-ok (link_receipt p.artifacts w1.working) _ e1 in
    let a0 = record_point-ArePoints t charge true _ start w0 (λ _. refl) tt s0 in
    let a1 = link_evidence-ArePoints t charge p.artifacts w0 w1 a0 s1 in
    record_point-ArePoints t charge false (txt "durable-receipt-link")
      (record w1 { working = linked }) v late_receipt a1 e2

write_head-ArePoints :
    (t : Terms) (p : FrozenPlan) (charge : Charge) (w v : Walk)
    → ArePoints t w
    → write_head t p charge w ≡ ok v
    → ArePoints t v
unfolding write_head
write_head-ArePoints t p charge w v all e =
    let point : Inventory → Result Walk =
      λ i. record_point t charge false (txt "durable-head") (record w { working = i }) in
    let cleaned : Walk → Result Walk =
      record_point t no_charge false (txt "durable-staging-cleanup") in
    let (i, _, e0) = >>=-eq-ok (put_head t.calls p.head w.working) (λ x. point x >>= cleaned) e in
    let with_head : Walk = record w { working = i } in
    let (headed, s1, e1) = >>=-eq-ok (point i) cleaned e0 in
    record_point-ArePoints t no_charge false (txt "durable-staging-cleanup") headed v late_cleanup
      (record_point-ArePoints t charge false _ with_head headed late_head all s1) e1

walk_plan-ArePoints :
    (t : Terms) (p : FrozenPlan) (charge : Charge) (i : Inventory) (v : Walk)
    → walk_plan t p charge i ≡ ok v
    → ArePoints t v
unfolding walk_plan
walk_plan-ArePoints t p charge i v e =
    let (w, s0, e0) = >>=-eq-ok (link_plan t p charge i) _ e in
    let ordered = sort_by (published_before w.working.files) (posts_of p.artifacts) in
    let (posted, s1, e1) = >>=-eq-ok (publish_posts t charge ordered w) _ e0 in
    let (unlinked, s2, e2) =
      >>=-eq-ok (unlink_barrier t charge (txt "durable-barrier-unlink") p.deletes_barrier posted) _
        e1 in
    let a0 = link_plan-ArePoints t p charge i w s0 in
    let a1 = publish_posts-ArePoints t charge ordered w posted a0 s1 in
    let a2 =
      unlink_barrier-ArePoints t charge _ p.deletes_barrier posted unlinked late_unlink a1 s2 in
    write_head-ArePoints t p charge unlinked v a2 e2

reserve_final-All :
    (t : Terms) (i : Inventory) (points out : List Prefix)
    → All (IsAffordable t.calls t.limits t.abort_head) points
    → reserve_final t i points ≡ ok out
    → All (IsAffordable t.calls t.limits t.abort_head) out
unfolding reserve_final
reserve_final-All t i [] out all e = cc
reserve_final-All t i (q ∷ qs) out all e =
    let (_, e1) = unit_step (journal_reserve q.cost (has_barrier i) t.limits) _ e in
    reserved (has_barrier i) e1
  where
    same : (x y : List Prefix) → ◌≡◌ {A = Result (List Prefix)} (ok x) (ok y) → x ≡ y
    same x y e = cc

    not_early : false ≡ true → ⊥
    not_early e = cc

    reserved :
        (b : Bool)
        → ◌≡◌ {A = Result (List Prefix)}
            (if b
              then (do
                u ← unpause_peak t.calls i t.head t.limits
                ok (
                    (record {
                      step = txt "reserved-fresh-UNPAUSE";
                      cost = u;
                      abort_to_unpause = none;
                    })
                    ∷ q
                    ∷ qs))
              else ok (q ∷ qs))
            (ok out)
        → All (IsAffordable t.calls t.limits t.abort_head) out
    reserved false e1 =
        subst (λ x. All (IsAffordable t.calls t.limits t.abort_head) x) (same _ out e1) all
    reserved true e1 =
        let (u, peak, last) = >>=-eq-ok (unpause_peak t.calls i t.head t.limits) _ e1 in
        let point : IsAffordable t.calls t.limits t.abort_head
            (record { step = txt "reserved-fresh-UNPAUSE"; cost = u; abort_to_unpause = none }) =
          record {
            within = unpause_peak-IsWithinLimits t.calls i t.head t.limits u peak;
            abort = λ head paused first. absurd (not_early (late_reserve first));
          } in
        subst (λ x. All (IsAffordable t.calls t.limits t.abort_head) x) (same _ out last)
          (point, all)

reversed-All {ℓ} :
    (P : Prefix → Type ℓ) (qs acc : List Prefix) → All P qs → All P acc → All P (reversed qs acc)
reversed-All P [] acc all done = done
reversed-All P (q ∷ qs) acc (here, all) done = reversed-All P qs (q ∷ acc) all (here, done)

-- The head under which the store of a plan is paused: that of the base, if there is a barrier.
abbrev pub paused_head : FrozenPlan → Head → Option Head
paused_head p h = if has_barrier p.base then some (head_or p.base_head h) else none

add_dir-files : (i : Inventory) (d : Text) → (add_dir i d).files ≡ i.files
add_dir-files i d = elim (Bool-cases (any (text_eq d) i.dirs)) [
  | inl there ↦ rw there refl
  | inr new ↦ rw new refl
]

-- When CheckCapacity accepts a plan, every durable point that it lists is within the limits: the
-- files, the scanned entries, the manifest and the archive, the journal, the evidence and the
-- intent tree. If there is a barrier in the base, each point in front of the receipt also lists
-- the peak of an UNPAUSE after an abort there: it is the one of the inventory whose cost the
-- point has, under the head of the base, and it is within the limits too.
pub check_capacity-All :
    (calls : CostCalls) (l : Limits) (p : FrozenPlan) (out : Capacity)
    → check_capacity calls l p ≡ ok out
    → (h : Head) × (decode_head p.head ≡ ok h)
      × All (IsAffordable calls l (paused_head p h)) out.prefixes
unfolding check_capacity
check_capacity-All calls l p out e =
    let (h, decoded, e0) = >>=-eq-ok (decode_head p.head) _ e in
    let working = add_dir p.base (txt "staging") in
    let base_head = head_or p.base_head h in
    let (base_cost, _, e1) = >>=-eq-ok (measure calls working base_head no_charge) _ e0 in
    let (_, e2) = unit_step (journal_reserve base_cost (has_barrier working) l) _ e1 in
    let (promised, _, e3) = >>=-eq-ok (sum_promised 0 p.artifacts) _ e2 in
    let (temporary, _, e4) = >>=-eq-ok (checked_add promised (2 * length p.descriptor)) _ e3 in
    let t : Terms = record {
      calls = calls;
      limits = l;
      head = h;
      abort_head = if has_barrier working then some base_head else none;
    } in
    let (w, walked, e5) = >>=-eq-ok (walk_plan t p (charge_of p promised temporary) working) _ e4 in
    let (points, reserve, last) = >>=-eq-ok (reserve_final t w.working w.points) _ e5 in
    let all = walk_plan-ArePoints t p (charge_of p promised temporary) working w walked in
    let listed : All (IsAffordable calls l t.abort_head) out.prefixes =
      subst (λ x. All (IsAffordable calls l t.abort_head) x.prefixes) (same _ out last)
        (reversed-All _ points [] (reserve_final-All t w.working w.points points all reserve) tt) in
    let paused : t.abort_head ≡ paused_head p h =
      ap (λ fs. if is_some (find_entry (txt "barrier.json") fs) then some base_head else none)
        (add_dir-files p.base (txt "staging")) in
    (h, decoded, subst (λ o. All (IsAffordable calls l o) out.prefixes) paused listed)
  where
    same : (x y : Capacity) → ◌≡◌ {A = Result Capacity} (ok x) (ok y) → x ≡ y
    same x y e = cc
