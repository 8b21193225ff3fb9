-- ===== src/Transaction/Cleanup/Promised.antt =====
-- The bytes that a descriptor promises, as Cleanup of internal/transaction/stage.go adds them up.
use corvint_tasks.Base.{ℕ, ◌+◌, ◌*◌, ◌≤◌, ◌≡◌, refl, List, [], ◌∷◌, arith, length}
use corvint_tasks.Text.{Text}
use corvint_tasks.Wire.Code.{ok}
use corvint_tasks.Wire.Primitives.{Digest}
use corvint_tasks.Snapshot.Stage.{Description, Descriptor}
use corvint_tasks.Snapshot.Shape.{shape}
use corvint_tasks.Snapshot.Shape.Bounds.{AllSmall, shape-IsShaped, stage_limits_le}
use corvint_tasks.Transaction.Stage.{add}
use corvint_tasks.Transaction.Cleanup.{promised_from}

add_small : (a b : ℕ) → a ≤ 1000000000 → b ≤ 1048576 → add a b ≡ ok (a + b)
unfolding add
add_small a b h k = ground arith

promised_from_small :
    (total : ℕ) (ds : List Description)
    → AllSmall ds
    → total + length ds * 1048576 ≤ 1000000000
    → (n : ℕ) × (promised_from total ds ≡ ok n) × (n ≤ total + length ds * 1048576)
unfolding promised_from
promised_from_small total [] small fits = (total, refl, omega arith)
promised_from_small total (a ∷ more) (here, small) fits =
    let (n, sum, le) =
      promised_from_small (total + a.bytes) more small (omega (arith, here, fits)) in
    (n, rw (add_small total a.bytes (omega (arith, fits)) here) sum, omega (arith, le, here))

-- The bytes that a descriptor promises never overflow when shape accepts it: Cleanup adds them up to at most
-- 11 MiB.
pub promised_from-shape :
    (sum : Text → Digest) (d : Descriptor)
    → shape sum d ≡ ok tt
    → (n : ℕ) × (promised_from 0 d.artifacts ≡ ok n) × (n ≤ 11534336)
promised_from-shape sum d h =
    let shaped = shape-IsShaped sum d h in
    let most = stage_limits_le d.operation in
    let (n, total, le) =
      promised_from_small 0 d.artifacts shaped.small (omega (arith, shaped.few, most)) in
    (n, total, omega (arith, le, shaped.few, most))
