-- ===== src/Mutation/RoundTrips.antt =====
-- Operations that undo each other: ARCHIVE and RESTORE, HOLD and RELEASE_HOLD.
use corvint_tasks.Base.{
  ℕ, ◌+◌, Bool, Option, ap, ◌∙◌, ◌≡◌, ◌≢◌, refl, sym, true, false, none, some, List, [], ◌∷◌, ◌++◌,
  ◌||◌, arith, ltb, length,
}
use corvint_tasks.Text.{Text, text_eq_refl}
use corvint_tasks.Ticket.Names.{Status, open_status, held, archived, is_open, is_held, is_archived}
use corvint_tasks.Ticket.Record.{Record, Hold, effective_status, acceptance_values, record_bytes}
use corvint_tasks.Queue.{Operation}
use corvint_tasks.Mutation.Payload.{Payload, operation, hold, release_hold, reason}
use corvint_tasks.Mutation.Context.{pass, refuse, Checked, Context, check_role}
use corvint_tasks.Mutation.Finalize.{chain_fields, forces_acceptance_bump, acceptance_changed}
use corvint_tasks.Mutation.Apply.{mutate}
use corvint_tasks.Mutation.Chain.{mutate_parts, acceptance_kept}
use corvint_tasks.Wire.Primitives.{Digest}
use corvint_tasks.Mutation.Step.{
  step, perform, restrict, check_tombstone, place_hold, lift_hold, new_hold, change_state,
  last_index, remove_at, hold_ids, open_if_free,
}
use corvint_tasks.Mutation.Lifecycle.{IsLifecycle, step_parts, tombstone_restores}

module _ (ctx : Context) (id why : Text) where
  -- A hold that is appended is the last one with its id.
  last_index-hold_ids :
      (hs : List Hold)
      → last_index id (hold_ids (hs ++ new_hold ctx id why ∷ [])) ≡ some (length hs)
  unfolding last_index
  last_index-hold_ids [] = rw (text_eq_refl id) refl
  last_index-hold_ids (h ∷ hs) = rw (last_index-hold_ids hs) refl

  remove_at-length : (hs : List Hold) → remove_at (length hs) (hs ++ new_hold ctx id why ∷ []) ≡ hs
  unfolding remove_at
  remove_at-length [] = refl
  remove_at-length (h ∷ hs) = rw (remove_at-length hs) refl

  -- A ticket that may be held is OPEN when it has no hold, and HELD otherwise.
  free_status :
      (s : Status) (hs : List Hold)
      → is_held s ≡ ltb 0 (length hs)
      → (is_open s || is_held s) ≡ true
      → open_if_free hs held ≡ s
  free_status open_status [] e t = refl
  free_status held [] e t = cc
  free_status open_status (h ∷ hs) e t = ground arith
  free_status held (h ∷ hs) e t = refl
  free_status _ hs e t = cc

live_effective :
    (work : Record)
    → IsLifecycle work
    → is_archived work.status ≡ false
    → effective_status work ≡ work.status
unfolding effective_status
live_effective work v live = ground arith

holdable : (s : Status) → (is_open s || is_held s) ≡ true → is_archived s ≡ false
holdable s h = ground arith

-- What place_hold checks, and what it makes.
pub place_hold_parts :
    (ctx : Context) (work out : Record) (id why : Text)
    → place_hold ctx work id why ≡ pass out
    → ((is_open work.status || is_held work.status) ≡ true)
      × (out ≡ record work { status = held; holds = work.holds ++ new_hold ctx id why ∷ [] })
unfolding place_hold
place_hold_parts ctx work out id why h = (ground arith, ground arith)

-- A step whose checks pass is its operation.
step_permitted :
    (ctx : Context) (work post : Record) (p : Payload)
    → check_role ctx (operation p) ≡ pass tt
    → restrict ctx.binding.role work p ≡ pass tt
    → check_tombstone work p ≡ pass tt
    → perform ctx work p ≡ pass post
    → step ctx work p ≡ pass post
unfolding step
step_permitted ctx work post p role own alive done = rw (role, own, alive) done

-- A mutation is refused, or it makes this record.
abbrev pub MakesOnly : Checked Record → Record → Type 0
MakesOnly (pass made) r = made ≡ r
MakesOnly (refuse why) r = Unit

-- The record after two mutations that undo each other: two revisions on, behind the record
-- between them, stamped by the later context.
abbrev pub two_on : (Text → Digest) → Context → (pre between : Record) → (acceptance : ℕ) → Record
two_on sum later pre between acceptance = record pre {
  revision = pre.revision + 2;
  acceptance_revision = acceptance;
  previous_record_sha256 = some (sum (record_bytes between));
  updated_at = later.now;
  updated_by = later.binding.id;
}

makes_only :
    (c : Checked Record) (r : Record) → ((made : Record) → c ≡ pass made → made ≡ r) → MakesOnly c r
makes_only (pass made) r all = all made refl
makes_only (refuse why) r all = tt

-- The hold that HOLD has placed on a record, whatever chain fields were written behind it.
lift_placed :
    (ctx : Context) (id why : Text) (work on : Record)
    → IsLifecycle work
    → (is_open work.status || is_held work.status) ≡ true
    → on.status ≡ held
    → on.holds ≡ work.holds ++ new_hold ctx id why ∷ []
    → lift_hold on id ≡ pass (record on { status = work.status; holds = work.holds })
unfolding lift_hold
lift_placed ctx id why work on v free status holds =
    let effective = live_effective work v (holdable work.status free) in
    let held_iff : is_held work.status ≡ ltb 0 (length work.holds) = rw effective at v.held_iff in
    rw
      (
        status,
        holds,
        last_index-hold_ids ctx id why work.holds,
        holds,
        remove_at-length ctx id why work.holds,
        status,
        free_status ctx id why work.status work.holds held_iff free,
      )
      refl

archive_parts :
    (work out : Record)
    → change_state work Operation.archive ≡ pass out
    → out ≡ record work { archived_from = some work.status; status = archived }
unfolding change_state
archive_parts work out h = ground arith

archivable :
    (work : Record) (why : Text)
    → IsLifecycle work
    → check_tombstone work (reason Operation.archive why) ≡ pass tt
    → work.archived_from ≡ none
unfolding check_tombstone
archivable work why v h = ground arith

placed_by :
    (ctx : Context) (pre work : Record) (id why : Text)
    → step ctx pre (hold id why) ≡ pass work
    → place_hold ctx pre id why ≡ pass work
unfolding perform
placed_by ctx pre work id why h = (step_parts ctx pre work (hold id why) h).3

lifted_by :
    (ctx : Context) (on out : Record) (id : Text)
    → lift_hold on id ≡ pass out
    → perform ctx on (release_hold id) ≡ pass out
unfolding perform
lifted_by ctx on out id h = h

-- The chain fields of the second mutation, on a record that is otherwise the one from before.
two_links :
    (sum : Text → Digest) (later : Context) (pre on : Record) (revision acceptance a : ℕ)
    → revision ≡ pre.revision + 2
    → acceptance ≡ a
    → record pre {
      revision = revision;
      acceptance_revision = acceptance;
      previous_record_sha256 = some (sum (record_bytes on));
      updated_at = later.now;
      updated_by = later.binding.id;
    }
      ≡ two_on sum later pre on a
two_links sum later pre on revision acceptance a r e = rw (r, e) refl

-- The acceptance-relevant values are not those that these operations change.
held_values :
    (r : Record) (hs : List Hold)
    → acceptance_values r ≡ acceptance_values (record r { status = held; holds = hs })
unfolding acceptance_values
held_values r hs = refl

freed_values :
    (r : Record) (s : Status) (hs : List Hold)
    → acceptance_values r ≡ acceptance_values (record r { status = s; holds = hs })
unfolding acceptance_values
freed_values r s hs = refl

-- A mutation whose step is known and leaves the acceptance-relevant values alone.
mutate_link :
    (sum : Text → Digest) (ctx : Context) (pre work post : Record) (p : Payload)
    → mutate sum ctx pre p ≡ pass post
    → step ctx pre p ≡ pass work
    → acceptance_values pre ≡ acceptance_values work
    → post ≡ chain_fields sum ctx pre work (forces_acceptance_bump (operation p))
mutate_link sum ctx pre work post p h done kept =
    let (stepped, e, made) = mutate_parts sum ctx pre post p h in
    let same : stepped ≡ work = pass_injective stepped work (sym e ∙ done) in
    made
    ∙ ap
        (λ r.
          chain_fields sum ctx pre r
            (forces_acceptance_bump (operation p) || acceptance_changed pre r))
        same
    ∙ ap (λ b. chain_fields sum ctx pre work b)
        (ap (λ c. forces_acceptance_bump (operation p) || c) (acceptance_kept pre work kept)
          ∙ or_false (forces_acceptance_bump (operation p)))
  where
    pass_injective : (a b : Record) → ◌≡◌ {A = Checked Record} (pass a) (pass b) → a ≡ b
    pass_injective a b e = cc

    or_false : (b : Bool) → (b || false) ≡ b
    or_false true = refl
    or_false false = refl

held_passes : (r : Record) (p : Payload) → r.status ≡ held → check_tombstone r p ≡ pass tt
unfolding check_tombstone
held_passes r p e = rw e refl

-- HOLD and RELEASE_HOLD of the same hold, as mutations one after the other, of a ticket that
-- keeps the lifecycle. For a role that may lift the hold, the step of the release is not refused:
-- the status and the holds are again those from before the HOLD. Finalize may still refuse the
-- release; the record that it makes otherwise is the one from before the HOLD, two revisions on,
-- with the digest of the held record and the stamp of the release.
pub hold-release_hold :
    (sum : Text → Digest) (ctx later : Context) (pre on : Record) (id why : Text)
    → IsLifecycle pre
    → mutate sum ctx pre (hold id why) ≡ pass on
    → check_role later Operation.release_hold ≡ pass tt
    → restrict later.binding.role on (release_hold id) ≡ pass tt
    → (step later on (release_hold id)
        ≡ pass (record on { status = pre.status; holds = pre.holds }))
      × MakesOnly
          (mutate sum later on (release_hold id))
          (two_on sum later pre on pre.acceptance_revision)
hold-release_hold sum ctx later pre on id why v h role own =
    let (work, placed, _) = mutate_parts sum ctx pre on (hold id why) h in
    let (free, done) =
      place_hold_parts ctx pre work id why (placed_by ctx pre work id why placed) in
    let made =
      mutate_link sum ctx pre work on (hold id why) h placed (rw done (held_values pre _)) in
    let on_eq : on
        ≡ chain_fields sum ctx pre
            (record pre { status = held; holds = pre.holds ++ new_hold ctx id why ∷ [] }) false =
      rw done at made in
    let lifted =
      lift_placed ctx id why pre on v free (ap (λ (r : Record). r.status) on_eq)
        (ap (λ (r : Record). r.holds) on_eq) in
    let live : check_tombstone on (release_hold id) ≡ pass tt =
      held_passes on (release_hold id) (ap (λ (r : Record). r.status) on_eq) in
    let stepped =
      step_permitted later on _ (release_hold id) role own live (lifted_by later on _ id lifted) in
    (
      stepped,
      makes_only _ _ (λ back e.
          mutate_link sum later on _ back (release_hold id) e stepped (freed_values on _ _)
          ∙ ap
              (λ r.
                chain_fields sum later on (record r { status = pre.status; holds = pre.holds })
                  false)
              on_eq
          ∙ two_links sum later pre on _ _ pre.acceptance_revision
              (omega (arith, ap (λ (r : Record). r.revision) on_eq))
              (ap (λ (r : Record). r.acceptance_revision) on_eq)),
    )

archived_by :
    (ctx : Context) (pre work : Record) (why : Text)
    → step ctx pre (reason Operation.archive why) ≡ pass work
    → change_state pre Operation.archive ≡ pass work
unfolding perform
archived_by ctx pre work why h = (step_parts ctx pre work (reason Operation.archive why) h).3

restored_by :
    (ctx : Context) (on : Record) (from : Status) (why : Text)
    → on.status ≡ archived
    → on.archived_from ≡ some from
    → perform ctx on (reason Operation.restore why)
      ≡ pass (record on { status = from; archived_from = none })
unfolding perform change_state
restored_by ctx on from why status origin = rw (status, origin) refl

restore_passes :
    (r : Record) (why : Text) → check_tombstone r (reason Operation.restore why) ≡ pass tt
unfolding check_tombstone
restore_passes r why = ground arith

tombstone_values :
    (r : Record) (s : Status) (from : Option Status)
    → acceptance_values r ≡ acceptance_values (record r { status = s; archived_from = from })
unfolding acceptance_values
tombstone_values r s from = refl

-- ARCHIVE and RESTORE, as mutations one after the other, of a ticket that keeps the lifecycle.
-- The tombstone between them refuses every other operation. For a role that may restore, the step
-- of the RESTORE is not refused: the status is again the one from before. Finalize may still
-- refuse; the record that it makes otherwise is the one from before the ARCHIVE, two revisions
-- and one acceptance revision on, with the digest of the tombstone and the stamp of the RESTORE.
pub archive-restore :
    (sum : Text → Digest) (ctx later : Context) (pre on : Record) (why again : Text)
    → IsLifecycle pre
    → mutate sum ctx pre (reason Operation.archive why) ≡ pass on
    → check_role later Operation.restore ≡ pass tt
    → restrict later.binding.role on (reason Operation.restore again) ≡ pass tt
    → ((p : Payload) (post : Record)
        → operation p ≢ Operation.restore
        → step later on p ≢ pass post)
      × (step later on (reason Operation.restore again)
          ≡ pass (record on { status = pre.status; archived_from = none }))
      × MakesOnly
          (mutate sum later on (reason Operation.restore again))
          (two_on sum later pre on (pre.acceptance_revision + 1))
archive-restore sum ctx later pre on why again v h role own =
    let archive = reason Operation.archive why in
    let restore = reason Operation.restore again in
    let (work, placed, _) = mutate_parts sum ctx pre on archive h in
    let done = archive_parts pre work (archived_by ctx pre work why placed) in
    let alive = archivable pre why v (step_parts ctx pre work archive placed).2 in
    let made =
      mutate_link sum ctx pre work on archive h placed (rw done (tombstone_values pre _ _)) in
    let on_eq : on
        ≡ chain_fields sum ctx pre
            (record pre { archived_from = some pre.status; status = archived }) false =
      rw done at made in
    let status : on.status ≡ archived = ap (λ (r : Record). r.status) on_eq in
    let restored =
      restored_by later on pre.status again status (ap (λ (r : Record). r.archived_from) on_eq) in
    let stepped = step_permitted later on _ restore role own (restore_passes on again) restored in
    (
      λ p post other g.
          other (tombstone_restores on p (step_parts later on post p g).2 (ap is_archived status)),
      stepped,
      makes_only _ _ (λ back e.
          mutate_link sum later on _ back restore e stepped (tombstone_values on _ _)
          ∙ ap
              (λ r.
                chain_fields sum later on (record r { status = pre.status; archived_from = none })
                  true)
              on_eq
          ∙ ap (λ o. chain_fields sum later on (record pre { archived_from = o }) true) (sym alive)
          ∙ two_links sum later pre on _ _ (pre.acceptance_revision + 1)
              (omega (arith, ap (λ (r : Record). r.revision) on_eq))
              (ap (λ (r : Record). r.acceptance_revision + 1) on_eq)),
    )
