-- ===== src/Mutation/Memory.antt =====
-- MemoryIndex of internal/mutation/replay.go, the append-only index in memory.
use corvint_tasks.Base.{
  ◌≡◌, ◌≢◌, refl, sym, Bool, true, false, Option, none, some, List, [], ◌∷◌, if◌then◌else◌,
  Bool-cases, inl, inr, arith, length, ℕ, ◌+◌,
}
use corvint_tasks.Text.{Text, text_eq, text_eq→eq, text_eq_refl}
use corvint_tasks.Wire.Code.{Result, ok, err, malformed, refuse_if, ◌>>◌}
use corvint_tasks.Wire.Code.{Code}
use corvint_tasks.Mutation.Context.{IndexEntry}

-- The map `entries`, which is `none` when it is nil.
pub record MemoryIndex : Type 0 where
  pub entries : Option (List IndexEntry)

-- NewMemoryIndex
abbrev pub new_memory_index : MemoryIndex
new_memory_index = record { entries = some [] }

unfoldable pub entry_at : Text → List IndexEntry → Option IndexEntry
entry_at id [] = none
entry_at id (e ∷ es) = if text_eq e.request_id id then some e else entry_at id es

-- MemoryIndex.Lookup
unfoldable pub lookup : MemoryIndex → Text → Result (Option IndexEntry)
unfolding entry_at
lookup m id = elim m.entries [ none ↦ err malformed | some es ↦ ok (entry_at id es) ]

abbrev entries_of : MemoryIndex → List IndexEntry
entries_of m = elim m.entries [ none ↦ [] | some es ↦ es ]

abbrev is_recorded : Text → List IndexEntry → Bool
is_recorded id es = elim (entry_at id es) [ none ↦ false | some e ↦ true ]

-- MemoryIndex.Record
unfoldable pub record_entry : MemoryIndex → IndexEntry → Result MemoryIndex
unfolding entry_at
record_entry m e = do
  refuse_if (is_recorded e.request_id (entries_of m)) Code.request_id_conflict
  ok (record { entries = some (e ∷ entries_of m) })

-- MemoryIndex.Len
abbrev pub len : MemoryIndex → ℕ
len m = length (entries_of m)

record_parts :
    (m after : MemoryIndex) (e : IndexEntry)
    → record_entry m e ≡ ok after
    → (after ≡ record { entries = some (e ∷ entries_of m) })
      × (is_recorded e.request_id (entries_of m) ≡ false)
unfolding record_entry
record_parts m after e h = (ground arith, ground arith)

-- Once an entry is recorded, the lookup of its identity gives it back, and a second record under this
-- identity is refused as a conflict; the lookup of any other identity gives what the map held
-- before. The index grows by one.
pub record_entry-lookup :
    (m after : MemoryIndex) (e : IndexEntry)
    → record_entry m e ≡ ok after
    → (lookup after e.request_id ≡ ok (some e))
      × ((id : Text) → id ≢ e.request_id → lookup after id ≡ ok (entry_at id (entries_of m)))
      × ((again : IndexEntry)
          → again.request_id ≡ e.request_id
          → record_entry after again ≡ err Code.request_id_conflict)
      × (len after ≡ len m + 1)
unfolding lookup record_entry
record_entry-lookup m after e h =
    let made = (record_parts m after e h).0 in
    (
      rw (made, text_eq_refl e.request_id) refl,
      λ id ne. elim (Bool-cases (text_eq e.request_id id)) [
        | inl same ↦ absurd (ne (sym (text_eq→eq e.request_id id same)))
        | inr other ↦ rw (made, other) refl
      ],
      λ again same. rw (made, same, is_recorded, text_eq_refl e.request_id) refl,
      rw made (omega arith),
    )
