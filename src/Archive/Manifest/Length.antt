-- ===== src/Archive/Manifest/Length.antt =====
-- How many bytes the manifest of internal/archive/manifest.go is encoded in.
use corvint_tasks.Base.{
  ℕ, ◌+◌, ◌-◌, ◌≤◌, ◌≡◌, refl, ap, ◌∙◌, List, [], ◌∷◌, ◌++◌, map, arith, length, length-append,
  Bool-cases, inl, inr,
}
use corvint_tasks.Text.{Text, txt, text_eq, text_ltb}
use corvint_tasks.Wire.Decimal.{count_of}
use corvint_tasks.Wire.Value.{
  Value, Values, Members, arr, obj, nil, cons, end, member, array, object, set, str, string_or_null,
}
use corvint_tasks.Wire.Encode.{
  encode, encode_elements, encode_members, encode_string, encode_file, insert_key, sort_keys,
  join_members,
}
use corvint_tasks.Ticket.Inventory.Planning.{insert_by, sort_by}
use corvint_tasks.Archive.Manifest.{
  profile_archive, FileEntry, Manifest, entry_value, encoded_before, sort_files, manifest_value,
  manifest_bytes,
}

-- The bytes of the entries, each with a comma.
abbrev pub entries_size : List FileEntry → ℕ
entries_size [] = 0
entries_size (f ∷ fs) = length (encode (entry_value f)) + 1 + entries_size fs

-- The bytes of the members, each with its colon and a comma.
abbrev pairs_size : List (Text × Text) → ℕ
pairs_size [] = 0
pairs_size ((k, e) ∷ kvs) = length (encode_string k) + length e + 2 + pairs_size kvs

length-join_members :
    (kv : Text × Text) (kvs : List (Text × Text))
    → length (join_members (kv ∷ kvs)) + 1 ≡ pairs_size (kv ∷ kvs)
unfolding join_members
length-join_members (k, e) [] = omega (arith, length-append (encode_string k) (b':' ∷ e))
length-join_members (k, e) (kv ∷ kvs) = omega (
  arith,
  length-append (encode_string k) (b':' ∷ (e ++ (b',' ∷ join_members (kv ∷ kvs)))),
  length-append e (b',' ∷ join_members (kv ∷ kvs)),
  length-join_members kv kvs,
)

pairs_size-insert_key :
    (k e : Text) (kvs : List (Text × Text))
    → pairs_size (insert_key (k, e) kvs) ≡ length (encode_string k) + length e + 2 + pairs_size kvs
unfolding insert_key
pairs_size-insert_key k e [] = refl
pairs_size-insert_key k e ((j, f) ∷ rest) = elim (Bool-cases (text_ltb j k)) [
  | inl below ↦ rw below (omega (arith, pairs_size-insert_key k e rest))
  | inr above ↦ rw above refl
]

pairs_size-sort_keys : (kvs : List (Text × Text)) → pairs_size (sort_keys kvs) ≡ pairs_size kvs
unfolding sort_keys
pairs_size-sort_keys [] = refl
pairs_size-sort_keys ((k, e) ∷ kvs) =
    omega (arith, pairs_size-insert_key k e (sort_keys kvs), pairs_size-sort_keys kvs)

length-join : (kvs : List (Text × Text)) → length (join_members kvs) ≡ pairs_size kvs - 1
unfolding join_members
length-join [] = refl
length-join (kv ∷ kvs) = omega (arith, length-join_members kv kvs)

length-encode_members :
    (ms : Members) → length (encode (obj ms)) ≡ 2 + (pairs_size (encode_members ms) - 1)
unfolding encode
length-encode_members ms = omega (
  arith,
  length-append (join_members (sort_keys (encode_members ms))) (b'}' ∷ []),
  length-join (sort_keys (encode_members ms)),
  pairs_size-sort_keys (encode_members ms),
)

entries_size-insert_by :
    (f : FileEntry) (fs : List FileEntry)
    → entries_size (insert_by encoded_before f fs) ≡ entries_size (f ∷ fs)
unfolding insert_by
entries_size-insert_by f [] = refl
entries_size-insert_by f (g ∷ fs) = elim (Bool-cases (encoded_before g f)) [
  | inl before ↦ rw before (omega (arith, entries_size-insert_by f fs))
  | inr behind ↦ rw behind refl
]

entries_size-sort_files : (fs : List FileEntry) → entries_size (sort_files fs) ≡ entries_size fs
unfolding sort_files sort_by
entries_size-sort_files [] = refl
entries_size-sort_files (f ∷ fs) =
    omega (arith, entries_size-insert_by f (sort_by encoded_before fs), entries_size-sort_files fs)

-- The elements of an array, from a list.
abbrev as_values : List Value → Values
as_values [] = nil
as_values (v ∷ vs) = cons v (as_values vs)

array-as_values : (vs : List Value) → array vs ≡ arr (as_values vs)
unfolding array
array-as_values [] = refl
array-as_values (v ∷ vs) = ap (λ a. arr (cons v (elements_of a))) (array-as_values vs)
  where
    elements_of : Value → Values
    elements_of (arr xs) = xs
    elements_of w = nil

length-encode_elements :
    (f : FileEntry) (fs : List FileEntry)
    → length (encode_elements (as_values (map entry_value (f ∷ fs)))) + 1 ≡ entries_size (f ∷ fs)
unfolding encode
length-encode_elements f [] = omega arith
length-encode_elements f (g ∷ fs) = omega (
  arith,
  length-append (encode (entry_value f))
      (b',' ∷ encode_elements (as_values (map entry_value (g ∷ fs)))),
  length-encode_elements g fs,
)

length-encode_list :
    (fs : List FileEntry)
    → length (encode (arr (as_values (map entry_value fs)))) ≡ 2 + (entries_size fs - 1)
unfolding encode
length-encode_list [] = refl
length-encode_list (f ∷ fs) = omega (
  arith,
  length-append (encode_elements (as_values (map entry_value (f ∷ fs)))) (b']' ∷ []),
  length-encode_elements f fs,
)

length-encode_files :
    (fs : List FileEntry) → length (encode (array (map entry_value fs))) ≡ 2 + (entries_size fs - 1)
length-encode_files fs =
    ap (λ v. length (encode v)) (array-as_values (map entry_value fs)) ∙ length-encode_list fs

module _ (v1 v2 v3 v4 v5 v6 v7 v8 v9 v10 v11 v12 : Value) where
  -- The fields of a manifest, the files left open.
  abbrev fields : Value → List (Text × Value)
  fields x =
      (txt "profile", v1)
      ∷ (txt "queueId", v2)
      ∷ (txt "exportedAtSeq", v3)
      ∷ (txt "headSha256", v4)
      ∷ (txt "versionSha256", v5)
      ∷ (txt "barrierSha256", v6)
      ∷ (txt "primaryWorktree", v7)
      ∷ (txt "intentTreeSha256", v8)
      ∷ (txt "files", x)
      ∷ (txt "receiptCount", v9)
      ∷ (txt "lastReceiptSha256", v10)
      ∷ (txt "headGeneration", v11)
      ∷ (txt "complete", v12)
      ∷ []

  abbrev chain : Value → Members
  chain x = member (txt "profile") v1 (
      member (txt "queueId") v2 (
        member (txt "exportedAtSeq") v3 (
          member (txt "headSha256") v4 (
            member (txt "versionSha256") v5 (
              member (txt "barrierSha256") v6 (
                member (txt "primaryWorktree") v7 (
                  member (txt "intentTreeSha256") v8 (
                    member (txt "files") x (
                      member (txt "receiptCount") v9 (
                        member (txt "lastReceiptSha256") v10 (
                          member (txt "headGeneration") v11
                            (member (txt "complete") v12 (end)))))))))))))

  pairs_size-chain :
      (x y : Value)
      → pairs_size (encode_members (chain x)) + length (encode y)
        ≡ pairs_size (encode_members (chain y)) + length (encode x)
  unfolding encode
  pairs_size-chain x y = omega arith

  pairs_size-some : (z : Value) → 1 ≤ pairs_size (encode_members (chain z))
  unfolding encode
  pairs_size-some z = omega arith

  object-chain : (x : Value) → object (fields x) ≡ obj (chain x)
  unfolding object set text_eq
  object-chain x = refl

  -- An object is longer by what one of its members is longer.
  length-fields :
      (x y : Value)
      → length (encode (object (fields x))) + length (encode y)
        ≡ length (encode (object (fields y))) + length (encode x)
  length-fields x y =
      rw (object-chain x, object-chain y)
        (omega (
          arith,
          length-encode_members (chain x),
          length-encode_members (chain y),
          pairs_size-chain x y,
          pairs_size-some x,
          pairs_size-some y,
        ))

-- The fields of a manifest.
abbrev manifest_fields : Manifest → Value → List (Text × Value)
manifest_fields m =
    fields (str profile_archive) (str m.queue_id.raw) (str (count_of m.exported_at_seq))
      (str m.head_sha256) (str m.version_sha256) (string_or_null m.barrier_sha256)
      (str m.primary_worktree) (str m.intent_tree_sha256) (str (count_of m.receipt_count))
      (str m.last_receipt_sha256) (str (count_of m.head_generation)) (Value.bool m.complete)

manifest_value-fields :
    (m : Manifest)
    → manifest_value m ≡ object (manifest_fields m (array (map entry_value (sort_files m.files))))
unfolding manifest_value
manifest_value-fields m = refl

manifest_value-no_files :
    (m : Manifest)
    → manifest_value (record m { files = [] }) ≡ object (manifest_fields m (array []))
unfolding manifest_value
manifest_value-no_files m = refl

length-no_elements : length (encode (array [])) ≡ 2
unfolding encode array
length-no_elements = refl

length-encode_file : (v : Value) → length (encode_file v) ≡ length (encode v) + 1
unfolding encode_file
length-encode_file v = length-append (encode v) (10 ∷ [])

length-manifest_value :
    (m : Manifest)
    → length (encode (manifest_value m))
      ≡ length (encode (manifest_value (record m { files = [] }))) + (entries_size m.files - 1)
length-manifest_value m = omega (
  arith,
  ap (λ v. length (encode v)) (manifest_value-fields m),
  ap (λ v. length (encode v)) (manifest_value-no_files m),
  length-fields (str profile_archive) (str m.queue_id.raw) (str (count_of m.exported_at_seq))
      (str m.head_sha256) (str m.version_sha256) (string_or_null m.barrier_sha256)
      (str m.primary_worktree) (str m.intent_tree_sha256) (str (count_of m.receipt_count))
      (str m.last_receipt_sha256) (str (count_of m.head_generation)) (Value.bool m.complete)
      (array (map entry_value (sort_files m.files))) (array []),
  length-no_elements,
  length-encode_files (sort_files m.files),
  entries_size-sort_files m.files,
)

-- The manifest with its files is longer by its entries and the commas between them.
pub length-manifest_bytes :
    (m : Manifest)
    → length (manifest_bytes m)
      ≡ length (manifest_bytes (record m { files = [] })) + (entries_size m.files - 1)
unfolding manifest_bytes
length-manifest_bytes m = omega (
  arith,
  length-encode_file (manifest_value m),
  length-encode_file (manifest_value (record m { files = [] })),
  length-manifest_value m,
)
