-- ===== src/Archive/Cost/Sums.antt =====
-- The sums of internal/archive/cost.go that have an answer.
use corvint_tasks.Base.{
  ℕ, ◌+◌, ◌-◌, ◌%◌, ◌/◌, ◌*◌, ◌^◌, ◌≤◌, ◌≡◌, sym, ◌∙◌, Bool, true, false, List, [], ◌∷◌, arith, ltb,
  leb, ◌==◌, length, if◌then◌else◌, Bool-cases, inl, inr, not_ltb→le,
}
use corvint_tasks.Text.{Text}
use corvint_tasks.Wire.Code.{
  Result, ok, err, malformed, limit_exceeded, require, refuse_if, >>=-eq-ok, unit_step,
  refuse_if-passed,
}
use corvint_tasks.Wire.Decimal.{count_of, decimal_shape, decimal_value, parse_size}
use corvint_tasks.Wire.Decimal.RoundTrip.{decimal_value-count_of}
use corvint_tasks.Wire.Encode.{encode}
use corvint_tasks.Archive.Manifest.{
  FileEntry, Manifest, max_archive_manifest_bytes, entry_value, manifest_bytes, decode_manifest,
}
use corvint_tasks.Archive.Manifest.Length.{entries_size}
use corvint_tasks.Archive.Cost.{
  checked_add, add_within, round_tar_body, bound_for, check_metadata, check_entry,
  validate_manifest_metadata, validate_manifest_files, measure_entries,
}

pub same_number : (x y : ℕ) → ◌≡◌ {A = Result ℕ} (ok x) (ok y) → x ≡ y
same_number x y e = cc

pub checked_add-eq : (a b n : ℕ) → checked_add a b ≡ ok n → n ≡ a + b
unfolding checked_add
checked_add-eq a b n e = by_test (ltb (2 ^ 64 - 1 - a) b) e
  where
    by_test :
        (over : Bool)
        → ◌≡◌ {A = Result ℕ} (if over then err limit_exceeded else ok (a + b)) (ok n)
        → n ≡ a + b
    by_test true e = cc
    by_test false e = cc

pub add_within-eq : (a b l n : ℕ) → add_within a b l ≡ ok n → (n ≡ a + b) × (n ≤ l)
unfolding add_within
add_within-eq a b l n e =
    let (m, sum, e1) = >>=-eq-ok (checked_add a b) _ e in
    let (under, last) = unit_step (refuse_if (ltb l m) limit_exceeded) _ e1 in
    let same = same_number m n last in
    (
      omega (arith, same, checked_add-eq a b m sum),
      omega (arith, same, not_ltb→le l m (refuse_if-passed _ limit_exceeded under)),
    )

-- The bytes of a body, padded to whole blocks.
abbrev pub rounded : ℕ → ℕ
rounded n = (n + 511) / 512 * 512

pub rounded-whole : (n : ℕ) → (n % 512 == 0) ≡ true → rounded n ≡ n
rounded-whole n h = ground arith

pub rounded-part : (n : ℕ) → (n % 512 == 0) ≡ false → rounded n ≡ n + (512 - n % 512)
rounded-part n h = ground arith

pub round_tar_body-eq : (n k : ℕ) → round_tar_body n ≡ ok k → k ≡ rounded n
unfolding round_tar_body
round_tar_body-eq n k e = elim (Bool-cases (n % 512 == 0)) [
  | inl whole ↦ sym (same_number n k (rw whole at e)) ∙ sym (rounded-whole n whole)
  | inr part ↦ checked_add-eq n (512 - n % 512) k (rw part at e) ∙ sym (rounded-part n part)
]

pub measure_entries-eq :
    (first : Bool) (n k : ℕ) (fs : List FileEntry)
    → measure_entries first n fs ≡ ok k
    → k ≡ n + (entries_size fs - (if first then 1 else 0))
unfolding measure_entries
measure_entries-eq true n k [] e = omega (arith, same_number n k e)
measure_entries-eq false n k [] e = omega (arith, same_number n k e)
measure_entries-eq true n k (f ∷ fs) e =
    let (m, step, e1) =
      >>=-eq-ok (add_within n (length (encode (entry_value f))) max_archive_manifest_bytes) _ e in
    omega (
      arith,
      (add_within-eq n (length (encode (entry_value f))) max_archive_manifest_bytes m step).0,
      measure_entries-eq false m k fs e1,
    )
measure_entries-eq false n k (f ∷ fs) e =
    let (j, comma, e0) = >>=-eq-ok (add_within n 1 max_archive_manifest_bytes) _ e in
    let (m, step, e1) =
      >>=-eq-ok (add_within j (length (encode (entry_value f))) max_archive_manifest_bytes) _ e0 in
    omega (
      arith,
      (add_within-eq n 1 max_archive_manifest_bytes j comma).0,
      (add_within-eq j (length (encode (entry_value f))) max_archive_manifest_bytes m step).0,
      measure_entries-eq false m k fs e1,
    )

-- The bytes of the files of a manifest.
abbrev pub body_bytes : List FileEntry → ℕ
body_bytes [] = 0
body_bytes (f ∷ fs) = f.bytes + body_bytes fs

-- The answer of a call that has one.
abbrev pub size_of : Result ℕ → ℕ
size_of (ok n) = n
size_of (err code) = 0

pub parse_size-eq : (n k : ℕ) → parse_size (count_of n) ≡ ok k → k ≡ n
unfolding parse_size
parse_size-eq n k e =
    let (_, e1) = unit_step (require (decimal_shape (count_of n)) malformed) _ e in
    let (_, e2) = unit_step (refuse_if (ltb 20 (length (count_of n))) malformed) _ e1 in
    let (_, e3) =
      unit_step (refuse_if (leb (2 ^ 64) (decimal_value (count_of n))) malformed) _ e2 in
    sym (same_number _ k e3) ∙ decimal_value-count_of n

pub validate_manifest_files-eq :
    (seen : List Text) (payload n : ℕ) (fs : List FileEntry)
    → validate_manifest_files seen payload fs ≡ ok n
    → n ≡ payload + body_bytes fs
unfolding validate_manifest_files
validate_manifest_files-eq seen payload n [] e = omega (arith, same_number payload n e)
validate_manifest_files-eq seen payload n (f ∷ fs) e =
    let (_, e0) = unit_step (check_entry seen f) _ e in
    let (bytes, read, e1) = >>=-eq-ok (parse_size (count_of f.bytes)) _ e0 in
    let (_, e2) = unit_step (refuse_if (ltb (2 ^ 63 - 1) bytes) limit_exceeded) _ e1 in
    let (_, e3) = unit_step (refuse_if (ltb (bound_for f.path) bytes) limit_exceeded) _ e2 in
    let (total, sum, e4) = >>=-eq-ok (checked_add payload bytes) _ e3 in
    omega (
      arith,
      parse_size-eq f.bytes bytes read,
      checked_add-eq payload bytes total sum,
      validate_manifest_files-eq (f.path ∷ seen) total n fs e4,
    )

pub validate_manifest_files-all :
    (n : ℕ) (fs : List FileEntry) → validate_manifest_files [] 0 fs ≡ ok n → n ≡ body_bytes fs
validate_manifest_files-all n fs e = omega (arith, validate_manifest_files-eq [] 0 n fs e)

pub validate_manifest_metadata-eq :
    (m : Manifest) (empty : Text)
    → validate_manifest_metadata m ≡ ok empty
    → empty ≡ manifest_bytes (record m { files = [] })
unfolding validate_manifest_metadata
validate_manifest_metadata-eq m empty e =
    let raw = manifest_bytes (record m { files = [] }) in
    let (_, e0) = unit_step (check_metadata m) _ e in
    let (_, e1) =
      unit_step (refuse_if (ltb max_archive_manifest_bytes (length raw)) limit_exceeded) _ e0 in
    let (_, _, last) = >>=-eq-ok (decode_manifest raw) (λ _. ok raw) e1 in same raw empty last
  where
    same : (x y : Text) → ◌≡◌ {A = Result Text} (ok x) (ok y) → y ≡ x
    same x y h = cc
