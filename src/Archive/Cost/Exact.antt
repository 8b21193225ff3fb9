-- ===== src/Archive/Cost/Exact.antt =====
-- The measurements of internal/archive/cost.go against the bytes that an archive consists of.
use corvint_tasks.Base.{
  ℕ, ◌+◌, ◌-◌, ◌^◌, ◌≤◌, ◌≡◌, refl, sym, ap, ◌∙◌, true, List, [], ◌∷◌, arith, ltb, length,
}
use corvint_tasks.Text.{Text}
use corvint_tasks.Wire.Code.{Result, ok, limit_exceeded, refuse_if, >>=-eq-ok, unit_step}
use mathlib.Core.Path.{subst}
use corvint_tasks.Archive.Manifest.{
  FileEntry, Manifest, max_archive_files, manifest_name, manifest_bytes,
}
use corvint_tasks.Archive.Manifest.Length.{length-manifest_bytes}
use corvint_tasks.Archive.Cost.{
  ManifestEncoding, max_archive_bytes, tar_trailer_bytes, add_archive_bytes, round_tar_body,
  validate_manifest_metadata, validate_manifest_files, measure_entries, measure_manifest_bytes,
  measure_header_bytes, measure_bodies, measure_tar_bytes, measure_manifest_encoding,
}
use corvint_tasks.Archive.Cost.Sums.{
  same_number, add_within-eq, rounded, round_tar_body-eq, measure_entries-eq, body_bytes, size_of,
  validate_manifest_files-all, validate_manifest_metadata-eq,
}

module _ (header : Text → ℕ → Result ℕ) where
  -- The bytes of a file in the archive: its header and its padded body.
  abbrev pub framed : Text → ℕ → ℕ
  framed name size = size_of (header name size) + rounded size

  abbrev pub framed_files : List FileEntry → ℕ
  framed_files [] = 0
  framed_files (f ∷ fs) = framed f.path f.bytes + framed_files fs

  measure_header_bytes-eq :
      (name : Text) (size n : ℕ)
      → measure_header_bytes header name size ≡ ok n
      → n ≡ size_of (header name size)
  unfolding measure_header_bytes
  measure_header_bytes-eq name size n e =
      let (_, last) = unit_step (refuse_if (ltb (2 ^ 63 - 1) size) limit_exceeded) _ e in
      sym (ap size_of last)

  -- A file behind the bytes so far.
  add_framed :
      (name : Text) (size total head body half n : ℕ)
      → measure_header_bytes header name size ≡ ok head
      → round_tar_body size ≡ ok body
      → add_archive_bytes total head ≡ ok half
      → add_archive_bytes half body ≡ ok n
      → n ≡ total + framed name size
  unfolding add_archive_bytes
  add_framed name size total head body half n h b e f = omega (
    arith,
    measure_header_bytes-eq name size head h,
    round_tar_body-eq size body b,
    (add_within-eq total head max_archive_bytes half e).0,
    (add_within-eq half body max_archive_bytes n f).0,
  )

  measure_bodies-eq :
      (total n : ℕ) (fs : List FileEntry)
      → measure_bodies header total fs ≡ ok n
      → n ≡ total + framed_files fs
  unfolding measure_bodies
  measure_bodies-eq total n [] e = omega (arith, same_number total n e)
  measure_bodies-eq total n (f ∷ fs) e =
      let (head, h, e0) = >>=-eq-ok (measure_header_bytes header f.path f.bytes) _ e in
      let (body, b, e1) = >>=-eq-ok (round_tar_body f.bytes) _ e0 in
      let (half, s, e2) = >>=-eq-ok (add_archive_bytes total head) _ e1 in
      let (next, r, e3) = >>=-eq-ok (add_archive_bytes half body) _ e2 in
      omega (
        arith,
        add_framed f.path f.bytes total head body half next h b s r,
        measure_bodies-eq next n fs e3,
      )

  measure_tar_bytes-eq :
      (manifest n : ℕ) (fs : List FileEntry)
      → measure_tar_bytes header manifest fs ≡ ok n
      → (n ≡ framed manifest_name manifest + framed_files fs + tar_trailer_bytes)
        × (n ≤ max_archive_bytes)
  unfolding measure_tar_bytes add_archive_bytes
  measure_tar_bytes-eq manifest n fs e =
      let (head, h, e0) = >>=-eq-ok (measure_header_bytes header manifest_name manifest) _ e in
      let (body, b, e1) = >>=-eq-ok (round_tar_body manifest) _ e0 in
      let (half, s, e2) = >>=-eq-ok (add_archive_bytes 0 head) _ e1 in
      let (whole, r, e3) = >>=-eq-ok (add_archive_bytes half body) _ e2 in
      let (total, t, e4) = >>=-eq-ok (measure_bodies header whole fs) _ e3 in
      let (sum, bound) = add_within-eq total tar_trailer_bytes max_archive_bytes n e4 in
      (
        omega (
          arith,
          sum,
          add_framed manifest_name manifest 0 head body half whole h b s r,
          measure_bodies-eq whole total fs t,
        ),
        bound,
      )

  -- What MeasureManifestEncoding tells of a manifest: the number of its files and their bytes, the length
  -- of the encoded manifest, and that of the archive.
  pub record IsMeasured (m : Manifest) (e : ManifestEncoding) : Type 0 where
    pub files : e.files ≡ length m.files
    pub payload : e.payload_bytes ≡ body_bytes m.files
    pub manifest : e.manifest_size ≡ length (manifest_bytes m)
    pub archive :
        e.tar_bytes
        ≡ framed manifest_name (length (manifest_bytes m))
          + framed_files m.files
          + tar_trailer_bytes
    pub bound : e.tar_bytes ≤ max_archive_bytes

  -- When MeasureManifestEncoding accepts a manifest, the sizes that it computes without building the
  -- manifest are exact: the payload is the sum of the files, the size of the manifest is the length of what
  -- Encode writes, and the size of the archive is the sum of the headers, of the bodies padded to blocks of
  -- 512 bytes and of the end marker, at most the bound.
  pub measure_manifest_encoding-IsMeasured :
      (m : Manifest) (e : ManifestEncoding)
      → measure_manifest_encoding header m ≡ ok e
      → IsMeasured m e
  unfolding measure_manifest_encoding measure_manifest_bytes
  measure_manifest_encoding-IsMeasured m e h =
      let (_, h0) =
        unit_step (refuse_if (ltb max_archive_files (length m.files)) limit_exceeded) _ h in
      let (empty, checked, h1) = >>=-eq-ok (validate_manifest_metadata m) _ h0 in
      let (payload, paid, h2) = >>=-eq-ok (validate_manifest_files [] 0 m.files) _ h1 in
      let (size, sized, h3) = >>=-eq-ok (measure_entries true (length empty) m.files) _ h2 in
      let (tar, measured, last) = >>=-eq-ok (measure_tar_bytes header size m.files) _ h3 in
      let (sum, bound) = measure_tar_bytes-eq size tar m.files measured in
      let whole : size ≡ length (manifest_bytes m) = omega (
        arith,
        measure_entries-eq true (length empty) size m.files sized,
        ap length (validate_manifest_metadata-eq m empty checked),
        length-manifest_bytes m,
      ) in
      subst (λ x. IsMeasured m x) (same _ e last)
        (record {
          files = refl;
          payload = validate_manifest_files-all payload m.files paid;
          manifest = whole;
          archive =
              sum
              ∙ ap (λ n. framed manifest_name n + framed_files m.files + tar_trailer_bytes) whole;
          bound = bound;
        })
    where
      same : (x y : ManifestEncoding) → ◌≡◌ {A = Result ManifestEncoding} (ok x) (ok y) → x ≡ y
      same x y q = cc
