-- ===== src/Examples/Capacity.antt =====
-- The cost of a concrete plan.
use corvint_tasks.Base.{◌≡◌, refl, true, false, ◌+◌, ◌*◌, none, some, is_some, map, [], ◌∷◌, All}
use corvint_tasks.Text.{txt, split}
use corvint_tasks.Wire.Code.{ok}
use corvint_tasks.Wire.Encode.{encode_file}
use corvint_tasks.Wire.Decimal.{parse_size, count_of}
use corvint_tasks.Samples.{sample_queue_id, zero_digest, zero_sum, sample_head}
use corvint_tasks.Snapshot.Head.{Head, head_value, decode_head}
use corvint_tasks.Archive.Manifest.{Manifest}
use corvint_tasks.Archive.Cost.{ManifestEncoding, measure_tar_bytes, measure_manifest_encoding}
use corvint_tasks.Archive.Cost.Exact.{IsMeasured, measure_manifest_encoding-IsMeasured}
use corvint_tasks.Transaction.Inventory.{FrozenPlan}
use corvint_tasks.Transaction.Capacity.{CostCalls, hard_limits, measure}
use corvint_tasks.Transaction.Capacity.Check.{Capacity, check_capacity}
use corvint_tasks.Transaction.Capacity.Check.Within.{IsAffordable, paused_head, check_capacity-All}

abbrev cost_calls : CostCalls
cost_calls = record { sum = zero_sum; header = λ name size. ok 512 }

-- A head that replaces none, over an empty store.
abbrev first_head : FrozenPlan
first_head = record {
  descriptor = txt "descriptor";
  receipt = txt "receipt";
  head = encode_file (head_value sample_head);
  artifacts = [];
  posts = λ _. [];
  deletes_barrier = false;
  base = record { files = []; dirs = [] };
  base_head = none;
}

first_head-costed : (out : Capacity) × (check_capacity cost_calls hard_limits first_head ≡ ok out)
unfolding check_capacity split measure decode_head
first_head-costed = (_, refl)

-- A head that replaces another one, over a store that is paused.
abbrev paused_plan : FrozenPlan
paused_plan = record first_head {
  base = record {
    files =
        record { path = txt "barrier.json"; bytes = 300; sha256 = zero_digest }
        ∷ record { path = txt "head.json"; bytes = 600; sha256 = zero_digest }
        ∷ [];
    dirs = txt "receipts" ∷ txt "requests" ∷ [];
  };
  base_head = some sample_head;
}

paused_plan-costed : (out : Capacity) × (check_capacity cost_calls hard_limits paused_plan ≡ ok out)
unfolding check_capacity split measure decode_head
paused_plan-costed = (_, refl)

-- The peak of an abort is there at the point of the descriptor, and at no later one.
paused_plan-peaks :
    map (λ q. is_some q.abort_to_unpause) paused_plan-costed.0.prefixes
    ≡ true ∷ false ∷ false ∷ false ∷ false ∷ []
unfolding check_capacity split measure decode_head paused_plan-costed
paused_plan-peaks = refl

check_capacity-All_example :
    (h : Head) × (decode_head paused_plan.head ≡ ok h)
    × All
        (IsAffordable cost_calls hard_limits (paused_head paused_plan h))
        paused_plan-costed.0.prefixes
check_capacity-All_example =
    check_capacity-All cost_calls hard_limits paused_plan paused_plan-costed.0 paused_plan-costed.1

-- A manifest of two files.
abbrev two_files : Manifest
two_files = record {
  queue_id = sample_queue_id;
  exported_at_seq = 1;
  head_sha256 = zero_digest;
  version_sha256 = zero_digest;
  barrier_sha256 = none;
  primary_worktree = txt "/w";
  intent_tree_sha256 = zero_digest;
  files =
      (record { path = txt "head.json"; bytes = 600; sha256 = zero_digest })
      ∷ (record { path = txt "VERSION"; bytes = 16; sha256 = zero_digest })
      ∷ [];
  receipt_count = 1;
  last_receipt_sha256 = zero_digest;
  head_generation = 0;
  complete = true;
}

two_files-measured :
    (e : ManifestEncoding) × (measure_manifest_encoding cost_calls.header two_files ≡ ok e)
unfolding measure_manifest_encoding split parse_size count_of
two_files-measured = (_, refl)

measure_manifest_encoding-IsMeasured_example :
    IsMeasured cost_calls.header two_files two_files-measured.0
measure_manifest_encoding-IsMeasured_example =
    measure_manifest_encoding-IsMeasured cost_calls.header two_files two_files-measured.0
      two_files-measured.1

-- Three headers, bodies of two, two and one blocks, and the end marker.
two_files-tar :
    measure_tar_bytes cost_calls.header 1000 two_files.files ≡ ok (3 * 512 + 5 * 512 + 1024)
unfolding measure_tar_bytes
two_files-tar = refl
