-- ===== src/Examples/Transaction.antt =====
-- The staging area at concrete observations.
use corvint_tasks.Base.{
  ℕ, length, ◌++◌, ◌≤◌, ◌≡◌, refl, true, false, none, some, [], ◌∷◌, if◌then◌else◌,
}
use corvint_tasks.Text.{Text, txt, text_eq, split}
use corvint_tasks.Wire.Code.{ok, err, malformed, journal_forked}
use corvint_tasks.Samples.{sample_head, noon, zero_digest, zero_sum}
use corvint_tasks.Snapshot.Stage.{Descriptor, slot_name}
use corvint_tasks.Transaction.Stage.{
  StageCalls, Plan, StageFile, Observation, StageResult, full_plan_prepared, preparation_pending,
  active_name, complete_no_next, classify_stage,
}
use corvint_tasks.Transaction.Stage.Prepared.{IsPrepared, classify_stage-IsPrepared}
use corvint_tasks.Snapshot.Stage.{Description}
use corvint_tasks.Snapshot.Paths.{request_path, receipt_name, or_empty}
use corvint_tasks.Snapshot.Shape.{shape}
use corvint_tasks.Snapshot.Head.{head_value}
use corvint_tasks.Snapshot.Descriptor.{descriptor_value, decode_descriptor}
use corvint_tasks.Transaction.Stage.Codecs.{stage_calls}
use corvint_tasks.Wire.Encode.{encode_file}
use corvint_tasks.Wire.Primitives.{parse_digest, parse_path_text}
use corvint_tasks.Wire.Ids.{parse_queue_id}
use corvint_tasks.Wire.Decimal.{parse_size}
use corvint_tasks.Wire.Clock.{parse_timestamp}
use corvint_tasks.Snapshot.Shape.Bounds.{IsShaped, shape-IsShaped}
use corvint_tasks.Transaction.Cleanup.Promised.{promised_from-shape}
use corvint_tasks.Transaction.Cleanup.{
  promised_from, CleanupState, CleanupResult, held, model_ready, cleanup,
}
use corvint_tasks.Transaction.Cleanup.Accepted.{without_descriptor}
use corvint_tasks.Transaction.Cleanup.Ready.{cleanup-IsFree}
use corvint_tasks.Transaction.Cleanup.Steps.{Step, Steps, sync_payload, cleanup-Step}
use corvint_tasks.Transaction.Cleanup.Ends.{cleanup_can_end}
use corvint_tasks.Transaction.Recovery.{
  Receipt, RedoCalls, check_head, check_changes, validate_redo,
}
use corvint_tasks.Archive.Manifest.{FileEntry}
use corvint_tasks.Transaction.Inventory.{Inventory, FrozenPlan, matches}
use corvint_tasks.Transaction.Recovery.Redo.{IsCutOff, validate_redo-IsCutOff}

-- An artifact of three bytes.
abbrev pub described : ℕ → Text → Text → Description
described i role target = record {
  slot = slot_name i;
  role = role;
  target = target;
  sha256 = zero_digest;
  bytes = 3;
}

-- A descriptor of one artifact.
abbrev staged : Descriptor
staged = record {
  queue_id = txt "queue:acme:main";
  operation = txt "PAUSE";
  request_id = txt "r1";
  request_sha256 = zero_digest;
  recorded_at = noon;
  base = some (record { last_seq = 4; last_receipt_sha256 = zero_digest });
  artifacts = described 0 (txt "HEAD") (txt "head.json") ∷ [];
}

-- The codecs read one descriptor and one head.
abbrev sample_calls : StageCalls
sample_calls = record {
  sum = zero_sum;
  decode_descriptor = λ s. if text_eq s (txt "descriptor") then ok staged else err malformed;
  decode_head = λ s.
      if text_eq s (txt "head")
      then ok (record {
        queue_id = txt "queue:acme:main";
        last_seq = 4;
        last_receipt_sha256 = zero_digest;
      })
      else err malformed;
  stage_base = λ o p. ok tt;
}

abbrev active_file : StageFile
active_file = record { name = active_name; file_type = txt "REGULAR"; content = txt "descriptor" }

abbrev slot_file : StageFile
slot_file = record { name = slot_name 0; file_type = txt "REGULAR"; content = txt "abc" }

abbrev observed : Observation
observed = record {
  files = active_file ∷ slot_file ∷ [];
  base_state = txt "UNCHANGED";
  receipt_inventory = complete_no_next;
  premise = txt "OBSERVED_LOCAL_OPERATOR";
  linked_receipt = [];
  current_head = txt "head";
  projections = [];
}

abbrev frozen : Plan
frozen = record {
  descriptor = txt "descriptor";
  receipt = txt "receipt";
  head = txt "next";
  base_head = some (txt "head");
}

abbrev prepared : StageResult
prepared = record { kind = full_plan_prepared; temporary_bytes = 13; entries = 3 }

prepared_run : classify_stage sample_calls observed (some frozen) ≡ ok prepared
unfolding classify_stage
prepared_run = refl

classify_stage-IsPrepared_example : IsPrepared sample_calls observed frozen
classify_stage-IsPrepared_example =
    classify_stage-IsPrepared sample_calls observed frozen prepared prepared_run refl

abbrev all_removed : CleanupState
all_removed = record {
  removed = slot_name 0 ∷ [];
  payload_synced = false;
  descriptor_unlinked = false;
  descriptor_synced = false;
}

abbrev still_held : CleanupResult
still_held = record {
  temporary_bytes = 13;
  entries = 3;
  promised_bytes = 3;
  fresh_descriptor = held;
}

held_run : cleanup sample_calls observed all_removed ≡ ok still_held
unfolding cleanup
held_run = refl

abbrev all_done : CleanupState
all_done = record {
  removed = slot_name 0 ∷ [];
  payload_synced = true;
  descriptor_unlinked = true;
  descriptor_synced = true;
}

abbrev all_free : CleanupResult
all_free = record {
  temporary_bytes = 0;
  entries = 1;
  promised_bytes = 0;
  fresh_descriptor = model_ready;
}

free_run : cleanup sample_calls observed all_done ≡ ok all_free
unfolding cleanup
free_run = refl

cleanup-IsFree_example :
    (all_free.entries ≡ 1) × (all_free.temporary_bytes ≡ 0) × (all_free.promised_bytes ≡ 0)
cleanup-IsFree_example = cleanup-IsFree sample_calls observed all_done all_free free_run refl

cleanup_can_end_example :
    (r : StageResult) × (d : CleanupState) × (final : CleanupResult) × (classify_stage sample_calls
        observed none
      ≡ ok r)
    × Steps observed (without_descriptor r) all_removed d
    × (cleanup sample_calls observed d ≡ ok final)
    × (final.fresh_descriptor ≡ model_ready)
cleanup_can_end_example = cleanup_can_end sample_calls observed all_removed still_held held_run

abbrev pending : StageResult
pending = record { kind = preparation_pending; temporary_bytes = 13; entries = 3 }

pending_run : classify_stage sample_calls observed none ≡ ok pending
unfolding classify_stage
pending_run = refl

abbrev payload_gone : CleanupState
payload_gone = record all_removed { payload_synced = true }

payload-Step : Step observed false all_removed payload_gone
unfolding text_eq
payload-Step = sync_payload all_removed refl

cleanup-Step_example :
    (next : CleanupResult) × (cleanup sample_calls observed payload_gone ≡ ok next)
cleanup-Step_example =
    cleanup-Step sample_calls observed all_removed payload_gone pending still_held held_run
      pending_run payload-Step

-- A descriptor of PAUSE: the head, the barrier, the request entry and the receipt.
abbrev pub pause_descriptor : Descriptor
pause_descriptor = record staged {
  artifacts =
      described 0 (txt "HEAD") (txt "head.json")
      ∷ described 1 (txt "POST") (txt "barrier.json")
      ∷ described 2 (txt "POST") (or_empty (request_path zero_sum (txt "r1")))
      ∷ described 3 (txt "RECEIPT") (txt "receipts/000000000005.json")
      ∷ [];
}

pub pause_shape : shape zero_sum pause_descriptor ≡ ok tt
unfolding shape
pause_shape = refl

shape-IsShaped_example : IsShaped pause_descriptor
shape-IsShaped_example = shape-IsShaped zero_sum pause_descriptor pause_shape

promised_from-shape_example :
    (n : ℕ) × (promised_from 0 pause_descriptor.artifacts ≡ ok n) × (n ≤ 11534336)
promised_from-shape_example = promised_from-shape zero_sum pause_descriptor pause_shape

pause_decoded :
    decode_descriptor zero_sum (encode_file (descriptor_value pause_descriptor))
    ≡ ok pause_descriptor
unfolding decode_descriptor descriptor_value parse_queue_id split parse_size parse_timestamp
    request_path parse_digest
pause_decoded = refl

-- With the codecs of the snapshot package, the descriptor alone is a preparation that is pending.
pause_pending :
    (r : StageResult) × (classify_stage
        (stage_calls zero_sum (λ o p. ok tt))
        (record observed {
          current_head = encode_file (head_value (record sample_head { last_seq = 4 }));
          files =
              (record {
                name = active_name;
                file_type = txt "REGULAR";
                content = encode_file (descriptor_value pause_descriptor);
              })
              ∷ [];
        })
        none
      ≡ ok r)
unfolding classify_stage stage_calls head_value decode_descriptor descriptor_value parse_queue_id
    split parse_size parse_timestamp request_path parse_digest parse_path_text
pause_pending = (_, refl)

-- A file of these bytes.
abbrev kept_file : Text → Text → FileEntry
kept_file path raw = record { path = path; bytes = length raw; sha256 = zero_digest }

-- UNPAUSE, cut off before the barrier went.
abbrev cut_off : FrozenPlan
cut_off = record {
  receipt = txt "receipt";
  head = txt "new head";
  artifacts = [];
  posts = λ _. [];
  base = record {
    files =
        kept_file (txt "head.json") (txt "head") ∷ kept_file (txt "barrier.json") (txt "b") ∷ [];
    dirs = [];
  };
  base_head = some sample_head;
  descriptor = [];
  deletes_barrier = true;
}

abbrev left_over : Inventory
left_over = record {
  files =
      kept_file (txt "receipts/" ++ or_empty (receipt_name 5)) (txt "receipt")
      ∷ kept_file (txt "head.json") (txt "head")
      ∷ kept_file (txt "barrier.json") (txt "b")
      ∷ [];
  dirs = [];
}

abbrev unpause_receipt : Receipt
unpause_receipt = record {
  seq = 5;
  changes = (record { path = txt "barrier.json"; pre = some zero_digest; post = none }) ∷ [];
}

abbrev redo_calls : RedoCalls
redo_calls = record {
  sum = zero_sum;
  decode_receipt = λ s. if text_eq s (txt "receipt") then ok unpause_receipt else err malformed;
}

validate_redo-IsCutOff_example : (rc : Receipt) × IsCutOff redo_calls cut_off left_over rc
unfolding validate_redo check_head matches
validate_redo-IsCutOff_example = validate_redo-IsCutOff redo_calls cut_off left_over refl

-- The new head may not stand before the deletion.
redo_too_early :
    validate_redo redo_calls (record cut_off { head = txt "head" }) left_over ≡ err malformed
unfolding validate_redo check_head matches
redo_too_early = refl

-- Other bytes than the base and the receipt tell of.
redo_forked :
    validate_redo redo_calls cut_off (record left_over {
      files =
          kept_file (txt "receipts/" ++ or_empty (receipt_name 5)) (txt "receipt")
          ∷ kept_file (txt "head.json") (txt "head")
          ∷ (record {
            path = txt "barrier.json";
            bytes = 1;
            sha256 = txt "1111111111111111111111111111111111111111111111111111111111111111";
          })
          ∷ [];
    })
    ≡ err journal_forked
unfolding validate_redo check_changes
redo_forked = refl
