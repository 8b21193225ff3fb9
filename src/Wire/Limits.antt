-- ===== src/Wire/Limits.antt =====
-- internal/wire/limits.go: the frozen numeric limits that the modelled parts consult.
use corvint_tasks.Base.{ℕ, ◌*◌}

abbrev pub kib : ℕ
kib = 1024

abbrev pub max_identifier_bytes : ℕ
max_identifier_bytes = 128

abbrev pub max_label_bytes : ℕ
max_label_bytes = 64

abbrev pub max_local_token_bytes : ℕ
max_local_token_bytes = 64

abbrev pub max_request_id_bytes : ℕ
max_request_id_bytes = 64

abbrev pub max_path_text_bytes : ℕ
max_path_text_bytes = 4096

abbrev pub max_title_bytes : ℕ
max_title_bytes = 512

abbrev pub max_body_bytes : ℕ
max_body_bytes = 64 * kib

abbrev pub max_criterion_bytes : ℕ
max_criterion_bytes = 4 * kib

abbrev pub max_prose_bytes : ℕ
max_prose_bytes = 64 * kib

abbrev pub max_ticket_file_bytes : ℕ
max_ticket_file_bytes = 128 * kib

abbrev pub max_acceptance_criteria : ℕ
max_acceptance_criteria = 64

abbrev pub max_dependencies : ℕ
max_dependencies = 64

abbrev pub max_requirement_refs : ℕ
max_requirement_refs = 64

abbrev pub max_resources : ℕ
max_resources = 64

abbrev pub max_approvals : ℕ
max_approvals = 64

abbrev pub max_touch_paths : ℕ
max_touch_paths = 256

abbrev pub max_labels : ℕ
max_labels = 32

abbrev pub max_holds : ℕ
max_holds = 16

abbrev pub max_required_gates : ℕ
max_required_gates = 32

abbrev pub max_capabilities : ℕ
max_capabilities = 32

abbrev pub max_tickets_per_queue : ℕ
max_tickets_per_queue = 10000

abbrev pub max_json_depth : ℕ
max_json_depth = 24

abbrev pub max_json_array_elements : ℕ
max_json_array_elements = 10000

abbrev pub max_json_nodes : ℕ
max_json_nodes = 250000

abbrev pub max_count_value : ℕ
max_count_value = 2147483647
