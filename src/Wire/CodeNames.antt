-- ===== src/Wire/CodeNames.antt =====
-- Codes of internal/wire/codes.go: the closed set of detail codes, by their names.
use corvint_tasks.Base.{Bool, List, [], ◌∷◌, any}
use corvint_tasks.Text.{Text, txt, text_eq}

-- Codes
abbrev pub code_names : List Text
code_names =
    txt "ADJUDICATION"
    ∷ txt "ADOPT_UNSUPPORTED_FIELD"
    ∷ txt "APPROVAL_MISSING"
    ∷ txt "APPROVAL_REVOKED"
    ∷ txt "ATTEMPT_LIVE"
    ∷ txt "BOOT_FENCED"
    ∷ txt "BOOT_TIMEOUT"
    ∷ txt "BUDGET_EXCEEDED"
    ∷ txt "BUDGET_UNKNOWN"
    ∷ txt "CAPABILITY_UNAVAILABLE"
    ∷ txt "CEM_MISSING"
    ∷ txt "CONTAMINATED"
    ∷ txt "COVERAGE_UNKNOWN"
    ∷ txt "CUTOVER_IN_PROGRESS"
    ∷ txt "CUTOVER_MISSING"
    ∷ txt "CYCLE"
    ∷ txt "DEPENDENCY_MISSING"
    ∷ txt "DEPENDENCY_UNSATISFIED"
    ∷ txt "DEVELOPMENT_MODE"
    ∷ txt "DIRTY_WORKTREE"
    ∷ txt "DOCS_MISSING"
    ∷ txt "DUPLICATE_ID"
    ∷ txt "EFFECT_OWNED"
    ∷ txt "EXTERNAL_UNBOUNDED"
    ∷ txt "FENCED"
    ∷ txt "GATE_FAILED"
    ∷ txt "GATE_STALE"
    ∷ txt "GATE_UNKNOWN"
    ∷ txt "INDEPENDENCE_UNVERIFIED"
    ∷ txt "INTENT_BRANCH_MISMATCH"
    ∷ txt "INTENT_DIVERGED"
    ∷ txt "INVALID_PRIORITY"
    ∷ txt "JOURNAL_FORKED"
    ∷ txt "JOURNAL_SATURATED"
    ∷ txt "LIMIT_EXCEEDED"
    ∷ txt "LOCK_TIMEOUT"
    ∷ txt "MALFORMED"
    ∷ txt "MISSING_EVIDENCE"
    ∷ txt "MISSING_GATE"
    ∷ txt "NOEXEC"
    ∷ txt "OCM_MISSING"
    ∷ txt "OUT_OF_SCOPE"
    ∷ txt "PAUSED"
    ∷ txt "PLAN_STALE"
    ∷ txt "QUIESCENCE_UNPROVED"
    ∷ txt "REDO_PENDING"
    ∷ txt "REQUEST_ID_CONFLICT"
    ∷ txt "RESOURCE_COLLISION"
    ∷ txt "RESTORED"
    ∷ txt "RESTORE_INCOMPLETE"
    ∷ txt "RETRY_EXHAUSTED"
    ∷ txt "REVIEW_INCOMPLETE"
    ∷ txt "REVIEW_REJECTED"
    ∷ txt "SIGNAL_REFUSED_IDENTITY"
    ∷ txt "SNAPSHOT_MOVED"
    ∷ txt "STALE_POLICY"
    ∷ txt "STALE_TICKET"
    ∷ txt "STALE_TREE"
    ∷ txt "SUPERVISOR_LOST"
    ∷ txt "SURVIVORS"
    ∷ txt "TICKET_HELD"
    ∷ txt "TICKET_STATE"
    ∷ txt "UNCERTAIN_EFFECT"
    ∷ txt "UNINITIALIZED"
    ∷ txt "UNPUBLISHED"
    ∷ txt "UNRESOLVED_FINDING"
    ∷ txt "UNSUPPORTED"
    ∷ txt "UNSUPPORTED_FILESYSTEM"
    ∷ txt "UNSUPPORTED_VERSION"
    ∷ []

-- IsCode
unfoldable pub is_code : Text → Bool
unfolding text_eq
is_code s = any (text_eq s) code_names
