-- ===== src/Mutation/Context.antt =====
-- The context, the outcomes and the plan of internal/mutation (apply.go, outcome.go, replay.go).
-- SHA-256 is not code of the repository: it is the parameter `sum` wherever digests are taken.
use corvint_tasks.Base.{
  ◌≡◌, refl, Bool, true, false, Option, none, some, List, [], ◌∷◌, ◌&&◌, if◌then◌else◌, any,
}
use corvint_tasks.Text.{Text, text_eq}
use corvint_tasks.Wire.Code.{Code, Result, ok, err, malformed, unsupported_version}
use corvint_tasks.Wire.Decimal.{Count, Size}
use corvint_tasks.Wire.Primitives.{Digest, parse_label}
use corvint_tasks.Wire.Clock.{Timestamp, parse_timestamp}
use corvint_tasks.Ticket.Record.{Record}
use corvint_tasks.Ticket.Inventory.{Inventory}
use corvint_tasks.Queue.{
  Queue, Policy, Role, unknown, Operation, operation_eq, row, default_role_matrix,
}

-- The outcome values of taskman-outcome/0.
pub data OutcomeKind : Type 0 where
  completed revision_conflict validation_failed unauthorized blocked unsupported : OutcomeKind
  capacity_exhausted uncertain_effect request_id_conflict storage_failed : OutcomeKind

pub record Outcome : Type 0 where
  pub request_id : Text
  pub outcome : OutcomeKind
  pub replayed : Bool
  pub resulting_revision : Option Count
  pub resulting_acceptance_revision : Option Count
  pub release_id : Option Text
  pub resulting_release_revision : Option Count
  pub receipt_seq : Option Size
  pub codes : List Code

pub record Refusal : Type 0 where
  pub outcome : OutcomeKind
  pub code : Option Code

-- A step of the computation passes on a value, or refuses the mutation.
pub data Checked {ℓ} (A : Type ℓ) : Type ℓ where
  pass : A → Checked A
  refuse : Refusal → Checked A

infixl 5 ◌>>=◌
abbrev pub ◌>>=◌ {ℓ κ} :
    {A : Type ℓ} {B : Type κ} (m : Checked A) (next : A → Checked B) → Checked B
refuse why >>= next = refuse why
pass value >>= next = next value

infixl 5 ◌>>◌
abbrev pub ◌>>◌ {ℓ κ} : {A : Type ℓ} {B : Type κ} (m : Checked A) (next : Checked B) → Checked B
m >> next = m >>= λ value. next

-- The parts of a bind that passed.
pub >>=-eq-pass {ℓ κ} :
    {A : Type ℓ} {B : Type κ} {last : B} (m : Checked A) (next : A → Checked B)
    → (m >>= next) ≡ pass last
    → (value : A) × (m ≡ pass value) × (next value ≡ pass last)
>>=-eq-pass (refuse why) next done = cc
>>=-eq-pass (pass value) next done = (value, refl, done)

abbrev pub refusal : OutcomeKind → Code → Refusal
refusal outcome code = record { outcome = outcome; code = some code }

abbrev pub unauthorized_refusal : Refusal
unauthorized_refusal = record { outcome = OutcomeKind.unauthorized; code = none }

abbrev pub refuse_unless : Bool → Refusal → Checked (Unit {0})
refuse_unless true r = pass tt
refuse_unless false r = refuse r

abbrev pub refuse_when : Bool → Refusal → Checked (Unit {0})
refuse_when true r = refuse r
refuse_when false r = pass tt

-- refuseErr
abbrev pub refuse_err : Code → Refusal
refuse_err unsupported_version = refusal OutcomeKind.unsupported unsupported_version
refuse_err code = refusal OutcomeKind.validation_failed code

abbrev pub checked {ℓ} : {A : Type ℓ} → Result A → Checked A
checked (ok a) = pass a
checked (err code) = refuse (refuse_err code)

-- The trusted actor.
pub record Binding : Type 0 where
  pub id : Text
  pub role : Role

abbrev is_unknown : Role → Bool
is_unknown (unknown s) = true
is_unknown _ = false

abbrev is_empty_role : Role → Bool
is_empty_role (unknown s) = text_eq s []
is_empty_role _ = false

abbrev label_check : Result Text → Checked (Unit {0})
label_check (ok l) = pass tt
label_check (err code) = refuse unauthorized_refusal

-- Binding.validate
unfoldable pub validate_binding : Binding → Checked (Unit {0})
unfolding parse_label
validate_binding b = do
  refuse_when (text_eq b.id [] && is_empty_role b.role) unauthorized_refusal
  label_check (parse_label b.id)
  refuse_when (is_unknown b.role) unauthorized_refusal

pub data Observation : Type 0 where
  satisfied unsatisfied not_observed : Observation

-- The request index: a recorded entry, an absence, or an error of the lookup.
pub record IndexEntry : Type 0 where
  pub request_id : Text
  pub mutation_sha256 : Digest
  pub outcome : Outcome

abbrev pub RequestIndex : Type 0
RequestIndex = Text → Result (Option IndexEntry)

-- The facts of a mutation as the caller hands them over; a nil pointer or interface is `none`.
pub record Input : Type 0 where
  pub binding : Binding
  pub queue : Option Queue
  pub policy : Option Policy
  pub inventory : Option Inventory
  pub attempts : Option (Text → Observation)
  pub requests : Option RequestIndex
  pub now : Timestamp

-- The context once checkInputs has passed.
pub record Context : Type 0 where
  pub binding : Binding
  pub queue : Queue
  pub policy : Policy
  pub inventory : Inventory
  pub attempts : Option (Text → Observation)
  pub requests : RequestIndex
  pub now : Timestamp

abbrev missing_input : Refusal
missing_input = refusal OutcomeKind.validation_failed malformed

abbrev pub required {ℓ} : {A : Type ℓ} → Option A → Checked A
required none = refuse missing_input
required (some a) = pass a

-- Every failure of checkInputs is MALFORMED.
abbrev timestamp_check : Result Timestamp → Checked (Unit {0})
timestamp_check (ok t) = pass tt
timestamp_check (err code) = refuse missing_input

-- checkInputs
unfoldable pub check_inputs : Input → Checked Context
unfolding parse_timestamp
check_inputs inp = do
  queue ← required inp.queue
  policy ← required inp.policy
  inventory ← required inp.inventory
  requests ← required inp.requests
  refuse_unless (text_eq inventory.queue_id.raw queue.queue_id.raw) missing_input
  timestamp_check (parse_timestamp inp.now)
  pass (record {
    binding = inp.binding;
    queue = queue;
    policy = policy;
    inventory = inventory;
    attempts = inp.attempts;
    requests = requests;
    now = inp.now;
  })

-- permittedOps
unfoldable pub permitted_ops : Context → Role → List Operation
unfolding row
permitted_ops ctx role = elim (row role ctx.policy.roles) [
  | some ops ↦ ops
  | none ↦ default_role_matrix role
]

-- checkRole
unfoldable pub check_role : Context → Operation → Checked (Unit {0})
unfolding permitted_ops
check_role ctx op =
    refuse_unless (any (λ o. operation_eq o op) (permitted_ops ctx ctx.binding.role))
      unauthorized_refusal

pub record Plan : Type 0 where
  pub outcome : Outcome
  pub mutation_sha256 : Digest
  pub pre : Option Record
  pub post : Option Record
  pub queue_post : Option Queue

abbrev code_list : Option Code → List Code
code_list none = []
code_list (some c) = c ∷ []

-- refused
unfoldable pub refused : Plan → Refusal → Plan
refused plan r = record plan {
  outcome = record plan.outcome {
    outcome = r.outcome;
    replayed = false;
    resulting_revision = none;
    resulting_acceptance_revision = none;
    receipt_seq = none;
    codes = code_list r.code;
  };
  post = none;
  queue_post = none;
}

-- completed
unfoldable pub completed_plan : Plan → Record → Plan
completed_plan plan post = record plan {
  outcome = record plan.outcome {
    outcome = OutcomeKind.completed;
    replayed = false;
    resulting_revision = some post.revision;
    resulting_acceptance_revision = some post.acceptance_revision;
    receipt_seq = none;
    codes = [];
  };
  post = some post;
}

-- An outcome of the replay check that carries one code.
abbrev pub replay_failure : Text → OutcomeKind → Code → Outcome
replay_failure request_id kind code = record {
  request_id = request_id;
  outcome = kind;
  replayed = false;
  resulting_revision = none;
  resulting_acceptance_revision = none;
  release_id = none;
  resulting_release_revision = none;
  receipt_seq = none;
  codes = code ∷ [];
}

-- replay, on an index that is present: `none` lets the mutation go on
unfoldable pub replay : RequestIndex → Text → Digest → Option Outcome
replay index request_id digest = elim (index request_id) [
  | err code ↦ some (replay_failure request_id OutcomeKind.storage_failed code)
  | ok none ↦ none
  | ok (some e) ↦
      if text_eq e.mutation_sha256 digest
      then some (record e.outcome { replayed = true })
      else some (replay_failure request_id OutcomeKind.request_id_conflict Code.request_id_conflict)
]
