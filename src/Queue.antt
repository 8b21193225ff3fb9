-- ===== src/Queue.antt =====
-- internal/intent: the queue manifest (queue.go) and what mutations read of the policy (policy.go).
use corvint_tasks.Base.{
  ℕ, Bool, true, false, Option, none, some, List, [], ◌∷◌, ◌==◌, if◌then◌else◌,
}
use corvint_tasks.Text.{Text, text_eq}
use corvint_tasks.Wire.Decimal.{Count}
use corvint_tasks.Wire.Primitives.{Digest}
use corvint_tasks.Wire.Clock.{Timestamp}
use corvint_tasks.Wire.Ids.{QueueId}

pub data CanonicalWriter : Type 0 where
  native roadmap foreign : CanonicalWriter

pub data BarrierReason : Type 0 where
  cutover emergency none_set : BarrierReason

pub record ExecutionCutover : Type 0 where
  pub enabled_by : Text
  pub decision_ref : Text
  pub gate_evidence : List Digest

pub record WriteBarrier : Type 0 where
  pub reason : BarrierReason
  pub since : Option Timestamp

pub record Queue : Type 0 where
  pub queue_id : QueueId
  pub repository_authority_id : Text
  pub prefix : Text
  pub next_serial : Count
  pub schema_version : Text
  pub canonical_writer : CanonicalWriter
  pub foreign_adapter_id : Option Text
  pub intent_branch : Text
  pub fixture : Bool
  pub execution_cutover : Option ExecutionCutover
  pub import_map_sha256 : Option Digest
  pub write_barrier : WriteBarrier

-- Operations
pub data Operation : Type 0 where
  create refine prioritize set_dependencies set_gates set_effects hold release_hold : Operation
  reopen archive restore complete_manual grant_approval revoke_approval : Operation
  release_create release_update release_candidate release_external_attest : Operation
  release_manual_attest release_promote : Operation

-- Roles, and any other string that a binding may name as its role
pub data Role : Type 0 where
  owner operator worker reviewer importer system : Role
  unknown : Text → Role

abbrev operation_index : Operation → ℕ
operation_index create = 0
operation_index refine = 1
operation_index prioritize = 2
operation_index set_dependencies = 3
operation_index set_gates = 4
operation_index set_effects = 5
operation_index hold = 6
operation_index release_hold = 7
operation_index reopen = 8
operation_index archive = 9
operation_index restore = 10
operation_index complete_manual = 11
operation_index grant_approval = 12
operation_index revoke_approval = 13
operation_index release_create = 14
operation_index release_update = 15
operation_index release_candidate = 16
operation_index release_external_attest = 17
operation_index release_manual_attest = 18
operation_index release_promote = 19

abbrev pub operation_eq : Operation → Operation → Bool
operation_eq a b = operation_index a == operation_index b

abbrev pub role_eq : Role → Role → Bool
role_eq owner owner = true
role_eq operator operator = true
role_eq worker worker = true
role_eq reviewer reviewer = true
role_eq importer importer = true
role_eq system system = true
role_eq (unknown s) (unknown t) = text_eq s t
role_eq _ _ = false

abbrev pub operations : List Operation
operations =
    create ∷ refine ∷ prioritize ∷ set_dependencies ∷ set_gates ∷ set_effects ∷ hold ∷ release_hold
    ∷ reopen ∷ archive ∷ restore ∷ complete_manual ∷ grant_approval ∷ revoke_approval
    ∷ release_create ∷ release_update ∷ release_candidate ∷ release_external_attest
    ∷ release_manual_attest ∷ release_promote ∷ []

-- DefaultRoleMatrix; a role that it does not name has no operation
abbrev pub default_role_matrix : Role → List Operation
default_role_matrix owner = operations
default_role_matrix operator =
    create ∷ refine ∷ prioritize ∷ set_dependencies ∷ set_gates ∷ set_effects ∷ hold ∷ release_hold
    ∷ reopen ∷ archive ∷ restore ∷ complete_manual ∷ grant_approval ∷ revoke_approval
    ∷ release_create ∷ release_update ∷ release_candidate ∷ release_external_attest ∷ []
default_role_matrix importer = create ∷ refine ∷ []
default_role_matrix worker = refine ∷ []
default_role_matrix system = hold ∷ []
default_role_matrix reviewer = []
default_role_matrix (unknown s) = []

-- What mutations read of a policy: the rows of `roles`, and the ids of its gates.
pub record Policy : Type 0 where
  pub roles : List (Role × List Operation)
  pub gate_ids : List Text

unfoldable pub row : Role → List (Role × List Operation) → Option (List Operation)
row r [] = none
row r ((q, ops) ∷ rest) = if role_eq q r then some ops else row r rest
