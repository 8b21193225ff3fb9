-- ===== src/Wire/Ids.antt =====
-- internal/wire/ids.go: repository, queue and ticket identifiers.
pub mod RoundTrip
use corvint_tasks.Base.{List, [], ◌∷◌, ◌++◌, ltb, leb, length, any, drop}
use corvint_tasks.Text.{Text, txt, text_eq, has_prefix, split}
use corvint_tasks.Wire.Code.{Result, ok, err, malformed, limit_exceeded, require, refuse_if, ◌>>◌}
use corvint_tasks.Wire.Limits.{max_identifier_bytes, max_local_token_bytes}
use corvint_tasks.Wire.Primitives.{parse_token}

pub record QueueId : Type 0 where
  pub raw : Text
  pub authority : Text
  pub queue : Text

pub record TicketId : Type 0 where
  pub raw : Text
  pub authority : Text
  pub queue : Text
  pub local : Text

-- TicketID.QueueID
abbrev pub queue_id : TicketId → Text
queue_id t = txt "queue:" ++ (t.authority ++ (txt ":" ++ t.queue))

unfoldable pub check_id_length : Text → Result (Unit {0})
check_id_length s = do
  refuse_if (ltb max_identifier_bytes (length s)) limit_exceeded
  refuse_if (any (λ c. leb 0x80 c) s) malformed

unfoldable pub parse_repo_id : Text → Result Text
unfolding check_id_length parse_token has_prefix
parse_repo_id s = do
  check_id_length s
  require (has_prefix s (txt "repo:")) malformed
  parse_token (drop 5 s) max_identifier_bytes

queue_parts : Text → List Text → Result QueueId
unfolding parse_token
queue_parts s (kind ∷ authority ∷ queue ∷ []) = do
  require (text_eq kind (txt "queue")) malformed
  parse_token authority max_identifier_bytes
  parse_token queue max_identifier_bytes
  ok (record { raw = s; authority = authority; queue = queue })
queue_parts s _ = err malformed

unfoldable pub parse_queue_id : Text → Result QueueId
unfolding queue_parts check_id_length
parse_queue_id s = do check_id_length s; queue_parts s (split b':' s)

ticket_parts : Text → List Text → Result TicketId
unfolding parse_token
ticket_parts s (kind ∷ authority ∷ queue ∷ local ∷ []) = do
  require (text_eq kind (txt "ticket")) malformed
  parse_token authority max_identifier_bytes
  parse_token queue max_identifier_bytes
  parse_token local max_local_token_bytes
  ok (record { raw = s; authority = authority; queue = queue; local = local })
ticket_parts s _ = err malformed

unfoldable pub parse_ticket_id : Text → Result TicketId
unfolding ticket_parts check_id_length
parse_ticket_id s = do check_id_length s; ticket_parts s (split b':' s)
