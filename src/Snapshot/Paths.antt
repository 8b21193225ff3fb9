-- ===== src/Snapshot/Paths.antt =====
-- The names of receipts and request entries: internal/snapshot/head.go and receipt.go, and ParseRequestID of
-- internal/mutation/mutation.go. SHA-256 is the parameter `sum`.
use corvint_tasks.Base.{ℕ, zero, suc, ◌-◌, [], ◌∷◌, ◌++◌, ltb, length, take, drop, if◌then◌else◌}
use corvint_tasks.Text.{Text, txt, text_eq, has_prefix}
use corvint_tasks.Wire.Code.{Result, ok, err, malformed, limit_exceeded, refuse_if, ◌>>=◌, ◌>>◌}
use corvint_tasks.Wire.Limits.{max_request_id_bytes}
use corvint_tasks.Wire.Decimal.{count_of}
use corvint_tasks.Wire.Primitives.{Digest, parse_identifier}

-- ParseRequestID
unfoldable pub parse_request_id : Text → Result Text
unfolding parse_identifier
parse_request_id s = do
  id ← parse_identifier s
  refuse_if (ltb max_request_id_bytes (length id)) limit_exceeded
  ok id

abbrev zeros : ℕ → Text
zeros zero = []
zeros (suc n) = b'0' ∷ zeros n

-- ReceiptName
unfoldable pub receipt_name : ℕ → Result Text
unfolding count_of
receipt_name seq =
    if ltb 999999999999 seq
    then err malformed
    else ok (zeros (12 - length (count_of seq)) ++ (count_of seq ++ txt ".json"))

-- RequestPath
unfoldable pub request_path : (Text → Digest) → Text → Result Text
unfolding parse_request_id
request_path sum id = do
  parse_request_id id
  ok (txt "requests/" ++ (take 2 (sum id) ++ (txt "/" ++ (sum id ++ txt ".json"))))

-- A result whose error is ignored.
abbrev pub or_empty : Result Text → Text
or_empty (ok s) = s
or_empty (err code) = []

-- strings.TrimPrefix
unfoldable pub trim_prefix : Text → Text → Text
unfolding has_prefix
trim_prefix s prefix = if has_prefix s prefix then drop (length prefix) s else s

-- strings.TrimSuffix
unfoldable pub trim_suffix : Text → Text → Text
unfolding text_eq
trim_suffix s suffix =
    let n = length s - length suffix in if text_eq (drop n s) suffix then take n s else s
