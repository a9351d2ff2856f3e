-- ===== src/Parsing/Legacy/Turns.antt =====
-- The user turns that the parser of the older logs counts, against the lines that name an initiator.
use copilot_token_cost.Prelude.{
  ℕ, ◌+◌, Bool, false, ◌||◌, Option, none, some, List, [], ◌∷◌, Bytes, codes, contains, keep,
  length, bytes_eq, if◌then◌else◌,
}
use copilot_token_cost.Domain.{Record}
use copilot_token_cost.Parsing.Expressions.{quoted}
use copilot_token_cost.Parsing.Content.{is_user_initiator}
use copilot_token_cost.Parsing.Window.{Log, read_timestamp, out_of_range}
use copilot_token_cost.Parsing.Legacy.{Scan}

abbrev pub user_turns : List Record → ℕ
user_turns records = length (keep (λ r. r.is_user_turn) records)

-- A line that says who asked: of the request processor, or a field of the telemetry.
abbrev pub names_initiator : Bytes → Bool
names_initiator line =
    contains line (codes "PremiumRequestProcessor: Setting X-Initiator")
    || contains line (quoted (codes "initiator"))

-- One, where the initiator is the user.
abbrev pending_turn : Scan → ℕ
pending_turn s = if is_user_initiator s.last_initiator then 1 else 0

abbrev emitted_turn : Option Record → ℕ
emitted_turn none = 0
emitted_turn (some r) = if r.is_user_turn then 1 else 0

-- The calls that can be turns of the user: the lines with `"completion_tokens"`, in range, that are the first
-- such line in or behind a line that names an initiator; one out of range, too, uses up the initiator that
-- stands in front of it. `asked` says whether an initiator is open, `last` is the time that was read last.
abbrev pub answered : Log → Bool → Bytes → List Bytes → ℕ
answered log asked last [] = 0
answered log asked last (line ∷ ls) =
    let at = read_timestamp line last in
    let due = asked || names_initiator line in
    let used_up = answered log false at ls in
    let waiting = answered log due at ls in
    if contains line (quoted (codes "completion_tokens"))
    then (if out_of_range log at then used_up else (if due then 1 else 0) + used_up)
    else waiting
