-- ===== src/Sse/Server.antt =====
-- `SSEServerResponse` of src/sse.ts: what the server writes to its stream.
pub mod Decimal
use kinetex.Base.{
  ℕ, ◌≤◌, Bool, true, false, ◌||◌, List, [], ◌∷◌, ◌++◌, Option, none, some, ◌==◌, if◌then◌else◌,
}
use kinetex.Sse.Lines.{Text, codes, lf, cr, nul, same, split_lines, all_lines}
use kinetex.Sse.{message}
use Decimal.{show_number}

-- `replace(/[\\r\\n\\u0000]/g, "")`
unfoldable pub as_field_value : Text → Text
as_field_value [] = []
as_field_value (c ∷ s) =
    if c == cr || (c == lf || c == nul) then as_field_value s else c ∷ as_field_value s

abbrev pub id_text : Option Text → Text
id_text none = []
id_text (some id) = codes "id: " ++ as_field_value id ++ lf ∷ []

abbrev pub event_text : Text → Text
event_text event =
    if same event message then [] else codes "event: " ++ as_field_value event ++ lf ∷ []

-- A delay that is a whole number and safe in the language, which prints it in decimal. (Larger numbers
-- it rounds, and from 10^21 on prints with an exponent.)
pub record Delay : Type 0 where
  pub ms : ℕ
  pub is_safe : ms ≤ 9007199254740991

abbrev pub retry_text : Option Delay → Text
retry_text none = []
retry_text (some d) = codes "retry: " ++ show_number d.ms ++ lf ∷ []

abbrev pub data_text : List Text → Text
data_text [] = []
data_text (l ∷ ls) = codes "data: " ++ l ++ lf ∷ data_text ls

-- The text that `sendEvent` enqueues.
unfoldable pub event_message : Text → Text → Option Text → Option Delay → Text
event_message event payload id retry =
    id_text id
    ++ (event_text event
        ++ (retry_text retry ++ (data_text (all_lines (split_lines payload)) ++ lf ∷ [])))

pub record Server : Type 0 where
  pub is_closed : Bool
  -- The chunks enqueued, newest first.
  pub enqueued : List Text

abbrev enqueue : Text → Server → Server
enqueue t s = if s.is_closed then s else record s { enqueued = t ∷ s.enqueued }

unfoldable pub send_event : Text → Text → Option Text → Option Delay → Server → Server
unfolding event_message
send_event event payload id retry s = enqueue (event_message event payload id retry) s

unfoldable pub send : Text → Option Text → Option Delay → Server → Server
unfolding send_event
send payload id retry s = send_event message payload id retry s

unfoldable pub comment : Text → Server → Server
unfolding as_field_value
comment t s = enqueue (codes ": " ++ as_field_value t ++ lf ∷ lf ∷ []) s

unfoldable pub heartbeat : Server → Server
unfolding comment
heartbeat s = comment (codes "heartbeat") s

unfoldable pub set_reconnect_delay : Delay → Server → Server
set_reconnect_delay d s = enqueue (codes "retry: " ++ show_number d.ms ++ lf ∷ lf ∷ []) s

unfoldable pub close : Server → Server
close s = record s { is_closed = true }
