-- ===== src/Sse.antt =====
-- The event-stream parser `SSEParser` of src/sse.ts.
pub mod Lines
pub mod Chunks
pub mod Server
pub mod Messages
pub mod RoundTrip
use kinetex.Base.{
  ℕ, ◌+◌, ◌-◌, ◌*◌, Bool, true, false, ◌&&◌, not, List, [], ◌∷◌, ◌++◌, Option, none, some, leb,
  ◌==◌, if◌then◌else◌,
}
use Lines.{Text, codes, same, contains, nul, bom, split_lines, join_lines, Split}

pub record Event : Type 0 where
  pub id : Option Text
  pub event : Text
  pub payload : Text
  pub retry : Option ℕ
  pub raw : List Text

pub record Parser : Type 0 where
  pub lines : List Text
  pub id : Option Text
  pub event : Text
  pub payload : List Text
  pub retry : Option ℕ
  pub buffer : Text

abbrev pub message : Text
message = codes "message"

unfoldable pub init : Parser
init = record { lines = []; id = none; event = message; payload = []; retry = none; buffer = [] }

-- `reset`; the source writes out the same fields.
abbrev pub reset : Parser → Parser
reset p = record p {
  lines = [];
  id = none;
  event = message;
  payload = [];
  retry = none;
  buffer = [];
}

-- The text before the first colon, and the text behind it, if there is a colon.
abbrev before_colon : Text → Text
before_colon [] = []
before_colon (c ∷ s) = if c == b':' then [] else c ∷ before_colon s

abbrev behind_colon : Text → Text
behind_colon [] = []
behind_colon (c ∷ s) = if c == b':' then s else behind_colon s

-- `replace(/^ /, "")`
abbrev drop_space : Text → Text
drop_space [] = []
drop_space (c ∷ s) = if c == b' ' then s else c ∷ s

-- `value || null`
abbrev pub or_null : Text → Option Text
or_null [] = none
or_null (c ∷ s) = some (c ∷ s)

abbrev is_digit : ℕ → Bool
is_digit c = leb b'0' c && leb c b'9'

abbrev pub all_digits : Text → Bool
all_digits [] = true
all_digits (c ∷ s) = is_digit c && all_digits s

-- `Number(value)` of a text of ASCII digits, read from the left.
unfoldable pub to_number : ℕ → Text → ℕ
to_number acc [] = acc
to_number acc (c ∷ s) = to_number (acc * 10 + (c - b'0')) s

-- `/^[0-9]+$/`
abbrev pub is_number : Text → Bool
is_number [] = false
is_number (c ∷ s) = all_digits (c ∷ s)

unfoldable pub set_field : Text → Text → Parser → Parser
set_field field value p =
    if same field (codes "id")
    then if contains nul value then p else record p { id = or_null value }
    else if same field (codes "event")
    then record p { event = value }
    else if same field (codes "data")
    then record p { payload = p.payload ++ value ∷ [] }
    else if same field (codes "retry")
    then if is_number value then record p { retry = some (to_number 0 value) } else p
    else p

unfoldable pub dispatch : Parser → Parser × Option Event
dispatch p = (
  record p { lines = []; event = message; payload = []; retry = none },
  some (record {
    id = p.id;
    event = p.event;
    payload = join_lines p.payload;
    retry = p.retry;
    raw = p.lines;
  }),
)

abbrev dispatch_data : List Text → Parser → Parser × Option Event
dispatch_data [] p = (record p { lines = [] }, none)
dispatch_data (d ∷ ds) p = dispatch p

-- `_processLine`, by the line: empty, a comment, or a field.
unfoldable pub process_line : Text → Parser → Parser × Option Event
unfolding set_field dispatch
process_line [] p = let q = record p { lines = p.lines ++ [] ∷ [] } in dispatch_data q.payload q
process_line (c ∷ s) p =
    let q = record p { lines = p.lines ++ (c ∷ s) ∷ [] } in
    if c == b':'
    then (q, none)
    else (set_field (before_colon (c ∷ s)) (drop_space (behind_colon (c ∷ s))) q, none)

abbrev pub add_event : Option Event → List Event → List Event
add_event none es = es
add_event (some e) es = e ∷ es

abbrev pub both : Option Event → Parser × List Event → Parser × List Event
both e (p, es) = (p, add_event e es)

unfoldable pub process_lines : List Text → Parser → Parser × List Event
process_lines [] p = (p, [])
process_lines (l ∷ ls) p = let (q, e) = process_line l p in both e (process_lines ls q)

abbrev pub strip_bom : Text → Text → Text
strip_bom [] (c ∷ chunk) = if c == bom then chunk else c ∷ chunk
strip_bom _ chunk = chunk

abbrev pub feed_split : Split → Parser → Parser × List Event
feed_split (lines, rest) p = process_lines lines (record p { buffer = rest })

unfoldable pub feed : Text → Parser → Parser × List Event
feed chunk p = feed_split (split_lines (p.buffer ++ strip_bom p.buffer chunk)) p

abbrev flush_buffer : Text → Parser → Parser
flush_buffer [] p = p
flush_buffer (c ∷ s) p = record (process_line (c ∷ s) p).0 { buffer = [] }

abbrev flush_data : List Text → Parser → Parser × Option Event
flush_data [] p = (p, none)
flush_data (d ∷ ds) p = dispatch p

unfoldable pub flush : Parser → Parser × Option Event
flush p = let q = flush_buffer p.buffer p in flush_data q.payload q

-- `parseSSEText`
unfoldable pub parse_text : Text → List Event
unfolding init
parse_text text =
    let (p, events) = feed text init in let (q, final) = flush p in events ++ add_event final []
