-- ===== src/Tests/Streams.antt =====
-- Runs of the event-stream parser and server, and their theorems at concrete texts.
use kinetex.Base.{arith, ◌≡◌, refl, List, [], ◌∷◌, ◌++◌, none, some, map}
use kinetex.Sse.Lines.{Text, codes, lf, cr, split_from}
use kinetex.Sse.{
  Parser, Event, init, feed, flush, process_line, process_lines, to_number, parse_text,
}
use kinetex.Sse.Chunks.{then_run, feed-append}
use kinetex.Sse.Server.{Delay, as_field_value, event_message}
use kinetex.Sse.Server.Decimal.{show_number}
use kinetex.Sse.RoundTrip.{IsFresh, event_said, feed-event_message}

program : Unit {0}
unfolding split_from init feed flush process_line process_lines to_number parse_text as_field_value
    event_message show_number
program = tt

abbrev new_parser : Parser
unfolding init
new_parser = init

new_parser-IsFresh : IsFresh new_parser
unfolding init
new_parser-IsFresh = record {
  no_lines = refl;
  default_event = refl;
  no_data = refl;
  no_retry = refl;
  no_buffer = refl;
}

abbrev payloads : List Event → List Text
payloads = map (λ (e : Event). e.payload)

-- A cut after a CR that ends a line by itself.
feed-append_example :
    feed ((codes "data: a" ++ cr ∷ []) ++ cr ∷ codes "data: b") new_parser
    ≡ then_run (feed (codes "data: a" ++ cr ∷ []) new_parser) (feed (cr ∷ codes "data: b"))
unfolding init
feed-append_example =
    feed-append (codes "data: a" ++ cr ∷ []) (cr ∷ codes "data: b") new_parser refl refl

abbrev fifty : Delay
fifty = record { ms = 50; is_safe = omega arith }

feed-event_message_example :
    feed (event_message (codes "tick") (codes "a") (some (codes "7")) (some fifty)) new_parser ≡ (
      record new_parser { id = some (codes "7") },
      event_said (codes "tick") (codes "a") (some (codes "7")) (some fifty) none ∷ [],
    )
unfolding init as_field_value
feed-event_message_example =
    feed-event_message (codes "tick") (codes "a") (some (codes "7")) (some fifty) new_parser
      new_parser-IsFresh

-- One event with two data lines and CRLF line endings.
abbrev first_chunk : Text
first_chunk = codes "data: a" ++ cr ∷ []

abbrev second_chunk : Text
second_chunk = lf ∷ codes "data: b" ++ cr ∷ lf ∷ cr ∷ lf ∷ []

-- Parsed at once it is one event, and cut between the CR and the LF it is two.
crlf_cut_splits_event :
    (payloads (feed (first_chunk ++ second_chunk) new_parser).1
      ≡ (codes "a" ++ lf ∷ codes "b") ∷ [])
    × (payloads (then_run (feed first_chunk new_parser) (feed second_chunk)).1
        ≡ codes "a" ∷ codes "b" ∷ [])
unfolding program
crlf_cut_splits_event = (refl, refl)
