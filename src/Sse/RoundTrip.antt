-- ===== src/Sse/RoundTrip.antt =====
-- What the server of src/sse.ts writes, its parser reads back.
use kinetex.Base.{
  ℕ, ◌≡◌, refl, ap, ◌∙◌, sym, true, false, List, [], ◌∷◌, ◌++◌, Option, none, some, if◌then◌else◌,
  arith, inl, inr, Bool-cases,
}
use mathlib.Core.List.{append_assoc, append-nil}
use kinetex.Sse.Lines.{Text, Split, codes, lf, same, split_lines, all_lines, join_lines}
use kinetex.Sse.{
  Parser, Event, message, or_null, process_line, process_lines, dispatch, feed, feed_split,
  strip_bom, both,
}
use kinetex.Sse.Chunks.{process_lines-append, then_run, starts_with_bom, strip_bom-none}
use kinetex.Sse.Server.{Delay, as_field_value, event_message, data_text}
use kinetex.Sse.Server.Decimal.{to_number-show_number, is_number-show_number}
use kinetex.Sse.Messages.{
  split_lines-unlines, id_lines, event_lines, retry_lines, data_lines, message_lines,
  event_message-unlines, NoBreaks-message_lines, contains-as_field_value,
}

-- The id after a message: an empty one resets it, none leaves it.
abbrev pub id_after : Option Text → Option Text → Option Text
id_after none old = old
id_after (some id) old = or_null (as_field_value id)

process-id_lines :
    (id : Option Text) (p : Parser)
    → process_lines (id_lines id) p
      ≡ (record p { id = id_after id p.id; lines = p.lines ++ id_lines id }, [])
unfolding process_lines process_line
process-id_lines none p = ground (arith, append-nil p.lines)
process-id_lines (some id) p = ground (arith, contains-as_field_value id)

abbrev event_after : Text → Text → Text
event_after event old = if same event message then old else as_field_value event

process-event_lines :
    (event : Text) (p : Parser)
    → process_lines (event_lines event) p
      ≡ (record p { event = event_after event p.event; lines = p.lines ++ event_lines event }, [])
unfolding process_lines process_line
process-event_lines event p = ground (arith, append-nil p.lines)

-- The number of a delay.
abbrev pub ms_of : Option Delay → Option ℕ
ms_of none = none
ms_of (some d) = some d.ms

abbrev retry_after : Option Delay → Option ℕ → Option ℕ
retry_after none old = old
retry_after (some d) old = some d.ms

process-retry_lines :
    (retry : Option Delay) (p : Parser)
    → process_lines (retry_lines retry) p
      ≡ (record p { retry = retry_after retry p.retry; lines = p.lines ++ retry_lines retry }, [])
unfolding process_lines process_line
process-retry_lines none p = ground (arith, append-nil p.lines)
process-retry_lines (some d) p =
    ground (arith, is_number-show_number d.ms, to_number-show_number d.ms)

process-data_lines :
    (ls : List Text) (p : Parser)
    → process_lines (data_lines ls) p
      ≡ (record p { payload = p.payload ++ ls; lines = p.lines ++ data_lines ls }, [])
unfolding process_lines process_line
process-data_lines [] p = ground (arith, append-nil p.lines, append-nil p.payload)
process-data_lines (l ∷ ls) p =
    let line = codes "data: " ++ l in
    let q = record p { payload = p.payload ++ l ∷ []; lines = p.lines ++ line ∷ [] } in
    ground (
      arith,
      process-data_lines ls q,
      append_assoc p.payload (l ∷ []) ls,
      append_assoc p.lines (line ∷ []) (data_lines ls),
    )

-- A parser between two events, at the beginning of a line.
pub record IsFresh (p : Parser) : Type 0 where
  pub no_lines : p.lines ≡ []
  pub default_event : p.event ≡ message
  pub no_data : p.payload ≡ []
  pub no_retry : p.retry ≡ none
  pub no_buffer : p.buffer ≡ []

-- What a message says, for a parser whose last id was `old`. The data come with LF for each of
-- their line endings, and the names without the characters that end a line.
abbrev pub event_said : Text → Text → Option Text → Option Delay → Option Text → Event
event_said event payload id retry old = record {
  id = id_after id old;
  event = as_field_value event;
  payload = join_lines (all_lines (split_lines payload));
  retry = ms_of retry;
  raw = message_lines event payload id retry;
}

same→eq : (s t : Text) → same s t ≡ true → s ≡ t
same→eq [] [] h = refl
same→eq [] (b ∷ t) h = cc
same→eq (a ∷ s) [] h = cc
same→eq (a ∷ s) (b ∷ t) h = ground (arith, same→eq s t)

as_field_value-message : as_field_value message ≡ message
unfolding as_field_value
as_field_value-message = refl

event_after-message : (event : Text) → event_after event message ≡ as_field_value event
event_after-message event = elim (Bool-cases (same event message)) [
  | inl e ↦ rw (e, same→eq event message e) (sym as_field_value-message)
  | inr e ↦ rw e
]

process-end :
    (ls : List Text) (r : Text) (p : Parser)
    → p.payload ≡ ls ++ r ∷ []
    → process_lines ([] ∷ []) p
      ≡ both
          (dispatch (record p { lines = p.lines ++ [] ∷ [] })).1
          ((dispatch (record p { lines = p.lines ++ [] ∷ [] })).0, [])
unfolding process_lines process_line
process-end [] r p e = ground arith
process-end (l ∷ ls) r p e = ground arith

-- Lines that yield no event.
silent :
    (ls ms : List Text) (p q : Parser)
    → process_lines ls p ≡ (q, [])
    → process_lines (ls ++ ms) p ≡ process_lines ms q
silent ls ms p q e =
    process_lines-append ls ms p ∙ ap (λ (r : Parser × List Event). then_run r (process_lines ms)) e

regroup :
    (ls a b c d : List Text)
    → ls ≡ []
    → ((((ls ++ a) ++ b) ++ c) ++ d) ++ [] ∷ [] ≡ a ++ (b ++ (c ++ (d ++ [] ∷ [])))
regroup ls a b c d e = rw e (simp append_assoc)

retry_after-none : (retry : Option Delay) → retry_after retry none ≡ ms_of retry
retry_after-none none = refl
retry_after-none (some d) = refl

process-message_lines :
    (event payload : Text) (id : Option Text) (retry : Option Delay) (p : Parser)
    → IsFresh p
    → process_lines (message_lines event payload id retry) p
      ≡ (record p { id = id_after id p.id }, event_said event payload id retry p.id ∷ [])
unfolding dispatch
process-message_lines event payload id retry p f =
    let a = id_lines id in
    let b = event_lines event in
    let c = retry_lines retry in
    let d = all_lines (split_lines payload) in
    let p1 = record p { id = id_after id p.id; lines = p.lines ++ a } in
    let p2 = record p1 { event = event_after event p.event; lines = p1.lines ++ b } in
    let p3 = record p2 { retry = retry_after retry p.retry; lines = p2.lines ++ c } in
    let p4 = record p3 { payload = p.payload ++ d; lines = p3.lines ++ data_lines d } in
    silent a (b ++ (c ++ (data_lines d ++ [] ∷ []))) p p1 (process-id_lines id p)
    ∙ silent b (c ++ (data_lines d ++ [] ∷ [])) p1 p2 (process-event_lines event p1)
    ∙ silent c (data_lines d ++ [] ∷ []) p2 p3 (process-retry_lines retry p2)
    ∙ silent (data_lines d) ([] ∷ []) p3 p4 (process-data_lines d p3)
    ∙ process-end (split_lines payload).0 (split_lines payload).1 p4
        (ap (λ (t : List Text). t ++ d) f.no_data)
    ∙ ground (
      arith,
      regroup p.lines a b c (data_lines d) f.no_lines,
      event_after-message event,
      ap (λ (t : List Text). t ++ d) f.no_data,
      retry_after-none retry,
    )

feed-fresh :
    (t : Text) (p : Parser)
    → IsFresh p
    → starts_with_bom t ≡ false
    → feed t p ≡ feed_split (split_lines t) p
unfolding feed
feed-fresh t p f h =
    ap (λ (b : Text). feed_split (split_lines (b ++ strip_bom b t)) p) f.no_buffer
    ∙ ap (λ (u : Text). feed_split (split_lines u) p) (strip_bom-none [] t h)

data_starts : (ls : List Text) → starts_with_bom (data_text ls ++ lf ∷ []) ≡ false
data_starts [] = refl
data_starts (l ∷ ls) = refl

message_starts :
    (event payload : Text) (id : Option Text) (retry : Option Delay)
    → starts_with_bom (event_message event payload id retry) ≡ false
unfolding event_message
message_starts event payload (some id) retry = refl
message_starts event payload none (some d) = ground arith
message_starts event payload none none =
    ground (arith, data_starts (all_lines (split_lines payload)))

-- The parser reads a message of the server back: fed to a parser between two events, the text that
-- `sendEvent` writes yields exactly one event. Its name is the one that was sent without the CR, LF
-- and NUL in it; its id too, or the last id if none was sent, or none if nothing is left of the one
-- sent; its data are the lines of the data that were sent, with LF between them whatever ended them
-- before; its delay is the one that was sent, which is a safe whole number. The parser is between two
-- events again, with only its last id changed.
pub feed-event_message :
    (event payload : Text) (id : Option Text) (retry : Option Delay) (p : Parser)
    → IsFresh p
    → feed (event_message event payload id retry) p
      ≡ (record p { id = id_after id p.id }, event_said event payload id retry p.id ∷ [])
feed-event_message event payload id retry p f =
    feed-fresh (event_message event payload id retry) p f (message_starts event payload id retry)
    ∙ ap (λ (t : Split). feed_split t p)
        (ap split_lines (event_message-unlines event payload id retry)
          ∙ split_lines-unlines (message_lines event payload id retry)
              (NoBreaks-message_lines event payload id retry))
    ∙ process-message_lines event payload id retry (record p { buffer = [] })
        (record {
          no_lines = f.no_lines;
          default_event = f.default_event;
          no_data = f.no_data;
          no_retry = f.no_retry;
          no_buffer = refl;
        })
    ∙ ground (arith, f.no_buffer)
