-- ===== src/Sse/Messages.antt =====
-- A message of the server of src/sse.ts as the lines that it consists of.
use kinetex.Base.{
  ◌≡◌, refl, sym, Bool, false, List, [], ◌∷◌, ◌++◌, Option, none, some, ◌==◌, if◌then◌else◌, arith,
  All,
}
use mathlib.Core.List.{append_assoc}
use kinetex.Sse.Lines.{
  Text, codes, lf, cr, nul, same, contains, NoBreaks, split_from, split_lines, split_lines-line,
  all_lines,
}
use kinetex.Sse.{message}
use kinetex.Sse.Server.{
  Delay, as_field_value, event_message, id_text, event_text, retry_text, data_text,
}
use kinetex.Sse.Server.Decimal.{show_number, NoBreaks-show_number}

pub unlines : List Text → Text
unlines [] = []
unlines (l ∷ ls) = l ++ lf ∷ unlines ls

unlines-append : (ls ms : List Text) → unlines (ls ++ ms) ≡ unlines ls ++ unlines ms
unfolding unlines
unlines-append [] ms = refl
unlines-append (l ∷ ls) ms =
    rw (unlines-append ls ms) (sym (append_assoc l (lf ∷ unlines ls) (unlines ms)))

pub split_lines-unlines : (ls : List Text) → All NoBreaks ls → split_lines (unlines ls) ≡ (ls, [])
unfolding unlines
split_lines-unlines [] n = unfold split_from in refl
split_lines-unlines (l ∷ ls) n =
    rw (split_lines-line l (unlines ls) n.0, split_lines-unlines ls n.1)

-- The lines of each part of a message.
abbrev pub id_lines : Option Text → List Text
id_lines none = []
id_lines (some id) = (codes "id: " ++ as_field_value id) ∷ []

abbrev pub event_lines : Text → List Text
event_lines event =
    if same event message then [] else (codes "event: " ++ as_field_value event) ∷ []

abbrev pub retry_lines : Option Delay → List Text
retry_lines none = []
retry_lines (some d) = (codes "retry: " ++ show_number d.ms) ∷ []

abbrev pub data_lines : List Text → List Text
data_lines [] = []
data_lines (l ∷ ls) = (codes "data: " ++ l) ∷ data_lines ls

abbrev pub message_lines : Text → Text → Option Text → Option Delay → List Text
message_lines event payload id retry =
    id_lines id
    ++ (event_lines event
        ++ (retry_lines retry ++ (data_lines (all_lines (split_lines payload)) ++ [] ∷ [])))

id_text-unlines : (id : Option Text) → id_text id ≡ unlines (id_lines id)
unfolding unlines
id_text-unlines none = refl
id_text-unlines (some id) = refl

event_text-unlines : (event : Text) → event_text event ≡ unlines (event_lines event)
unfolding unlines
event_text-unlines event = ground arith

retry_text-unlines : (retry : Option Delay) → retry_text retry ≡ unlines (retry_lines retry)
unfolding unlines
retry_text-unlines none = refl
retry_text-unlines (some d) = refl

data_text-unlines : (ls : List Text) → data_text ls ≡ unlines (data_lines ls)
unfolding unlines
data_text-unlines [] = refl
data_text-unlines (l ∷ ls) = rw (data_text-unlines ls)

pub event_message-unlines :
    (event payload : Text) (id : Option Text) (retry : Option Delay)
    → event_message event payload id retry ≡ unlines (message_lines event payload id retry)
unfolding event_message
event_message-unlines event payload id retry =
    rw
      (
        id_text-unlines id,
        event_text-unlines event,
        retry_text-unlines retry,
        data_text-unlines (all_lines (split_lines payload)),
        unlines-append,
        unlines-append,
        unlines-append,
        unlines-append,
      )
      (unfold unlines in refl)

NoBreaks-as_field_value : (t : Text) → NoBreaks (as_field_value t)
unfolding as_field_value
NoBreaks-as_field_value [] = tt
NoBreaks-as_field_value (c ∷ t) = ground (arith, NoBreaks-as_field_value t)

pub contains-as_field_value : (t : Text) → contains nul (as_field_value t) ≡ false
unfolding as_field_value
contains-as_field_value [] = refl
contains-as_field_value (c ∷ t) = ground (arith, contains-as_field_value t)

NoBreaks-id_lines : (id : Option Text) → All NoBreaks (id_lines id)
NoBreaks-id_lines none = tt
NoBreaks-id_lines (some id) = ground (arith, NoBreaks-as_field_value id)

NoBreaks-event_lines : (event : Text) → All NoBreaks (event_lines event)
NoBreaks-event_lines event = ground (arith, NoBreaks-as_field_value event)

NoBreaks-retry_lines : (retry : Option Delay) → All NoBreaks (retry_lines retry)
NoBreaks-retry_lines none = tt
NoBreaks-retry_lines (some d) = ground (arith, NoBreaks-show_number d.ms)

NoBreaks-data_lines : (ls : List Text) → All NoBreaks ls → All NoBreaks (data_lines ls)
NoBreaks-data_lines [] n = tt
NoBreaks-data_lines (l ∷ ls) n = ground (arith, n.0, NoBreaks-data_lines ls n.1)

-- The lines of a split hold no line ending.
NoBreaks-split_from :
    (b : Bool) (t : Text) → All NoBreaks (split_from b t).0 × NoBreaks (split_from b t).1
unfolding split_from
NoBreaks-split_from b [] = (tt, tt)
NoBreaks-split_from b (c ∷ t) = ground (arith, NoBreaks-split_from (c == cr) t)

All-append : (ls ms : List Text) → All NoBreaks ls → All NoBreaks ms → All NoBreaks (ls ++ ms)
All-append [] ms n m = m
All-append (l ∷ ls) ms n m = (n.0, All-append ls ms n.1 m)

pub NoBreaks-message_lines :
    (event payload : Text) (id : Option Text) (retry : Option Delay)
    → All NoBreaks (message_lines event payload id retry)
NoBreaks-message_lines event payload id retry =
    let split = split_lines payload in
    let n = NoBreaks-split_from false payload in
    All-append (id_lines id) _ (NoBreaks-id_lines id) (
      All-append (event_lines event) _ (NoBreaks-event_lines event) (
        All-append (retry_lines retry) _ (NoBreaks-retry_lines retry) (
          All-append (data_lines (all_lines split)) ([] ∷ [])
            (NoBreaks-data_lines (all_lines split)
              (All-append split.0 (split.1 ∷ []) n.0 (n.1, tt)))
            (tt, tt))))
