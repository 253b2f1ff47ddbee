-- ===== src/Sse/Chunks.antt =====
-- The parser of src/sse.ts over a stream that arrives in chunks.
use kinetex.Base.{◌≡◌, refl, ap, ◌∙◌, sym, Bool, false, ◌&&◌, List, [], ◌∷◌, ◌++◌, ◌==◌, arith}
use mathlib.Core.List.{append_assoc}
use kinetex.Sse.Lines.{
  Text, Split, bom, split_lines, ends_in_cr, starts_with_lf, continue_with, split_from-append,
}
use kinetex.Sse.{Parser, Event, process_line, process_lines, strip_bom, feed, feed_split, set_field}

set_field-buffer :
    (f v b : Text) (p : Parser)
    → set_field f v (record p { buffer = b }) ≡ record (set_field f v p) { buffer = b }
unfolding set_field
set_field-buffer f v b p = ground arith

process_line-buffer :
    (l b : Text) (p : Parser)
    → process_line l (record p { buffer = b })
      ≡ (record (process_line l p).0 { buffer = b }, (process_line l p).1)
unfolding process_line
process_line-buffer [] b p = ground arith
process_line-buffer (c ∷ s) b p = ground arith

-- The lines of a chunk do not read the buffer, and leave it alone.
process_lines-buffer :
    (ls : List Text) (b : Text) (p : Parser)
    → process_lines ls (record p { buffer = b })
      ≡ (record (process_lines ls p).0 { buffer = b }, (process_lines ls p).1)
unfolding process_lines
process_lines-buffer [] b p = refl
process_lines-buffer (l ∷ ls) b p =
    ground (arith, process_line-buffer l b p, process_lines-buffer ls b (process_line l p).0)

-- First one run, then the other.
abbrev pub then_run : Parser × List Event → (Parser → Parser × List Event) → Parser × List Event
then_run (p, es) f = ((f p).0, es ++ (f p).1)

pub process_lines-append :
    (ls ms : List Text) (p : Parser)
    → process_lines (ls ++ ms) p ≡ then_run (process_lines ls p) (process_lines ms)
unfolding process_lines
process_lines-append [] ms p = refl
process_lines-append (l ∷ ls) ms p = ground (arith, process_lines-append ls ms (process_line l p).0)

abbrev pub starts_with_bom : Text → Bool
starts_with_bom [] = false
starts_with_bom (c ∷ s) = c == bom

strip_bom-append :
    (buffer a b : Text)
    → starts_with_bom b ≡ false
    → strip_bom buffer (a ++ b) ≡ strip_bom buffer a ++ b
strip_bom-append [] [] [] h = refl
strip_bom-append [] [] (c ∷ b) h = ground arith
strip_bom-append [] (c ∷ a) b h = ground arith
strip_bom-append (x ∷ buffer) a b h = refl

pub strip_bom-none : (buffer b : Text) → starts_with_bom b ≡ false → strip_bom buffer b ≡ b
strip_bom-none [] [] h = refl
strip_bom-none [] (c ∷ b) h = ground arith
strip_bom-none (x ∷ buffer) b h = refl

-- A buffer that holds the rest of the line takes the next chunk as it is.
feed-buffer :
    (b r : Text) (q : Parser)
    → starts_with_bom b ≡ false
    → q.buffer ≡ r
    → feed b q ≡ feed_split (split_lines (r ++ b)) q
unfolding feed
feed-buffer b r q h e =
    ap (λ (t : Text). feed_split (split_lines t) q)
      (ap (λ (t : Text). t ++ strip_bom t b) e ∙ ap (◌++◌ r) (strip_bom-none r b h))

feed_split-continue :
    (x : Split) (b : Text) (p : Parser)
    → starts_with_bom b ≡ false
    → feed_split (continue_with x b) p ≡ then_run (feed_split x p) (feed b)
feed_split-continue (ls, r) b p h =
    let first = process_lines ls (record p { buffer = r }) in
    let t = split_lines (r ++ b) in
    ground (
      arith,
      process_lines-append ls t.0 (record p { buffer = t.1 }),
      process_lines-buffer ls r p,
      process_lines-buffer ls t.1 p,
      feed-buffer b r first.0 h,
    )

-- Chunks add up: feeding two chunks one after the other parses the same events, and leaves the
-- same parser, as feeding them at once, wherever the stream is cut, except between a CR and an LF, and
-- before a byte-order mark.
pub feed-append :
    (a b : Text) (p : Parser)
    → (ends_in_cr false (p.buffer ++ strip_bom p.buffer a) && starts_with_lf b) ≡ false
    → starts_with_bom b ≡ false
    → feed (a ++ b) p ≡ then_run (feed a p) (feed b)
unfolding feed
feed-append a b p h m =
    let x : Text = p.buffer ++ strip_bom p.buffer a in
    let e : split_lines (p.buffer ++ strip_bom p.buffer (a ++ b))
        ≡ continue_with (split_lines x) b =
      ap split_lines (
        ap (◌++◌ p.buffer) (strip_bom-append p.buffer a b m)
        ∙ sym (append_assoc p.buffer (strip_bom p.buffer a) b))
      ∙ split_from-append false x b h in
    ap (λ (t : Split). feed_split t p) e ∙ feed_split-continue (split_lines x) b p m
