-- ===== src/Cache/Lru.antt =====
-- LRUTracker of src/cache.ts: a doubly linked list through the nodes of a Map. A node is named by
-- its key, which no other node of the map has; a node that is taken out of the map is not reached
-- again.
pub mod Links
pub mod Ends
pub mod Writes
pub mod Detached
pub mod History
pub mod Refinement
use kinetex.Base.{◌≡◌, List, [], ◌∷◌, Option, none, some, Text, text_discrete, ℕ, length}
use kinetex.JsMap

pub record Node : Type 0 where
  pub prev : Option Text
  pub next : Option Text

pub record Lru : Type 0 where
  pub nodes : List (Text × Node)
  -- Most recently used.
  pub head : Option Text
  -- Least recently used.
  pub tail : Option Text

unfoldable pub init : Lru
init = record { nodes = []; head = none; tail = none }

abbrev pub set_next : Option Text → Node → Node
set_next k n = record n { next = k }

abbrev pub set_prev : Option Text → Node → Node
set_prev k n = record n { prev = k }

-- A write through a reference that may be null.
abbrev pub write : Option Text → (Node → Node) → List (Text × Node) → List (Text × Node)
write none f m = m
write (some k) f m = JsMap.update text_discrete k f m

abbrev pub or_next : Option Text → Option Text → Option Text → Option Text
or_next none a b = a
or_next (some k) a b = b

unfoldable pub unlink : Text → Node → Lru → Lru
unlink k n t = record t {
  nodes =
      JsMap.update text_discrete k (λ _. record { prev = none; next = none })
        (write n.next (set_prev n.prev) (write n.prev (set_next n.next) t.nodes));
  head = or_next n.prev n.next t.head;
  tail = or_next n.next n.prev t.tail;
}

unfoldable pub prepend : Text → Lru → Lru
prepend k t = record t {
  nodes =
      write t.head (set_prev (some k))
        (JsMap.update text_discrete k (λ _. record { prev = none; next = t.head }) t.nodes);
  head = some k;
  tail = or_next t.tail (some k) t.tail;
}

abbrev pub touch_node : Option Node → Text → Lru → Lru
touch_node (some n) k t = prepend k (unlink k n t)
touch_node none k t =
    prepend k
      (record t { nodes = JsMap.set text_discrete k (record { prev = none; next = none }) t.nodes })

unfoldable pub touch : Text → Lru → Lru
unfolding prepend unlink
touch k t = touch_node (JsMap.get text_discrete k t.nodes) k t

abbrev pub drop_node : Text → Lru → Lru
drop_node k t = record t { nodes = JsMap.delete text_discrete k t.nodes }

abbrev pub remove_node : Option Node → Text → Lru → Lru
remove_node none k t = t
remove_node (some n) k t = drop_node k (unlink k n t)

unfoldable pub remove : Text → Lru → Lru
unfolding unlink
remove k t = remove_node (JsMap.get text_discrete k t.nodes) k t

abbrev pub evict_tail : Option Text → Lru → Lru × Option Text
evict_tail none t = (t, none)
evict_tail (some k) t = (remove_node (JsMap.get text_discrete k t.nodes) k t, some k)

unfoldable pub evict : Lru → Lru × Option Text
unfolding unlink
evict t = evict_tail t.tail t

unfoldable pub clear : Lru → Lru
clear t = record { nodes = []; head = none; tail = none }

unfoldable pub size : Lru → ℕ
size t = length t.nodes
