-- ===== src/Dedup/Keys.antt =====
-- The keys and headers of src/dedup.ts.
use kinetex.Base.{List, Text, text_discrete}

abbrev pub Key : Type 0
Key = Text

abbrev pub Headers : Type 0
Headers = List (Text × Text)

abbrev pub key_discrete : Discrete Key
key_discrete = text_discrete
