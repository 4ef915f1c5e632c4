-- ===== src/Tests/Streams.antt =====
-- A concrete stream.
use kookaburra.Prelude.{ℕ, String, Bool, true, none, some, List, [], ◌∷◌}
use kookaburra.Scanner.{Scanner}

abbrev any_type : String → String → Bool
any_type accept kind = true

abbrev buffers : List (List ℕ)
buffers = (255 ∷ 216 ∷ []) ∷ (255 ∷ 224 ∷ 0 ∷ []) ∷ []

abbrev detected : Scanner
detected = record {
  size = 16;
  kind = "image/jpeg";
  error = none;
  raised = none;
  claim = none;
  accept = none;
  limit = some 16;
  position = 16;
  completed = true;
  chunks = [];
}
