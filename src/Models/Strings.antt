-- ===== src/Models/Strings.antt =====
-- The labels that the events of types carry.
use ovni.Prelude.{ℕ, Option, none, some, List, [], ◌∷◌, if◌then◌else◌, ◌==◌}

-- The string that ends at the first zero; without one the read leaves the event.
unfoldable pub c_string : List ℕ → Option (List ℕ)
c_string [] = none
c_string (c ∷ cs) = elim (c_string cs) [
  | none ↦ if c == 0 then some [] else none
  | some s ↦ if c == 0 then some [] else some (c ∷ s)
]
