-- ===== src/Models/Nodes.antt =====
-- The events of src/emu/nodes/event.c, with the states of src/emu/nodes/nodes_priv.h.
use ovni.Prelude.{ℕ, List, [], ◌∷◌}
use ovni.Models.{Row, row, do_push, do_pop}

pub data NodesState : Type 0 where
  register unregister if0_wait if0_inline taskwait create submit spawn : NodesState

abbrev pub nodes_number : NodesState → ℕ
nodes_number register = 1
nodes_number unregister = 2
nodes_number if0_wait = 3
nodes_number if0_inline = 4
nodes_number taskwait = 5
nodes_number create = 6
nodes_number submit = 7
nodes_number spawn = 8

abbrev pub nodes_table : List Row
nodes_table =
    row b'R' b'[' 0 do_push (nodes_number register)
    ∷ row b'R' b']' 0 do_pop (nodes_number register)
    ∷ row b'U' b'[' 0 do_push (nodes_number unregister)
    ∷ row b'U' b']' 0 do_pop (nodes_number unregister)
    ∷ row b'W' b'[' 0 do_push (nodes_number if0_wait)
    ∷ row b'W' b']' 0 do_pop (nodes_number if0_wait)
    ∷ row b'I' b'[' 0 do_push (nodes_number if0_inline)
    ∷ row b'I' b']' 0 do_pop (nodes_number if0_inline)
    ∷ row b'T' b'[' 0 do_push (nodes_number taskwait)
    ∷ row b'T' b']' 0 do_pop (nodes_number taskwait)
    ∷ row b'C' b'[' 0 do_push (nodes_number create)
    ∷ row b'C' b']' 0 do_pop (nodes_number create)
    ∷ row b'S' b'[' 0 do_push (nodes_number submit)
    ∷ row b'S' b']' 0 do_pop (nodes_number submit)
    ∷ row b'P' b'[' 0 do_push (nodes_number spawn)
    ∷ row b'P' b']' 0 do_pop (nodes_number spawn)
    ∷ []
