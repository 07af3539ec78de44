-- ===== src/Models/Tampi.antt =====
-- The events of src/emu/tampi/event.c, with the states of src/emu/tampi/tampi_priv.h.
use ovni.Prelude.{ℕ, List, [], ◌∷◌}
use ovni.Models.{Row, row, do_push, do_pop}

pub data TampiState : Type 0 where
  comm_issue_nonblocking global_array_check library_interface library_polling queue_add : TampiState
  queue_transfer request_completed request_test request_testall request_testsome : TampiState
  ticket_create ticket_wait : TampiState

abbrev pub tampi_number : TampiState → ℕ
tampi_number comm_issue_nonblocking = 1
tampi_number global_array_check = 2
tampi_number library_interface = 3
tampi_number library_polling = 4
tampi_number queue_add = 5
tampi_number queue_transfer = 6
tampi_number request_completed = 7
tampi_number request_test = 8
tampi_number request_testall = 9
tampi_number request_testsome = 10
tampi_number ticket_create = 11
tampi_number ticket_wait = 12

abbrev pub tampi_table : List Row
tampi_table =
    row b'C' b'i' 0 do_push (tampi_number comm_issue_nonblocking)
    ∷ row b'C' b'I' 0 do_pop (tampi_number comm_issue_nonblocking)
    ∷ row b'G' b'c' 0 do_push (tampi_number global_array_check)
    ∷ row b'G' b'C' 0 do_pop (tampi_number global_array_check)
    ∷ row b'L' b'i' 0 do_push (tampi_number library_interface)
    ∷ row b'L' b'I' 0 do_pop (tampi_number library_interface)
    ∷ row b'L' b'p' 0 do_push (tampi_number library_polling)
    ∷ row b'L' b'P' 0 do_pop (tampi_number library_polling)
    ∷ row b'Q' b'a' 0 do_push (tampi_number queue_add)
    ∷ row b'Q' b'A' 0 do_pop (tampi_number queue_add)
    ∷ row b'Q' b't' 0 do_push (tampi_number queue_transfer)
    ∷ row b'Q' b'T' 0 do_pop (tampi_number queue_transfer)
    ∷ row b'R' b'c' 0 do_push (tampi_number request_completed)
    ∷ row b'R' b'C' 0 do_pop (tampi_number request_completed)
    ∷ row b'R' b't' 0 do_push (tampi_number request_test)
    ∷ row b'R' b'T' 0 do_pop (tampi_number request_test)
    ∷ row b'R' b'a' 0 do_push (tampi_number request_testall)
    ∷ row b'R' b'A' 0 do_pop (tampi_number request_testall)
    ∷ row b'R' b's' 0 do_push (tampi_number request_testsome)
    ∷ row b'R' b'S' 0 do_pop (tampi_number request_testsome)
    ∷ row b'T' b'c' 0 do_push (tampi_number ticket_create)
    ∷ row b'T' b'C' 0 do_pop (tampi_number ticket_create)
    ∷ row b'T' b'w' 0 do_push (tampi_number ticket_wait)
    ∷ row b'T' b'W' 0 do_pop (tampi_number ticket_wait)
    ∷ []
