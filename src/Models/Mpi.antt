-- ===== src/Models/Mpi.antt =====
-- The events of src/emu/mpi/event.c, with the states of src/emu/mpi/mpi_priv.h.
use ovni.Prelude.{ℕ, List, [], ◌∷◌}
use ovni.Models.{Row, row, do_push, do_pop}

pub data MpiState : Type 0 where
  init init_thread finalize wait waitall waitany waitsome test testall testany testsome : MpiState
  recv send bsend rsend ssend sendrecv sendrecv_replace irecv isend ibsend irsend issend : MpiState
  isendrecv isendrecv_replace allgather allreduce alltoall barrier bcast gather reduce : MpiState
  reduce_scatter reduce_scatter_block scatter scan exscan iallgather iallreduce ialltoall : MpiState
  ibarrier ibcast igather ireduce ireduce_scatter ireduce_scatter_block iscatter iscan : MpiState
  iexscan : MpiState

abbrev pub mpi_number : MpiState → ℕ
mpi_number init = 1
mpi_number init_thread = 2
mpi_number finalize = 3
mpi_number wait = 4
mpi_number waitall = 5
mpi_number waitany = 6
mpi_number waitsome = 7
mpi_number test = 8
mpi_number testall = 9
mpi_number testany = 10
mpi_number testsome = 11
mpi_number recv = 12
mpi_number send = 13
mpi_number bsend = 14
mpi_number rsend = 15
mpi_number ssend = 16
mpi_number sendrecv = 17
mpi_number sendrecv_replace = 18
mpi_number irecv = 19
mpi_number isend = 20
mpi_number ibsend = 21
mpi_number irsend = 22
mpi_number issend = 23
mpi_number isendrecv = 24
mpi_number isendrecv_replace = 25
mpi_number allgather = 26
mpi_number allreduce = 27
mpi_number alltoall = 28
mpi_number barrier = 29
mpi_number bcast = 30
mpi_number gather = 31
mpi_number reduce = 32
mpi_number reduce_scatter = 33
mpi_number reduce_scatter_block = 34
mpi_number scatter = 35
mpi_number scan = 36
mpi_number exscan = 37
mpi_number iallgather = 38
mpi_number iallreduce = 39
mpi_number ialltoall = 40
mpi_number ibarrier = 41
mpi_number ibcast = 42
mpi_number igather = 43
mpi_number ireduce = 44
mpi_number ireduce_scatter = 45
mpi_number ireduce_scatter_block = 46
mpi_number iscatter = 47
mpi_number iscan = 48
mpi_number iexscan = 49

abbrev pub mpi_table : List Row
mpi_table =
    row b'U' b'i' 0 do_push (mpi_number init)
    ∷ row b'U' b'I' 0 do_pop (mpi_number init)
    ∷ row b'U' b't' 0 do_push (mpi_number init_thread)
    ∷ row b'U' b'T' 0 do_pop (mpi_number init_thread)
    ∷ row b'U' b'f' 0 do_push (mpi_number finalize)
    ∷ row b'U' b'F' 0 do_pop (mpi_number finalize)
    ∷ row b'W' b'[' 0 do_push (mpi_number wait)
    ∷ row b'W' b']' 0 do_pop (mpi_number wait)
    ∷ row b'W' b'a' 0 do_push (mpi_number waitall)
    ∷ row b'W' b'A' 0 do_pop (mpi_number waitall)
    ∷ row b'W' b'y' 0 do_push (mpi_number waitany)
    ∷ row b'W' b'Y' 0 do_pop (mpi_number waitany)
    ∷ row b'W' b's' 0 do_push (mpi_number waitsome)
    ∷ row b'W' b'S' 0 do_pop (mpi_number waitsome)
    ∷ row b'T' b'[' 0 do_push (mpi_number test)
    ∷ row b'T' b']' 0 do_pop (mpi_number test)
    ∷ row b'T' b'a' 0 do_push (mpi_number testall)
    ∷ row b'T' b'A' 0 do_pop (mpi_number testall)
    ∷ row b'T' b'y' 0 do_push (mpi_number testany)
    ∷ row b'T' b'Y' 0 do_pop (mpi_number testany)
    ∷ row b'T' b's' 0 do_push (mpi_number testsome)
    ∷ row b'T' b'S' 0 do_pop (mpi_number testsome)
    ∷ row b'R' b'[' 0 do_push (mpi_number recv)
    ∷ row b'R' b']' 0 do_pop (mpi_number recv)
    ∷ row b'R' b's' 0 do_push (mpi_number sendrecv)
    ∷ row b'R' b'S' 0 do_pop (mpi_number sendrecv)
    ∷ row b'R' b'o' 0 do_push (mpi_number sendrecv_replace)
    ∷ row b'R' b'O' 0 do_pop (mpi_number sendrecv_replace)
    ∷ row b'r' b'[' 0 do_push (mpi_number irecv)
    ∷ row b'r' b']' 0 do_pop (mpi_number irecv)
    ∷ row b'r' b's' 0 do_push (mpi_number isendrecv)
    ∷ row b'r' b'S' 0 do_pop (mpi_number isendrecv)
    ∷ row b'r' b'o' 0 do_push (mpi_number isendrecv_replace)
    ∷ row b'r' b'O' 0 do_pop (mpi_number isendrecv_replace)
    ∷ row b'S' b'[' 0 do_push (mpi_number send)
    ∷ row b'S' b']' 0 do_pop (mpi_number send)
    ∷ row b'S' b'b' 0 do_push (mpi_number bsend)
    ∷ row b'S' b'B' 0 do_pop (mpi_number bsend)
    ∷ row b'S' b'r' 0 do_push (mpi_number rsend)
    ∷ row b'S' b'R' 0 do_pop (mpi_number rsend)
    ∷ row b'S' b's' 0 do_push (mpi_number ssend)
    ∷ row b'S' b'S' 0 do_pop (mpi_number ssend)
    ∷ row b's' b'[' 0 do_push (mpi_number isend)
    ∷ row b's' b']' 0 do_pop (mpi_number isend)
    ∷ row b's' b'b' 0 do_push (mpi_number ibsend)
    ∷ row b's' b'B' 0 do_pop (mpi_number ibsend)
    ∷ row b's' b'r' 0 do_push (mpi_number irsend)
    ∷ row b's' b'R' 0 do_pop (mpi_number irsend)
    ∷ row b's' b's' 0 do_push (mpi_number issend)
    ∷ row b's' b'S' 0 do_pop (mpi_number issend)
    ∷ row b'A' b'g' 0 do_push (mpi_number allgather)
    ∷ row b'A' b'G' 0 do_pop (mpi_number allgather)
    ∷ row b'A' b'r' 0 do_push (mpi_number allreduce)
    ∷ row b'A' b'R' 0 do_pop (mpi_number allreduce)
    ∷ row b'A' b'a' 0 do_push (mpi_number alltoall)
    ∷ row b'A' b'A' 0 do_pop (mpi_number alltoall)
    ∷ row b'a' b'g' 0 do_push (mpi_number iallgather)
    ∷ row b'a' b'G' 0 do_pop (mpi_number iallgather)
    ∷ row b'a' b'r' 0 do_push (mpi_number iallreduce)
    ∷ row b'a' b'R' 0 do_pop (mpi_number iallreduce)
    ∷ row b'a' b'a' 0 do_push (mpi_number ialltoall)
    ∷ row b'a' b'A' 0 do_pop (mpi_number ialltoall)
    ∷ row b'C' b'b' 0 do_push (mpi_number barrier)
    ∷ row b'C' b'B' 0 do_pop (mpi_number barrier)
    ∷ row b'C' b's' 0 do_push (mpi_number scan)
    ∷ row b'C' b'S' 0 do_pop (mpi_number scan)
    ∷ row b'C' b'e' 0 do_push (mpi_number exscan)
    ∷ row b'C' b'E' 0 do_pop (mpi_number exscan)
    ∷ row b'c' b'b' 0 do_push (mpi_number ibarrier)
    ∷ row b'c' b'B' 0 do_pop (mpi_number ibarrier)
    ∷ row b'c' b's' 0 do_push (mpi_number iscan)
    ∷ row b'c' b'S' 0 do_pop (mpi_number iscan)
    ∷ row b'c' b'e' 0 do_push (mpi_number iexscan)
    ∷ row b'c' b'E' 0 do_pop (mpi_number iexscan)
    ∷ row b'D' b'b' 0 do_push (mpi_number bcast)
    ∷ row b'D' b'B' 0 do_pop (mpi_number bcast)
    ∷ row b'D' b'g' 0 do_push (mpi_number gather)
    ∷ row b'D' b'G' 0 do_pop (mpi_number gather)
    ∷ row b'D' b's' 0 do_push (mpi_number scatter)
    ∷ row b'D' b'S' 0 do_pop (mpi_number scatter)
    ∷ row b'd' b'b' 0 do_push (mpi_number ibcast)
    ∷ row b'd' b'B' 0 do_pop (mpi_number ibcast)
    ∷ row b'd' b'g' 0 do_push (mpi_number igather)
    ∷ row b'd' b'G' 0 do_pop (mpi_number igather)
    ∷ row b'd' b's' 0 do_push (mpi_number iscatter)
    ∷ row b'd' b'S' 0 do_pop (mpi_number iscatter)
    ∷ row b'E' b'[' 0 do_push (mpi_number reduce)
    ∷ row b'E' b']' 0 do_pop (mpi_number reduce)
    ∷ row b'E' b's' 0 do_push (mpi_number reduce_scatter)
    ∷ row b'E' b'S' 0 do_pop (mpi_number reduce_scatter)
    ∷ row b'E' b'b' 0 do_push (mpi_number reduce_scatter_block)
    ∷ row b'E' b'B' 0 do_pop (mpi_number reduce_scatter_block)
    ∷ row b'e' b'[' 0 do_push (mpi_number ireduce)
    ∷ row b'e' b']' 0 do_pop (mpi_number ireduce)
    ∷ row b'e' b's' 0 do_push (mpi_number ireduce_scatter)
    ∷ row b'e' b'S' 0 do_pop (mpi_number ireduce_scatter)
    ∷ row b'e' b'b' 0 do_push (mpi_number ireduce_scatter_block)
    ∷ row b'e' b'B' 0 do_pop (mpi_number ireduce_scatter_block)
    ∷ []
