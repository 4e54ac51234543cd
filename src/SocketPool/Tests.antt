-- ===== src/SocketPool/Tests.antt =====
-- Runs of idea/socket_pool.cpp, and the theorems at concrete inputs.
use codelab.Base.{List, [], ◌∷◌, none, some}
use codelab.Base.Int.{pos}
use codelab.SocketPool.{SocketPool, Call, gets, returns, fails, update}

-- One place: a socket is created, given back, handed out once more, fails, and is given back.
abbrev failing : List Call
failing = gets (pos 7) ∷ returns 1 ∷ gets (pos 8) ∷ fails 1 (pos 5) ∷ returns 1 ∷ []

abbrev worn : SocketPool
worn = record {
  pool_size = pos 1;
  pool_count = pos 2;
  pool = 1 ∷ [];
  sockets =
      update (update (λ _. none) 1 (some (record { socket_fd = pos 7; error_code = pos 0 }))) 1
        (some (record { socket_fd = pos 7; error_code = pos 5 }));
  next = 2;
}
