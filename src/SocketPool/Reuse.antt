-- ===== src/SocketPool/Reuse.antt =====
-- When `GetSocket` hands out none.
use codelab.Base.{ℕ, ◌≡◌, ◌≢◌, false, List, [], ◌∷◌, none, some}
use codelab.SocketPool.{Socket, is_valid, SocketPool, Heap, update}

-- Allocated sockets that are not valid, each at an address of its own.
abbrev pub Dead : Heap → List ℕ → Type 0
Dead h [] = Unit {0}
Dead h (p ∷ ps) =
    (p ≢ 0) × ((s : Socket) × (h p ≡ some s) × (is_valid s ≡ false)) × Dead (update h p none) ps
