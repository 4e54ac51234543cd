-- ===== src/SocketPool.antt =====
-- idea/socket_pool.cpp: the sockets of one end point that are idle, and the count of them.
-- A `Socket*` is an address, 0 the null pointer; `sockets` says what each address holds, and
-- `none` where nothing was allocated or where it was deleted. The vector `pool_` is a list whose
-- head is its back. Each call runs whole: the interleaving of calls is not modelled.
pub mod Count
pub mod Reuse
mod Tests
use codelab.Base.{
  ℕ, suc, ◌+◌, ◌-◌, ◌^◌, ◌≡◌, Bool, true, false, ◌&&◌, List, [], ◌∷◌, Option, none, some, ◌==◌,
  if◌then◌else◌,
}
use codelab.Base.Int.{ℤ, pos, negsuc, pos_part, neg_part, ◌+ℤ◌, ◌-ℤ◌, ltb_ℤ}

pub record Socket : Type 0 where
  pub socket_fd : ℤ
  pub error_code : ℤ

-- The constructor. What its omitted body obtains for the descriptor is the argument.
pub new_socket : ℤ → Socket
new_socket fd = record { socket_fd = fd; error_code = pos 0 }

pub set_failed : ℤ → Socket → Socket
set_failed code s = record s { error_code = code }

is_zero : ℤ → Bool
is_zero (pos n) = n == 0
is_zero (negsuc n) = false

unfoldable pub is_valid : Socket → Bool
unfolding is_zero
is_valid s = (if ltb_ℤ s.socket_fd (pos 0) then false else true) && is_zero s.error_code

abbrev pub Heap : Type 0
Heap = ℕ → Option Socket

abbrev pub update : Heap → ℕ → Option Socket → Heap
update h p c q = if p == q then c else h q

-- `fetch_sub(1)` and `fetch_add(1)` on the `atomic<int>`, which wrap around.
abbrev pub int_limit : ℕ
int_limit = 2 ^ 31

pub fetch_sub : ℤ → ℤ
fetch_sub n = if pos_part n + int_limit == neg_part n then pos (int_limit - 1) else n -ℤ pos 1

pub fetch_add : ℤ → ℤ
fetch_add n =
    if pos_part n + 1 == neg_part n + int_limit then negsuc (int_limit - 1) else n +ℤ pos 1

pub record SocketPool : Type 0 where
  pub pool_size : ℤ
  pub pool_count : ℤ
  pub pool : List ℕ
  pub sockets : Heap
  pub next : ℕ  -- the address that the next `new` returns

pub init : ℤ → SocketPool
init size = record {
  pool_size = size;
  pool_count = pos 0;
  pool = [];
  sockets = λ _. none;
  next = 1;
}

-- What the loop of `GetSocket` leaves behind: the socket found, or null when it ran dry.
pub record Search : Type 0 where
  pub found : ℕ
  pub rest : List ℕ
  pub count : ℤ
  pub heap : Heap

-- The loop: take the back of the vector, return it if valid, delete it if not. `none` is a read
-- through a dangling pointer.
pub search_pool : List ℕ → ℤ → Heap → Option Search
search_pool [] count h = some (record { found = 0; rest = []; count = count; heap = h })
search_pool (p ∷ ps) count h = elim (p == 0) [
  | true ↦ search_pool ps (fetch_sub count) h
  | false ↦ elim (h p) [
    | none ↦ none
    | some s ↦ elim (is_valid s) [
      | true ↦ some (record { found = p; rest = ps; count = fetch_sub count; heap = h })
      | false ↦ search_pool ps (fetch_sub count) (update h p none)
    ]
  ]
]

-- The state after the loop.
abbrev pub settle : SocketPool → Search → SocketPool
settle c s = record c { pool = s.rest; pool_count = s.count; sockets = s.heap }

create : ℤ → SocketPool → ℕ × SocketPool
create fd c =
    if ltb_ℤ c.pool_count c.pool_size
    then (
      c.next,
      record c {
        pool_count = fetch_add c.pool_count;
        sockets = update c.sockets c.next (some (new_socket fd));
        next = suc c.next;
      },
    )
    else (0, c)

finish : ℤ → SocketPool → Search → ℕ × SocketPool
unfolding create
finish fd c s = if s.found == 0 then create fd (settle c s) else (s.found, settle c s)

-- `fd` is the descriptor that a new socket would get.
pub get_socket : ℤ → SocketPool → Option (ℕ × SocketPool)
get_socket fd c = elim (search_pool c.pool c.pool_count c.sockets) [
  | none ↦ none
  | some s ↦ some (finish fd c s)
]

pub return_socket : ℕ → SocketPool → SocketPool
return_socket p c =
    if p == 0 then c else record c { pool = p ∷ c.pool; pool_count = fetch_add c.pool_count }

-- `~SocketPool`: deletes the idle sockets and clears the vector.
pub delete_all : List ℕ → Heap → Heap
delete_all [] h = h
delete_all (p ∷ ps) h = delete_all ps (update h p none)

pub destroy : SocketPool → SocketPool
destroy c = record c { pool = []; sockets = delete_all c.pool c.sockets }

-- What a client does: it asks for a socket, gives one back, or marks one that it holds as failed.
pub data Call : Type 0 where
  gets : ℤ → Call
  returns : ℕ → Call
  fails : ℕ → ℤ → Call

pub mark : ℕ → ℤ → SocketPool → Option SocketPool
mark p code c = elim (c.sockets p) [
  | none ↦ none
  | some s ↦ some (record c { sockets = update c.sockets p (some (set_failed code s)) })
]

abbrev pub state_of : Option (ℕ × SocketPool) → Option SocketPool
state_of none = none
state_of (some r) = some r.1

pub step : Call → SocketPool → Option SocketPool
step (gets fd) c = state_of (get_socket fd c)
step (returns p) c = some (return_socket p c)
step (fails p code) c = mark p code c

-- A history of calls; `none` where one of them reads a dangling pointer.
pub run : List Call → SocketPool → Option SocketPool
run [] c = some c
run (x ∷ xs) c = elim (step x c) [ none ↦ none | some d ↦ run xs d ]
