-- ===== src/SocketPool/Count.antt =====
-- What `pool_count_` counts: the idle sockets and, once more, every socket ever created.
use codelab.Base.{ℕ, ◌+◌, ◌-◌, suc, ◌≤◌, ◌≡◌, List, [], ◌∷◌, none, some, arith, length}
use codelab.Base.Int.{ℤ, pos, pos_part, neg_part, ◌≤ℤ◌, -ℤ_parts}
use codelab.SocketPool.{SocketPool, Search, Heap, init, update, search_pool, fetch_sub}

-- `c` counts `n`: what the count exceeds, in parts that `omega` reads.
abbrev pub Counts : ℤ → ℕ → Type 0
Counts c n = pos_part c ≡ neg_part c + n

fetch_sub-Counts : (c : ℤ) (n : ℕ) → Counts c (suc n) → Counts (fetch_sub c) n
unfolding fetch_sub
fetch_sub-Counts c n v = ground (arith, -ℤ_parts c (pos 1))

-- Each round of the loop takes one socket from the vector and one from the count.
pub search_pool-Counts :
    (ps : List ℕ) (count : ℤ) (h : Heap) (s : Search) (k : ℕ)
    → Counts count (length ps + k)
    → search_pool ps count h ≡ some s
    → Counts s.count (length s.rest + k) × (length s.rest ≤ length ps)
unfolding search_pool
search_pool-Counts [] count h s k v e = ground arith
search_pool-Counts (p ∷ ps) count h s k v e =
    let v' : Counts (fetch_sub count) (length ps + k) =
      fetch_sub-Counts count (length ps + k) (omega arith) in
    ground (
      arith,
      search_pool-Counts ps (fetch_sub count) h s k v',
      search_pool-Counts ps (fetch_sub count) (update h p none) s k v',
    )

-- The number of sockets that the pool has created.
abbrev pub created : SocketPool → ℕ
created c = c.next - 1

pub record IsCounted (c : SocketPool) : Type 0 where
  pub counted : Counts c.pool_count (length c.pool + created c)
  pub started : 1 ≤ c.next
  pub bounded : pos (created c) ≤ℤ c.pool_size

-- The idle sockets and the created ones.
abbrev pub weight : SocketPool → ℕ
weight c = length c.pool + created c

abbrev After : SocketPool → SocketPool → Type 0
After c d = IsCounted d × (weight d ≤ suc (weight c))

pub init-IsCounted : (size : ℕ) → IsCounted (init (pos size))
unfolding init
init-IsCounted size = omega arith
