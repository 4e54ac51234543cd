-- ===== src/SharedPtr/Expired.antt =====
-- From a weak pointer to a shared one, and the weak pointer of enable_shared_from_this.
use codelab.Base.{
  ℕ, ◌+◌, ◌<◌, ◌≡◌, refl, true, false, some, arith, Option-cases, inl, inr, get_elem?, ltb,
  if◌then◌else◌,
}
use codelab.SharedCount.{World}
use codelab.SharedCount.Balance.{limit, bump, Balanced}
use codelab.SharedCount.Handles.{shared_copy-Balanced, shared_drop-Balanced}
use codelab.SharedCount.Lock.{shared_from_weak-Balanced}
use codelab.SharedPtr.{Ptr, alias_ptr, from_weak, accept_owner}
use codelab.SharedPtr.Clients.{Client, All-get_elem?}
use codelab.SharedPtr.Counted.{Sound, Good, counted, counted-le, counted-pos, handles, Gives}
use codelab.SharedPtr.WeakSound.{assign_weak_ptr-Gives}

-- If the memory of its count happens to hold the count of the weak pointer, the conversion gives a
-- pointer to the object of the weak pointer whether that is alive or not: it takes part in the count
-- exactly when the object is alive, and else points to the deleted object with a null count.
pub from_weak-result :
    (c : Client) (i : ℕ) (q : Ptr)
    → Sound c
    → handles c + 1 < limit
    → get_elem? c.weak i ≡ some q
    → 0 < q.pn
    → (w : World) × (from_weak q.pn q c.world
        ≡ some (record { px = q.px; pn = if ltb 0 (counted c.shared q.pn) then q.pn else 0 }, w))
      × Balanced w
          (bump (counted c.shared) (if ltb 0 (counted c.shared q.pn) then q.pn else 0))
          (counted c.weak)
      × (0 < q.px)
      × (c.world.live q.px ≡ ltb 0 (counted c.shared q.pn))
unfolding from_weak
from_weak-result c i q v small e pos =
    let held = counted-pos c.weak i q e in
    let (same, below) = All-get_elem? (Good c.next) c.weak i q v.weak e in
    let (w, ran, kept) =
      shared_from_weak-Balanced c.world (counted c.shared) (counted c.weak) q.pn pos v.balanced held
        (omega (arith, counted-le c.shared q.pn)) in
    elim (Option-cases (c.world.block q.pn)) [
      | inl f ↦ absurd (ground (arith, v.balanced.blocks q.pn pos))
      | inr (b, f) ↦ (
        w,
        ground (arith, ran),
        kept,
        ground (arith, v.balanced.blocks q.pn pos),
        ground (arith, v.balanced.blocks q.pn pos),
      )
    ]

alias_ptr-Gives :
    (r : Ptr) (p : ℕ) (w : World) (s k : ℕ → ℕ)
    → Balanced w s k
    → (0 < r.pn → 0 < s r.pn)
    → s r.pn < limit
    → Gives (alias_ptr r p w) (record { px = p; pn = r.pn }) (bump s r.pn) k
unfolding alias_ptr
alias_ptr-Gives r p w s k v held small =
    let (w', ran, kept) = shared_copy-Balanced w s k r.pn v held small in
    (w', ground (arith, ran), kept)

-- While its weak pointer is not expired, an object keeps the owner it has. Else, on counts that are
-- those of the handles, it takes a weak pointer to itself that counts in the block of the new owner,
-- lets go of the block it was in, and leaves the count of shared handles as it was.
pub accept_owner-Gives :
    (weak_this owner : Ptr) (py : ℕ) (w : World) (s k : ℕ → ℕ)
    → Balanced w s (bump k weak_this.pn)
    → (0 < owner.pn → 0 < s owner.pn)
    → s owner.pn + 1 < limit
    → k owner.pn + 1 < limit
    → k weak_this.pn + 1 < limit
    → (accept_owner false weak_this owner py w ≡ some (weak_this, w))
      × Gives
          (accept_owner true weak_this owner py w)
          (record { px = py; pn = owner.pn })
          s
          (bump k owner.pn)
unfolding accept_owner
accept_owner-Gives weak_this owner py w s k v held small_s small_k small_this =
    let temp : Ptr = record { px = py; pn = owner.pn } in
    let (w1, ran1, kept1) =
      alias_ptr-Gives owner py w s (bump k weak_this.pn) v held (omega arith) in
    let (w2, ran2, kept2) =
      assign_weak_ptr-Gives weak_this temp w1 (bump s owner.pn) k kept1 (λ h. ground arith) small_k
        small_this in
    let (w3, ran3, kept3) =
      shared_drop-Balanced w2 s (bump k owner.pn) owner.pn kept2 (omega arith) (ground arith) in
    (refl, (w3, ground (arith, ran1, ran2, ran3), kept3))
