-- ===== src/WaitSync/Pending/Ring.antt =====
-- The list of pending structures as a ring that starts at `threads_base_wait_sync_list`.
use libult.Base.{◌≡◌, ◌∙◌, Ptr, null, List, [], ◌∷◌, ◌∉◌, IsDistinct}
use libult.WaitSync.State.{Mem}
use libult.WaitSync.Pending.Chain.{Chain}

-- The structures `xs` are pending, in the order of their arrival.
abbrev pub IsRing : Mem → List Ptr → Type 0
IsRing m [] = m.list ≡ null
IsRing m (a ∷ xs) =
    (m.list ≡ a) × Chain m.next m.prev a xs a × IsDistinct (a ∷ xs) × (null ∉ a ∷ xs)

pub IsRing-fields :
    (m m' : Mem) (xs : List Ptr)
    → m'.list ≡ m.list
    → m'.next ≡ m.next
    → m'.prev ≡ m.prev
    → IsRing m xs
    → IsRing m' xs
IsRing-fields m m' [] e f g r = e ∙ r
IsRing-fields m m' (a ∷ xs) e f g (h, c, d, o) = (e ∙ h, rw (f, g) c, d, o)
