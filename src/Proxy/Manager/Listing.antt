-- ===== src/Proxy/Manager/Listing.antt =====
-- List of the manager: the running backends in the order of their ids.
use proxygo.Base.{ℕ, ◌≤◌, ◌≡◌, arith, Bool, List, [], ◌∷◌, ltb, Bool-cases, inl, inr}
use proxygo.Base.Sort.{sort_by, insert_by, total, total-sort}
use proxygo.Proxy.Manager.{Row, Backends}

abbrev pub rows_of : Backends → List Row
rows_of [] = []
rows_of ((key, r) ∷ m) = r.row ∷ rows_of m

abbrev pub smaller_id : Row → Row → Bool
smaller_id a b = ltb a.id b.id

unfoldable pub list : Backends → List Row
list m = sort_by smaller_id (rows_of m)

-- ---------- the order

abbrev From : ℕ → List Row → Type 0
From n [] = Unit {0}
From n (r ∷ rs) = (n ≤ r.id) × From n rs

abbrev pub IsAscending : List Row → Type 0
IsAscending [] = Unit {0}
IsAscending (r ∷ rs) = From r.id rs × IsAscending rs

From-mono : (m n : ℕ) (rs : List Row) → m ≤ n → From n rs → From m rs
From-mono m n [] le h = tt
From-mono m n (r ∷ rs) le (h, hs) = (omega arith, From-mono m n rs le hs)

From-insert :
    (n : ℕ) (r : Row) (rs : List Row) → n ≤ r.id → From n rs → From n (insert_by smaller_id r rs)
unfolding insert_by
From-insert n r [] le h = (le, tt)
From-insert n r (s ∷ rs) le (h, hs) = ground (arith, From-insert n r rs le hs)

IsAscending-insert :
    (r : Row) (rs : List Row) → IsAscending rs → IsAscending (insert_by smaller_id r rs)
unfolding insert_by
IsAscending-insert r [] h = (tt, tt)
IsAscending-insert r (s ∷ rs) (h, hs) = elim (Bool-cases (smaller_id s r)) [
  | inl before ↦ rw before (From-insert s.id r rs (ground arith) h, IsAscending-insert r rs hs)
  | inr after ↦ rw after ((ground arith, From-mono r.id s.id rs (ground arith) h), (h, hs))
]

sorted : (rs : List Row) → IsAscending (sort_by smaller_id rs)
unfolding sort_by
sorted [] = tt
sorted (r ∷ rs) = IsAscending-insert r (sort_by smaller_id rs) (sorted rs)

-- List returns the rows of the running backends in the order of their ids: whatever is counted over
-- them is the same over the registry.
pub list-IsAscending :
    (m : Backends) → IsAscending (list m) × ((g : Row → ℕ) → total g (list m) ≡ total g (rows_of m))
unfolding list
list-IsAscending m = (sorted (rows_of m), λ g. total-sort smaller_id g (rows_of m))
