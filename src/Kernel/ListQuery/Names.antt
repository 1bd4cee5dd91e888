-- ===== src/Kernel/ListQuery/Names.antt =====
-- Sorting and removing doubles keep which names a list holds.
use qwbe.Prelude.{
  String, Bool, not, ◌≡◌, refl, ◌&&◌, List, [], ◌∷◌, arith, eq_iff, filter, contains,
}
use qwbe.Kernel.ListQuery.{distinct, insert_name, sort_names}

contains-insert_name :
    (x : String) (xs : List String) (s : String)
    → contains (insert_name x xs) s ≡ contains (x ∷ xs) s
unfolding insert_name
contains-insert_name x [] s = refl
contains-insert_name x (y ∷ ys) s = ground (arith, contains-insert_name x ys s)

pub contains-sort_names :
    (xs : List String) (s : String) → contains (sort_names xs) s ≡ contains xs s
unfolding sort_names
contains-sort_names [] s = refl
contains-sort_names (x ∷ xs) s =
    ground (arith, contains-insert_name x (sort_names xs) s, contains-sort_names xs s)

pub contains-distinct :
    (seen xs : List String) (s : String)
    → contains (distinct seen xs) s ≡ (contains xs s && not (contains seen s))
unfolding distinct
contains-distinct seen [] s = refl
contains-distinct seen (x ∷ xs) s =
    ground (arith, contains-distinct seen xs s, contains-distinct (x ∷ seen) xs s, eq_iff x s)

pub contains-filter :
    (p : String → Bool) (xs : List String) (s : String)
    → contains (filter p xs) s ≡ (p s && contains xs s)
contains-filter p [] s = ground arith
contains-filter p (x ∷ xs) s = ground (arith, contains-filter p xs s, eq_iff x s)
