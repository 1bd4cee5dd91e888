-- ===== src/Kernel/Table/Laws.antt =====
-- What reading after writing gives, for every table.
use qwbe.Prelude.{◌≡◌, [], ◌∷◌, ◌++◌, find, head-filter, filter-append, if◌then◌else◌}
use qwbe.Kernel.Platform.{Platform}
use qwbe.Kernel.Where.{Where, matches}
use qwbe.Kernel.Table.{Row, Table, FieldsOf, view, rows_where, first, insert}

module _ {ℓ} {A : Type ℓ} (env : Platform) (fields : FieldsOf A) (w : Where) where
  -- `first` is the first match in the order of the table.
  pub first-eq-find :
      (t : Table A) → first env fields w t ≡ find (λ r. matches env w (view fields r)) t
  unfolding first
  first-eq-find t = head-filter (λ r. matches env w (view fields r)) t

  pub rows_where-insert :
      (r : Row A) (t : Table A)
      → rows_where env fields w (insert r t)
        ≡ rows_where env fields w t ++ (if matches env w (view fields r) then r ∷ [] else [])
  unfolding rows_where insert
  rows_where-insert r t = filter-append (λ x. matches env w (view fields x)) t (r ∷ [])
