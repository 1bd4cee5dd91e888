-- ===== src/Kernel/Table/Ids.antt =====
-- Rows of one id are one row, as the primary key has it: what keeps that.
use qwbe.Prelude.{
  String, ◌≡◌, ◌≢◌, sym, ap, ◌∙◌, ◌⊎◌, inl, inr, [], ◌∷◌, map, IsIn, IsIn-append, IsIn-map,
}
use qwbe.Kernel.Table.{Row, Table, insert}

abbrev pub HasUniqueIds : {A : Type 0} → Table A → Type 0
HasUniqueIds {A} t = (x y : Row A) → IsIn x t → IsIn y t → x.id ≡ y.id → x ≡ y

-- An id that no row of the table has.
abbrev pub IsFresh : {A : Type 0} → String → Table A → Type 0
IsFresh {A} id t = (x : Row A) → IsIn x t → x.id ≢ id

module _ {A : Type 0} where
  pub HasUniqueIds-map :
      (f : Row A → Row A) (t : Table A)
      → ((x : Row A) → (f x).id ≡ x.id)
      → HasUniqueIds t
      → HasUniqueIds (map f t)
  HasUniqueIds-map f t same unique x y m k e =
      let (a, ma, ea) = IsIn-map f x t m in
      let (b, mb, eb) = IsIn-map f y t k in
      let ids : a.id ≡ b.id =
        sym (same a)
        ∙ ap (λ (r : Row A). r.id) (sym ea)
        ∙ e
        ∙ ap (λ (r : Row A). r.id) eb
        ∙ same b in
      ea ∙ ap f (unique a b ma mb ids) ∙ sym eb

  pub IsIn-insert : (x r : Row A) (t : Table A) → IsIn x (insert r t) → IsIn x t ⊎ (x ≡ r)
  unfolding insert
  IsIn-insert x r t m = elim (IsIn-append x t (r ∷ []) m) [
    | inl old ↦ inl old
    | inr new ↦ elim new [ inl e ↦ inr e | inr h ↦ absurd h ]
  ]

  pub HasUniqueIds-insert :
      (r : Row A) (t : Table A) → IsFresh r.id t → HasUniqueIds t → HasUniqueIds (insert r t)
  HasUniqueIds-insert r t fresh unique x y m k e = elim (IsIn-insert x r t m) [
    | inl mx ↦ elim (IsIn-insert y r t k) [
      | inl my ↦ unique x y mx my e
      | inr ey ↦ absurd (fresh x mx (e ∙ ap (λ (z : Row A). z.id) ey))
    ]
    | inr ex ↦ elim (IsIn-insert y r t k) [
      | inl my ↦ absurd (fresh y my (sym e ∙ ap (λ (z : Row A). z.id) ex))
      | inr ey ↦ ex ∙ sym ey
    ]
  ]
