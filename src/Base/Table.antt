-- ===== src/Base/Table.antt =====
-- Go's maps with text keys, as association lists. The order of the rows stands for the order of
-- iteration, which Go leaves open. A missing key reads as `none`.
use vk_cocoon.Base.{
  String, ◌≡◌, refl, Bool, true, false, Option, none, some, List, [], ◌∷◌, arith, ◌==◌, eq_iff,
  eq_refl, if◌then◌else◌,
}

abbrev pub Table {ℓ} : Type ℓ → Type ℓ
Table V = List (String × V)

module _ {ℓ} {V : Type ℓ} where
  unfoldable pub lookup : String → Table V → Option V
  lookup key [] = none
  lookup key (row ∷ rows) = if row.0 == key then some row.1 else lookup key rows

  -- A row that is there is replaced in place; a new one goes to the end.
  unfoldable pub insert : String → V → Table V → Table V
  insert key value [] = (key, value) ∷ []
  insert key value (row ∷ rows) =
      let rest = insert key value rows in if row.0 == key then (key, value) ∷ rows else row ∷ rest

  unfoldable pub delete : String → Table V → Table V
  delete key [] = []
  delete key (row ∷ rows) = let rest = delete key rows in if row.0 == key then rest else row ∷ rest

  unfoldable pub contains : String → Table V → Bool
  contains key [] = false
  contains key (row ∷ rows) = if row.0 == key then true else contains key rows

  pub lookup-insert :
      (key asked : String) (value : V) (rows : Table V)
      → lookup asked (insert key value rows)
        ≡ (if key == asked then some value else lookup asked rows)
  unfolding lookup insert
  lookup-insert key asked value [] = refl
  lookup-insert key asked value (row ∷ rows) = ground (
    arith,
    lookup-insert key asked value rows,
    eq_iff row.0 key,
    eq_iff key asked,
    eq_iff row.0 asked,
  )

  pub lookup-delete :
      (key asked : String) (rows : Table V)
      → lookup asked (delete key rows) ≡ (if key == asked then none else lookup asked rows)
  unfolding lookup delete
  lookup-delete key asked [] = ground arith
  lookup-delete key asked (row ∷ rows) =
      ground (
        arith,
        lookup-delete key asked rows,
        eq_iff row.0 key,
        eq_iff key asked,
        eq_iff row.0 asked,
      )

  pub contains-insert :
      (key asked : String) (value : V) (rows : Table V)
      → contains asked (insert key value rows)
        ≡ (if key == asked then true else contains asked rows)
  unfolding contains insert
  contains-insert key asked value [] = refl
  contains-insert key asked value (row ∷ rows) = ground (
    arith,
    contains-insert key asked value rows,
    eq_iff row.0 key,
    eq_iff key asked,
    eq_iff row.0 asked,
  )

  pub contains-delete :
      (key asked : String) (rows : Table V)
      → contains asked (delete key rows) ≡ (if key == asked then false else contains asked rows)
  unfolding contains delete
  contains-delete key asked [] = ground arith
  contains-delete key asked (row ∷ rows) = ground (
    arith,
    contains-delete key asked rows,
    eq_iff row.0 key,
    eq_iff key asked,
    eq_iff row.0 asked,
  )

  pub lookup-insert_self : (k : String) (v : V) (m : Table V) → lookup k (insert k v m) ≡ some v
  lookup-insert_self k v m = simp (lookup-insert, eq_refl)

  pub lookup-insert_ne :
      (k j : String) (v : V) (m : Table V) → (k == j) ≡ false → lookup j (insert k v m) ≡ lookup j m
  lookup-insert_ne k j v m h = rw (lookup-insert k j v m, h)

  pub lookup-delete_self : (k : String) (m : Table V) → lookup k (delete k m) ≡ none
  lookup-delete_self k m = simp (lookup-delete, eq_refl)

  pub lookup-delete_ne :
      (k j : String) (m : Table V) → (k == j) ≡ false → lookup j (delete k m) ≡ lookup j m
  lookup-delete_ne k j m h = rw (lookup-delete k j m, h)
