-- ===== src/Postgres/Memory/Rules.antt =====
-- Rules of a table that can be tested: the shape of its rows, and keys.
use package.text.Mathlib.TextEquality.{eq_iff}
use dataset_service.Base.{
  ◌≡◌, refl, sym, ap, ◌∙◌, inl, inr, String, Bool, true, false, not, ◌&&◌, ◌||◌, List, [], ◌∷◌,
  arith,
}
use dataset_service.Base.Time.{pos, negsuc}
use dataset_service.Text.{text_eq_iff}
use dataset_service.Postgres.Statements.{Value, uint, int, text, flag, instant, value_eq}
use dataset_service.Postgres.Tables.{Row, str_eq, column, matches, Among, IsKey, On, OnBoth}

pub value_eq_sound : (v u : Value) → value_eq v u ≡ true → v ≡ u
value_eq_sound (uint a) (uint b) h = ap uint (ground arith)
value_eq_sound (int (pos a)) (int (pos b)) h = ap int (ap pos (ground arith))
value_eq_sound (int (negsuc a)) (int (negsuc b)) h = ap int (ap negsuc (ground arith))
value_eq_sound (text a) (text b) h = ap text ((text_eq_iff a b).0 h)
value_eq_sound (flag true) (flag true) h = refl
value_eq_sound (flag false) (flag false) h = refl
value_eq_sound (instant a) (instant b) h = ap instant (ground arith)
value_eq_sound v u h = absurd (cc)

value_eq-sym : (v u : Value) → value_eq v u ≡ true → value_eq u v ≡ true
value_eq-sym v u h = let e = value_eq_sound v u h in rw (sym e) (rw (sym e) at h)

-- Rows that have the same columns with the same values.
abbrev pub row_eq : Row → Row → Bool
row_eq [] [] = true
row_eq ((c, v) ∷ r) ((d, u) ∷ x) = str_eq c d && value_eq v u && row_eq r x
row_eq _ _ = false

pub row_eq_sound : (r x : Row) → row_eq r x ≡ true → r ≡ x
row_eq_sound [] [] h = refl
row_eq_sound ((c, v) ∷ r) ((d, u) ∷ x) h =
    ground (arith, eq_iff c d, value_eq_sound v u, row_eq_sound r x)
row_eq_sound [] (p ∷ x) h = absurd (cc)
row_eq_sound (p ∷ r) [] h = absurd (cc)

abbrev same_key : List String → Row → Row → Bool
same_key [] r x = true
same_key (c ∷ cs) r x = value_eq (column c r) (column c x) && same_key cs r x

same_key-sym : (cs : List String) (r x : Row) → same_key cs r x ≡ true → same_key cs x r ≡ true
same_key-sym [] r x h = refl
same_key-sym (c ∷ cs) r x h =
    ground (arith, value_eq-sym (column c r) (column c x), same_key-sym cs r x)

module _ (cs : List String) where
  abbrev clashes : Row → List Row → Bool
  clashes r [] = false
  clashes r (x ∷ rows) = same_key cs r x || clashes r rows

  -- The columns `cs` are a key of the rows.
  abbrev pub distinct : List Row → Bool
  distinct [] = true
  distinct (r ∷ rows) = not (clashes r rows) && distinct rows

  clashes-Among :
      (r x : Row) (rows : List Row) → Among x rows → same_key cs r x ≡ true → clashes r rows ≡ true
  clashes-Among r x [] among h = absurd among
  clashes-Among r x (y ∷ rows) (inl e) h = rw (ap (same_key cs r) (sym e) ∙ h) refl
  clashes-Among r x (y ∷ rows) (inr later) h = ground (arith, clashes-Among r x rows later h)

  distinct_sound :
      (rows : List Row) (r x : Row)
      → distinct rows ≡ true
      → Among r rows
      → Among x rows
      → same_key cs r x ≡ true
      → r ≡ x
  distinct_sound [] r x d among_r among_x h = absurd among_r
  distinct_sound (y ∷ rows) r x d (inl e) (inl f) h = e ∙ sym f
  distinct_sound (y ∷ rows) r x d (inl e) (inr g) h =
      absurd (ground (arith, clashes-Among y x rows g (ap (λ z. same_key cs z x) (sym e) ∙ h)))
  distinct_sound (y ∷ rows) r x d (inr g) (inl f) h = absurd (
      ground (
        arith,
        clashes-Among y r rows g (ap (λ z. same_key cs z r) (sym f) ∙ same_key-sym cs r x h),
      ))
  distinct_sound (y ∷ rows) r x d (inr g) (inr k) h = distinct_sound rows r x (ground arith) g k h

same_value : (a b v : Value) → value_eq a v ≡ true → value_eq b v ≡ true → value_eq a b ≡ true
same_value a b v h k = rw (value_eq_sound b v k) h

pub distinct-IsKey :
    (c : String) (rows : List Row) → distinct (c ∷ []) rows ≡ true → IsKey (On c) rows
distinct-IsKey c rows d w (v, e) r x among_r among_x h k =
    let p : matches ((c, v) ∷ []) r ≡ true = ap (λ y. matches y r) (sym e) ∙ h in
    let q : matches ((c, v) ∷ []) x ≡ true = ap (λ y. matches y x) (sym e) ∙ k in
    distinct_sound (c ∷ []) rows r x d among_r among_x
      (ground (arith, same_value (column c r) (column c x) v (ground arith) (ground arith)))

pub distinct-IsKey_of_two :
    (c f : String) (rows : List Row) → distinct (c ∷ f ∷ []) rows ≡ true → IsKey (OnBoth c f) rows
distinct-IsKey_of_two c f rows d w (v, u, e) r x among_r among_x h k =
    let p : matches ((c, v) ∷ (f, u) ∷ []) r ≡ true = ap (λ y. matches y r) (sym e) ∙ h in
    let q : matches ((c, v) ∷ (f, u) ∷ []) x ≡ true = ap (λ y. matches y x) (sym e) ∙ k in
    distinct_sound (c ∷ f ∷ []) rows r x d among_r among_x (
      ground (
        arith,
        same_value (column c r) (column c x) v (ground arith) (ground arith),
        same_value (column f r) (column f x) u (ground arith) (ground arith),
      ))

-- Every row passes a test.
abbrev pub every : (Row → Bool) → List Row → Bool
every p [] = true
every p (r ∷ rows) = p r && every p rows

pub every-Among :
    (p : Row → Bool) (r : Row) (rows : List Row) → every p rows ≡ true → Among r rows → p r ≡ true
every-Among p r [] h among = absurd among
every-Among p r (x ∷ rows) h (inl e) = rw e (ground arith)
every-Among p r (x ∷ rows) h (inr later) = every-Among p r rows (ground arith) later
