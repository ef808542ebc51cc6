-- ===== src/Net/TcpServer/Table.antt =====
-- The table of connections: what is entered and erased.
use wethands.Prelude.{
  ℕ, zero, suc, ◌+◌, ◌≡◌, refl, ap, sym, ◌∙◌, Bool, false, not, ◌&&◌, ◌||◌, some, List, [], ◌∷◌,
  ◌++◌, ◌==◌, length, length-append, get_elem?, get_elem?-append_lt, get_elem?-append_end,
  get_elem?-some_lt, set, Bool-cases, inl, inr, ==_iff, arith,
}
use native.Mathlib.Decide.{dec_lt}
use wethands.Net.HttpRequest.{is_equal}
use wethands.Net.TcpServer.{Served, assign, erase}
use wethands.Net.TcpServer.Names.{number_of_name, is_equal-eq, is_equal_refl}

-- Is the connection in the table?
unfoldable pub is_listed : ℕ → List (List ℕ × ℕ) → Bool
is_listed i [] = false
is_listed i ((key, value) ∷ entries) = (i == value) || is_listed i entries

-- The names of all connections that were made.
unfoldable pub names_of : List Served → List (List ℕ)
names_of [] = []
names_of (o ∷ objects) = o.name ∷ names_of objects

pub get_elem?-names_of :
    (objects : List Served) (i : ℕ) (o : Served)
    → get_elem? objects i ≡ some o
    → get_elem? (names_of objects) i ≡ some o.name
unfolding names_of
get_elem?-names_of [] i o h = cc
get_elem?-names_of (p ∷ objects) zero o h = ground arith
get_elem?-names_of (p ∷ objects) (suc i) o h = get_elem?-names_of objects i o h

pub names_of-append :
    (objects : List Served) (o : Served)
    → names_of (objects ++ o ∷ []) ≡ names_of objects ++ o.name ∷ []
unfolding names_of
names_of-append [] o = refl
names_of-append (p ∷ objects) o = ap (λ l. p.name ∷ l) (names_of-append objects o)

pub names_of-set :
    (objects : List Served) (i : ℕ) (o o' : Served)
    → get_elem? objects i ≡ some o
    → o'.name ≡ o.name
    → names_of (set objects i o') ≡ names_of objects
unfolding names_of
names_of-set [] i o o' h e = refl
names_of-set (p ∷ objects) zero o o' h e = ground arith
names_of-set (p ∷ objects) (suc i) o o' h e = ap (λ l. p.name ∷ l) (names_of-set objects i o o' h e)

pub length-names_of : (objects : List Served) → length (names_of objects) ≡ length objects
unfolding names_of
length-names_of [] = refl
length-names_of (o ∷ objects) = ap suc (length-names_of objects)

-- The name of the connection `i` has the number `i + 1`.
abbrev pub AreNumbered : List (List ℕ) → Type 0
AreNumbered names =
    (i : ℕ) (name : List ℕ) → get_elem? names i ≡ some name → number_of_name name ≡ some (i + 1)

-- Every entry has the name of its connection.
abbrev pub AreEntries : List (List ℕ) → List (List ℕ × ℕ) → Type 0
AreEntries names [] = Unit
AreEntries names ((key, value) ∷ entries) =
    (get_elem? names value ≡ some key) × AreEntries names entries

same_number :
    (names : List (List ℕ)) (i j : ℕ) (name : List ℕ)
    → AreNumbered names
    → get_elem? names i ≡ some name
    → get_elem? names j ≡ some name
    → i ≡ j
same_number names i j name numbered h k = ground (arith, numbered i name h, numbered j name k)

-- A key is a connection's name exactly when the entry is that connection's.
pub is_equal-key :
    (names : List (List ℕ)) (i j : ℕ) (name key : List ℕ)
    → AreNumbered names
    → get_elem? names i ≡ some name
    → get_elem? names j ≡ some key
    → is_equal key name ≡ (i == j)
is_equal-key names i j name key numbered h k = elim (Bool-cases (is_equal key name)) [
  | inl same ↦
      let found : get_elem? names j ≡ some name = k ∙ ap some (is_equal-eq key name same) in
      same ∙ sym ((==_iff i j).1 (same_number names i j name numbered h found))
  | inr other ↦ elim (Bool-cases (i == j)) [
    | inl e ↦ ground (arith, (==_iff i j).0 e, h, k, is_equal_refl name)
    | inr e ↦ other ∙ sym e
  ]
]

module _ (names : List (List ℕ)) (numbered : AreNumbered names) (i : ℕ) (name : List ℕ)
    (named : get_elem? names i ≡ some name) where
  -- Erasing the name of a connection takes out that connection alone.
  pub is_listed-erase :
      (j : ℕ) (entries : List (List ℕ × ℕ))
      → AreEntries names entries
      → is_listed j (erase name entries) ≡ (is_listed j entries && not (j == i))
  unfolding is_listed erase
  is_listed-erase j [] h = refl
  is_listed-erase j ((key, value) ∷ entries) h =
      ground (
        arith,
        is_equal-key names i value name key numbered named h.0,
        is_listed-erase j entries h.1,
      )

  pub erase-AreEntries :
      (entries : List (List ℕ × ℕ))
      → AreEntries names entries
      → AreEntries names (erase name entries)
  unfolding erase
  erase-AreEntries [] h = tt
  erase-AreEntries ((key, value) ∷ entries) h = elim (Bool-cases (is_equal key name)) [
    | inl same ↦ rw same (erase-AreEntries entries h.1)
    | inr other ↦ rw other (h.0, erase-AreEntries entries h.1)
  ]

-- A name that no connection has so far is entered as a new entry.
module _ (names : List (List ℕ)) (numbered : AreNumbered names) (name : List ℕ)
    (fresh : number_of_name name ≡ some (length names + 1)) where
  is_equal-fresh : (j : ℕ) (key : List ℕ) → get_elem? names j ≡ some key → is_equal key name ≡ false
  is_equal-fresh j key h = elim (Bool-cases (is_equal key name)) [
    | inl same ↦ absurd (
        ground (
          arith,
          numbered j key h,
          fresh,
          ap number_of_name (is_equal-eq key name same),
          get_elem?-some_lt names j key h,
        ))
    | inr other ↦ other
  ]

  pub is_listed-assign :
      (i j : ℕ) (entries : List (List ℕ × ℕ))
      → AreEntries names entries
      → is_listed j (assign name i entries) ≡ (is_listed j entries || (j == i))
  unfolding is_listed assign
  is_listed-assign i j [] h = ground arith
  is_listed-assign i j ((key, value) ∷ entries) h =
      ground (arith, is_equal-fresh value key h.0, is_listed-assign i j entries h.1)

  pub assign-AreEntries :
      (entries : List (List ℕ × ℕ))
      → AreEntries names entries
      → AreEntries (names ++ name ∷ []) (assign name (length names) entries)
  unfolding assign
  assign-AreEntries [] h = (get_elem?-append_end names name (length names) refl, tt)
  assign-AreEntries ((key, value) ∷ entries) h = rw (is_equal-fresh value key h.0) (
    get_elem?-append_lt names _ value (get_elem?-some_lt names value key h.0) ∙ h.0,
    assign-AreEntries entries h.1,
  )

  pub append-AreNumbered : AreNumbered (names ++ name ∷ [])
  append-AreNumbered i key h = elim (dec_lt i (length names)) [
    | yes l ↦ numbered i key (sym (get_elem?-append_lt names (name ∷ []) i l) ∙ h)
    | no l ↦
        let last : i ≡ length names = omega (
          arith,
          length-append names (name ∷ []),
          get_elem?-some_lt (names ++ name ∷ []) i key h,
        ) in
        ground (arith, get_elem?-append_end names name i last, fresh, last, h)
  ]
