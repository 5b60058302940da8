-- ===== src/Collections/BTreeMap.antt =====
-- `BTreeMap`: a list of bindings, sorted by key.
use amt.Prelude.{◌≡◌, refl, arith, true, Option, none, some, List, [], ◌∷◌, if◌then◌else◌}
use amt.Collections.Key.{Key, eq_right, eq_left, lt-ne, eq_refl}

module _ {ℓ κ} {K : Type ℓ} {V : Type κ} ⦃k : Key K⦄ where
  unfoldable pub get : K → List (K × V) → Option V
  get x [] = none
  get x ((y, v) ∷ m) = if k.eq x y then some v else get x m

  unfoldable pub insert : K → V → List (K × V) → List (K × V)
  insert x v [] = (x, v) ∷ []
  insert x v ((y, w) ∷ m) =
      if k.eq x y
      then (x, v) ∷ m
      else if k.lt x y
      then (x, v) ∷ (y, w) ∷ m
      else (y, w) ∷ insert x v m

  unfoldable pub remove : K → List (K × V) → List (K × V)
  remove x [] = []
  remove x ((y, w) ∷ m) = let rest = remove x m in if k.eq x y then rest else (y, w) ∷ rest

  pub get-insert :
      (j x : K) (v : V) (m : List (K × V))
      → get j (insert x v m) ≡ (if k.eq j x then some v else get j m)
  unfolding get insert
  get-insert j x v [] = refl
  get-insert j x v ((y, w) ∷ m) = ground (arith, get-insert j x v m, eq_right x y j, eq_left j x y)

  pub get-remove :
      (j x : K) (m : List (K × V)) → get j (remove x m) ≡ (if k.eq j x then none else get j m)
  unfolding get remove
  get-remove j x [] = ground arith
  get-remove j x ((y, w) ∷ m) = ground (arith, get-remove j x m, eq_right x y j, eq_left j x y)

  -- The keys rise strictly, from above `x`.
  abbrev pub Above : K → List (K × V) → Type 0
  Above x [] = Unit
  Above x ((y, w) ∷ m) = (k.lt x y ≡ true) × Above y m

  abbrev pub IsSorted : List (K × V) → Type 0
  IsSorted [] = Unit
  IsSorted ((y, w) ∷ m) = Above y m

  pub Above-weaken : (x y : K) (m : List (K × V)) → k.lt x y ≡ true → Above y m → Above x m
  Above-weaken x y [] h a = tt
  Above-weaken x y ((z, w) ∷ m) h a = (k.lt_trans x y z h a.0, a.1)

  pub get-Above : (x : K) (m : List (K × V)) → Above x m → get x m ≡ none
  unfolding get
  get-Above x [] a = refl
  get-Above x ((y, w) ∷ m) a =
      ground (arith, lt-ne x y a.0, get-Above x m (Above-weaken x y m a.0 a.1))

  Above-insert :
      (b x : K) (v : V) (m : List (K × V)) → k.lt b x ≡ true → Above b m → Above b (insert x v m)
  unfolding insert
  Above-insert b x v [] h a = (h, tt)
  Above-insert b x v ((y, w) ∷ m) h a =
      ground (arith, a.0, a.1, Above-insert y x v m, k.lt_total x y, (k.eq_iff x y).0)

  pub Above→IsSorted : (b : K) (m : List (K × V)) → Above b m → IsSorted m
  Above→IsSorted b [] a = tt
  Above→IsSorted b ((y, w) ∷ m) a = a.1

  Above-equal : (x y : K) (m : List (K × V)) → k.eq x y ≡ true → Above y m → Above x m
  Above-equal x y m e a = rw ((k.eq_iff x y).0 e) a

  pub insert-IsSorted : (x : K) (v : V) (m : List (K × V)) → IsSorted m → IsSorted (insert x v m)
  unfolding insert
  insert-IsSorted x v [] s = tt
  insert-IsSorted x v ((y, w) ∷ m) s =
      ground (arith, Above-equal x y m, Above-insert y x v m, k.lt_total x y)

  Above-remove : (b x : K) (m : List (K × V)) → Above b m → Above b (remove x m)
  unfolding remove
  Above-remove b x [] a = tt
  Above-remove b x ((y, w) ∷ m) a =
      ground (arith, a.0, Above-remove b x m (Above-weaken b y m a.0 a.1), Above-remove y x m a.1)

  pub remove-IsSorted : (x : K) (m : List (K × V)) → IsSorted m → IsSorted (remove x m)
  unfolding remove
  remove-IsSorted x [] s = tt
  remove-IsSorted x ((y, w) ∷ m) s =
      ground (arith, remove-IsSorted x m (Above→IsSorted y m s), Above-remove y x m s)

  -- Writing back the value that a key has changes nothing.
  pub insert_same :
      (x : K) (v : V) (m : List (K × V)) → IsSorted m → get x m ≡ some v → insert x v m ≡ m
  unfolding get insert
  insert_same x v [] s h = cc
  insert_same x v ((y, w) ∷ m) s h = ground (
    arith,
    (k.eq_iff x y).0,
    insert_same x v m (Above→IsSorted y m s),
    λ (l : k.lt x y ≡ true). get-Above x m (Above-weaken x y m l s),
  )

  pub remove_absent : (x : K) (m : List (K × V)) → get x m ≡ none → remove x m ≡ m
  unfolding get remove
  remove_absent x [] h = refl
  remove_absent x ((y, w) ∷ m) h = ground (arith, remove_absent x m)

module _ {ℓ κ} {K : Type ℓ} {V : Type κ} ⦃k : Key K⦄ where
  first_equal :
      (x y : K) (v w : V) (m n : List (K × V))
      → Above x m
      → Above y n
      → ((j : K) → get j ((x, v) ∷ m) ≡ get j ((y, w) ∷ n))
      → k.eq x y ≡ true
  unfolding get
  first_equal x y v w m n am an h = ground (
    arith,
    h x,
    h y,
    eq_refl x,
    eq_refl y,
    k.lt_total x y,
    (k.eq_iff x y).0,
    (k.eq_iff y x).0,
    (k.eq_iff x y).1,
    λ (l : k.lt x y ≡ true). get-Above x n (Above-weaken x y n l an),
    λ (l : k.lt y x ≡ true). get-Above y m (Above-weaken y x m l am),
  )

  tails_equal :
      (x y : K) (v w : V) (m n : List (K × V))
      → Above x m
      → Above y n
      → ((j : K) → get j ((x, v) ∷ m) ≡ get j ((y, w) ∷ n))
      → (j : K) → get j m ≡ get j n
  unfolding get
  tails_equal x y v w m n am an h j = ground (
    arith,
    h j,
    eq_right x y j (first_equal x y v w m n am an h),
    λ (e : k.eq j x ≡ true). get-Above j m (Above-equal j x m e am),
    λ (e : k.eq j y ≡ true). get-Above j n (Above-equal j y n e an),
  )

  -- Two maps with the same bindings are the same list.
  pub extensional :
      (m n : List (K × V)) → IsSorted m → IsSorted n → ((j : K) → get j m ≡ get j n) → m ≡ n
  unfolding get
  extensional [] [] sm sn h = refl
  extensional [] ((y, w) ∷ n) sm sn h = ground (arith, h y, eq_refl y)
  extensional ((x, v) ∷ m) [] sm sn h = ground (arith, h x, eq_refl x)
  extensional ((x, v) ∷ m) ((y, w) ∷ n) sm sn h =
      let same = first_equal x y v w m n sm sn h in
      let tails =
        extensional m n (Above→IsSorted x m sm) (Above→IsSorted y n sn)
          (tails_equal x y v w m n sm sn h) in
      ground (arith, (k.eq_iff x y).0 same, h x, eq_refl x, tails, same)
