-- ===== src/Collections/BTreeSet.antt =====
-- `BTreeSet`: a sorted list of keys.
use amt.Prelude.{◌≡◌, refl, arith, Bool, true, false, not, ◌&&◌, ◌||◌, List, [], ◌∷◌, if◌then◌else◌}
use amt.Collections.Key.{Key, eq_right, eq_left}

module _ {ℓ} {K : Type ℓ} ⦃k : Key K⦄ where
  -- Also the search through a vector or a slice.
  unfoldable pub contains : K → List K → Bool
  contains x [] = false
  contains x (y ∷ s) = k.eq x y || contains x s

  unfoldable pub insert : K → List K → List K
  insert x [] = x ∷ []
  insert x (y ∷ s) = if k.eq x y then y ∷ s else if k.lt x y then x ∷ y ∷ s else y ∷ insert x s

  unfoldable pub remove : K → List K → List K
  remove x [] = []
  remove x (y ∷ s) = let rest = remove x s in if k.eq x y then rest else y ∷ rest

  -- `extend`, and `collect` from the empty set.
  unfoldable pub extend : List K → List K → List K
  unfolding insert
  extend s [] = s
  extend s (x ∷ xs) = extend (insert x s) xs

  unfoldable pub remove_each : List K → List K → List K
  unfolding remove
  remove_each s [] = s
  remove_each s (x ∷ xs) = remove_each (remove x s) xs

  unfoldable pub retain : (K → Bool) → List K → List K
  retain keep [] = []
  retain keep (y ∷ s) = let rest = retain keep s in if keep y then y ∷ rest else rest

  pub contains-nil : (x : K) → contains x [] ≡ false
  unfolding contains
  contains-nil x = refl

  pub contains-insert :
      (y x : K) (s : List K) → contains y (insert x s) ≡ (k.eq y x || contains y s)
  unfolding contains insert
  contains-insert y x [] = refl
  contains-insert y x (z ∷ s) = ground (arith, contains-insert y x s, eq_right x z y)

  pub contains-remove :
      (y x : K) (s : List K) → contains y (remove x s) ≡ (not (k.eq y x) && contains y s)
  unfolding contains remove
  contains-remove y x [] = ground arith
  contains-remove y x (z ∷ s) = ground (arith, contains-remove y x s, eq_right x z y, eq_left y x z)

  pub contains-extend :
      (y : K) (s xs : List K) → contains y (extend s xs) ≡ (contains y xs || contains y s)
  unfolding contains extend
  contains-extend y s [] = refl
  contains-extend y s (x ∷ xs) =
      ground (arith, contains-extend y (insert x s) xs, contains-insert y x s)

  pub contains-remove_each :
      (y : K) (s xs : List K)
      → contains y (remove_each s xs) ≡ (not (contains y xs) && contains y s)
  unfolding contains remove_each
  contains-remove_each y s [] = refl
  contains-remove_each y s (x ∷ xs) =
      ground (arith, contains-remove_each y (remove x s) xs, contains-remove y x s)

  keep_eq : (y z : K) (keep : K → Bool) → k.eq y z ≡ true → keep y ≡ keep z
  keep_eq y z keep h = rw ((k.eq_iff y z).0 h)

  pub contains-retain :
      (y : K) (keep : K → Bool) (s : List K) → contains y (retain keep s) ≡ (keep y && contains y s)
  unfolding contains retain
  contains-retain y keep [] = ground arith
  contains-retain y keep (z ∷ s) = ground (arith, contains-retain y keep s, keep_eq y z keep)
