-- ===== src/Prelude/Lists.antt =====
-- Lists measured by native numbers, and predicates by recursion.
use Prim.Native.Nat.{ℕ, zero, suc, ◌+◌, ◌<◌}
use mathlib.Core.Path.{◌≡◌, refl, sym, ap, subst}
use mathlib.Core.Logic.Or
use mathlib.Core.Logic.{◌≢◌}
use mathlib.Core.List.{
  List, [], ◌∷◌, ◌++◌, Perm, Mem, mem-cons, not-mem-nil, mem-cons_self, mem-cons_of_mem,
}
use mathlib.Core.List.Perm
use mathlib.Core.Option.{Option, none, some}
use native.Mathlib.Omega.{arith}

module _ {ℓ} {A : Type ℓ} where
  abbrev pub length : List A → ℕ
  length [] = 0
  length (x ∷ xs) = suc (length xs)

  pub length-append : (xs ys : List A) → length (xs ++ ys) ≡ length xs + length ys
  length-append [] ys = omega arith
  length-append (x ∷ xs) ys = omega (arith, length-append xs ys)

-- Every element satisfies the predicate.
abbrev pub All {ℓ κ} : {A : Type ℓ} → (A → Type κ) → List A → Type κ
All good [] = Unit
All good (head ∷ tail) = good head × All good tail

module _ {ℓ κ} {A : Type ℓ} (P : A → Type κ) where
  pub All-append : (xs ys : List A) → All P xs → All P ys → All P (xs ++ ys)
  All-append [] ys p q = q
  All-append (x ∷ xs) ys p q = (p.0, All-append xs ys p.1 q)

module _ {ℓ} {A : Type ℓ} (P : A → Type 0) where
  pub All-of_Mem : (xs : List A) → ((a : A) → Mem a xs → P a) → All P xs
  All-of_Mem [] h = tt
  All-of_Mem (x ∷ xs) h = (h x mem-cons_self, All-of_Mem xs (λ a m. h a (mem-cons_of_mem x m)))

  pub Mem-All : ((a : A) → IsProp (P a)) → (xs : List A) (a : A) → All P xs → Mem a xs → P a
  Mem-All p [] a h m = absurd (not-mem-nil m)
  Mem-All p (x ∷ xs) a h m =
      Or.elim (p a) (mem-cons.0 m) (λ e. subst P (sym e) h.0) (Mem-All p xs a h.1)

module _ {ℓ} {A : Type ℓ} where
  abbrev pub get_elem? : List A → ℕ → Option A
  get_elem? [] i = none
  get_elem? (x ∷ xs) zero = some x
  get_elem? (x ∷ xs) (suc i) = get_elem? xs i

  abbrev pub set : List A → ℕ → A → List A
  set [] i v = []
  set (x ∷ xs) zero v = v ∷ xs
  set (x ∷ xs) (suc i) v = x ∷ set xs i v

  abbrev pub take : ℕ → List A → List A
  take zero xs = []
  take (suc n) [] = []
  take (suc n) (x ∷ xs) = x ∷ take n xs

  pub some_injective : {a b : A} → some a ≡ some b → a ≡ b
  some_injective e = cc

  -- The last element on top of the rest of the list.
  take_last-perm :
      (x l : A) (xs : List A)
      → get_elem? (x ∷ xs) (length xs) ≡ some l
      → Perm (l ∷ take (length xs) (x ∷ xs)) (x ∷ xs)
  take_last-perm x l [] e =
      subst (λ v. Perm (v ∷ []) (x ∷ [])) (some_injective e) (Perm.refl (x ∷ []))
  take_last-perm x l (y ∷ ys) e =
      Perm.trans (Perm.swap x l (take (length ys) (y ∷ ys))) (Perm.cons x (take_last-perm y l ys e))

  -- Overwriting place `i` by the last element and cutting the end off takes element `i` out.
  pub swap_last-perm :
      (x n l : A) (xs : List A) (i : ℕ)
      → get_elem? (x ∷ xs) i ≡ some n
      → get_elem? (x ∷ xs) (length xs) ≡ some l
      → Perm (n ∷ take (length xs) (set (x ∷ xs) i l)) (x ∷ xs)
  swap_last-perm x n l [] zero e f =
      subst (λ v. Perm (v ∷ []) (x ∷ [])) (some_injective e) (Perm.refl (x ∷ []))
  swap_last-perm x n l [] (suc i) e f = cc
  swap_last-perm x n l (y ∷ ys) zero e f =
      subst (λ v. Perm (v ∷ l ∷ take (length ys) (y ∷ ys)) (x ∷ y ∷ ys)) (some_injective e)
        (Perm.cons x (take_last-perm y l ys f))
  swap_last-perm x n l (y ∷ ys) (suc i) e f =
      Perm.trans (Perm.swap x n (take (length ys) (set (y ∷ ys) i l)))
        (Perm.cons x (swap_last-perm y n l ys i e f))

module _ {ℓ} {A : Type ℓ} where
  pub get_elem?-set_self :
      (xs : List A) (i : ℕ) (v x : A) → get_elem? xs i ≡ some x → get_elem? (set xs i v) i ≡ some v
  get_elem?-set_self [] i v x h = cc
  get_elem?-set_self (y ∷ xs) zero v x h = refl
  get_elem?-set_self (y ∷ xs) (suc i) v x h = get_elem?-set_self xs i v x h

  pub get_elem?-set_ne :
      (xs : List A) (i j : ℕ) (v : A) → i ≢ j → get_elem? (set xs i v) j ≡ get_elem? xs j
  get_elem?-set_ne [] i j v h = refl
  get_elem?-set_ne (x ∷ xs) zero zero v h = absurd (h refl)
  get_elem?-set_ne (x ∷ xs) zero (suc j) v h = refl
  get_elem?-set_ne (x ∷ xs) (suc i) zero v h = refl
  get_elem?-set_ne (x ∷ xs) (suc i) (suc j) v h = get_elem?-set_ne xs i j v (λ e. h (ap suc e))

  pub get_elem?-append_last : (xs : List A) (x : A) → get_elem? (xs ++ x ∷ []) (length xs) ≡ some x
  get_elem?-append_last [] x = refl
  get_elem?-append_last (y ∷ xs) x = get_elem?-append_last xs x

  pub get_elem?-append_left :
      (xs ys : List A) (i : ℕ) (x : A) → get_elem? xs i ≡ some x → get_elem? (xs ++ ys) i ≡ some x
  get_elem?-append_left [] ys i x h = cc
  get_elem?-append_left (y ∷ xs) ys zero x h = h
  get_elem?-append_left (y ∷ xs) ys (suc i) x h = get_elem?-append_left xs ys i x h

  pub get_elem?-lt : (xs : List A) (i : ℕ) (x : A) → get_elem? xs i ≡ some x → i < length xs
  get_elem?-lt [] i x h = cc
  get_elem?-lt (y ∷ xs) zero x h = omega arith
  get_elem?-lt (y ∷ xs) (suc i) x h = omega (arith, get_elem?-lt xs i x h)
