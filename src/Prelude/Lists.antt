-- ===== src/Prelude/Lists.antt =====
-- Lists measured by native numbers, and predicates on every element.
use Prim.Native.Nat.{ℕ, zero, suc, ◌+◌, ◌<◌, ◌≤◌}
use mathlib.Core.Logic.{◌⊎◌, inl, inr}
use mathlib.Core.Path.{◌≡◌, refl, ap}
use mathlib.Core.Bool.{Bool, true, false}
use mathlib.Core.List.{List, [], ◌∷◌, ◌++◌, map, Permᴰ}
use native.Mathlib.Omega.{arith}
use pvc_chonker.Prelude.Tests.{if◌then◌else◌}

module _ {ℓ} {A : Type ℓ} where
  abbrev pub length : List A → ℕ
  length [] = 0
  length (x ∷ xs) = suc (length xs)

  -- a loop that appends the elements passing a test
  abbrev pub select : (A → Bool) → List A → List A
  select p [] = []
  select p (x ∷ xs) = let rest = select p xs in if p x then x ∷ rest else rest

  pub length-append : (xs ys : List A) → length (xs ++ ys) ≡ length xs + length ys
  length-append [] ys = omega arith
  length-append (x ∷ xs) ys = omega (arith, length-append xs ys)

abbrev pub All {ℓ κ} : {A : Type ℓ} → (A → Type κ) → List A → Type κ
All P [] = Unit
All P (x ∷ xs) = P x × All P xs

pub All-append {ℓ κ} :
    {A : Type ℓ} (P : A → Type κ) (xs ys : List A) → All P xs → All P ys → All P (xs ++ ys)
All-append P [] ys h k = k
All-append P (x ∷ xs) ys (p, h) k = (p, All-append P xs ys h k)

pub All-map {ℓ κ} :
    {A : Type ℓ} (P Q : A → Type κ) → ((a : A) → P a → Q a) → (xs : List A) → All P xs → All Q xs
All-map P Q f [] h = tt
All-map P Q f (x ∷ xs) (p, h) = (f x p, All-map P Q f xs h)

abbrev pub Any {ℓ} : {A : Type ℓ} → (A → Type 0) → List A → Type 0
Any P [] = ⊥
Any P (x ∷ xs) = P x ⊎ Any P xs

-- One element of a list in the middle: reading it, and putting another in its place.
pub All-middle {ℓ κ} :
    {A : Type ℓ} (P : A → Type κ) (xs : List A) (x : A) (ys : List A) → All P (xs ++ x ∷ ys) → P x
All-middle P [] x ys (p, h) = p
All-middle P (z ∷ xs) x ys (p, h) = All-middle P xs x ys h

pub All-replace {ℓ κ} :
    {A : Type ℓ} (P : A → Type κ) (xs : List A) (x y : A) (ys : List A)
    → All P (xs ++ x ∷ ys)
    → P y
    → All P (xs ++ y ∷ ys)
All-replace P [] x y ys (p, h) q = (q, h)
All-replace P (z ∷ xs) x y ys (p, h) q = (p, All-replace P xs x y ys h q)

-- the sum of the weights
abbrev pub total {ℓ} : {A : Type ℓ} → (A → ℕ) → List A → ℕ
total w [] = 0
total w (x ∷ xs) = w x + total w xs

pub total-replace {ℓ} :
    {A : Type ℓ} (w : A → ℕ) (xs : List A) (x y : A) (ys : List A)
    → total w (xs ++ y ∷ ys) + w x ≡ total w (xs ++ x ∷ ys) + w y
total-replace w [] x y ys = omega arith
total-replace w (z ∷ xs) x y ys = omega (arith, total-replace w xs x y ys)

-- Either no element has a weight, or one with a weight stands somewhere.
pub total-cases {ℓ} :
    {A : Type ℓ} (w : A → ℕ) (xs : List A)
    → (total w xs ≡ 0)
      ⊎ ((before after : List A) × (x : A) × (xs ≡ before ++ x ∷ after) × (0 < w x))
total-cases w [] = inl refl
total-cases {A = A} w (x ∷ xs) = first (w x) refl (total-cases w xs)
  where
    first :
        (n : ℕ)
        → w x ≡ n
        → (total w xs ≡ 0)
          ⊎ ((before after : List A) × (y : A) × (xs ≡ before ++ y ∷ after) × (0 < w y))
        → (w x + total w xs ≡ 0)
          ⊎ ((before after : List A) × (y : A) × (x ∷ xs ≡ before ++ y ∷ after) × (0 < w y))
    first (suc n) e rest = inr ([], xs, x, refl, omega arith)
    first zero e (inl none) = inl (omega arith)
    first zero e (inr (before, after, y, there, heavy)) =
        inr (x ∷ before, after, y, ap (λ l. x ∷ l) there, heavy)

pub le-total {ℓ} :
    {A : Type ℓ} (w : A → ℕ) (xs : List A) (x : A) (ys : List A) → w x ≤ total w (xs ++ x ∷ ys)
le-total w [] x ys = omega arith
le-total w (z ∷ xs) x ys = omega (arith, le-total w xs x ys)

pub map-replace {ℓ κ} :
    {A : Type ℓ} {B : Type κ} (f : A → B) (xs : List A) (x y : A) (ys : List A)
    → f x ≡ f y
    → map f (xs ++ x ∷ ys) ≡ map f (xs ++ y ∷ ys)
map-replace f [] x y ys e = ap (λ b. b ∷ map f ys) e
map-replace f (z ∷ xs) x y ys e = ap (λ bs. f z ∷ bs) (map-replace f xs x y ys e)

-- A predicate on every element, or on some, does not depend on the order of the elements.
pub All-Permᴰ {ℓ κ} :
    {A : Type ℓ} (P : A → Type κ) {xs ys : List A} → Permᴰ xs ys → All P xs → All P ys
All-Permᴰ P Permᴰ.nil h = h
All-Permᴰ P (Permᴰ.cons e p) (px, h) = (rw e at px, All-Permᴰ P p h)
All-Permᴰ P (Permᴰ.swap e f) (px, (py, h)) = (rw f at py, (rw e at px, h))
All-Permᴰ P (Permᴰ.trans p q) h = All-Permᴰ P q (All-Permᴰ P p h)

pub Any-Permᴰ {ℓ} :
    {A : Type ℓ} (P : A → Type 0) {xs ys : List A} → Permᴰ xs ys → Any P xs → Any P ys
Any-Permᴰ P Permᴰ.nil h = h
Any-Permᴰ P (Permᴰ.cons e p) (inl px) = inl (rw e at px)
Any-Permᴰ P (Permᴰ.cons e p) (inr h) = inr (Any-Permᴰ P p h)
Any-Permᴰ P (Permᴰ.swap e f) (inl px) = inr (inl (rw e at px))
Any-Permᴰ P (Permᴰ.swap e f) (inr (inl py)) = inl (rw f at py)
Any-Permᴰ P (Permᴰ.swap e f) (inr (inr h)) = inr (inr h)
Any-Permᴰ P (Permᴰ.trans p q) h = Any-Permᴰ P q (Any-Permᴰ P p h)

-- One element, in a part of a list.
pub Any-append_left {ℓ} :
    {A : Type ℓ} (P : A → Type 0) (xs ys : List A) → Any P xs → Any P (xs ++ ys)
Any-append_left P [] ys h = elim h [ ]
Any-append_left P (x ∷ xs) ys (inl h) = inl h
Any-append_left P (x ∷ xs) ys (inr h) = inr (Any-append_left P xs ys h)

pub Any-append_right {ℓ} :
    {A : Type ℓ} (P : A → Type 0) (xs ys : List A) → Any P ys → Any P (xs ++ ys)
Any-append_right P [] ys h = h
Any-append_right P (x ∷ xs) ys h = inr (Any-append_right P xs ys h)

pub All-select :
    {A : Type 0} (p : A → Bool) (P : A → Type 0) (xs : List A) → All P xs → All P (select p xs)
All-select p P [] h = tt
All-select {A = A} p P (x ∷ xs) (px, h) = kept (p x) (All-select p P xs h)
  where
    kept : (b : Bool) → All P (select p xs) → All P (if b then x ∷ select p xs else select p xs)
    kept true rest = (px, rest)
    kept false rest = rest

pub Any-select :
    {A : Type 0} (p : A → Bool) (a : A) (xs : List A)
    → p a ≡ true
    → Any (λ x. x ≡ a) xs
    → Any (λ x. x ≡ a) (select p xs)
Any-select p a [] h there = elim there [ ]
Any-select p a (x ∷ xs) h (inl e) = let passes : p x ≡ true = rw e h in rw passes (inl e)
Any-select {A = A} p a (x ∷ xs) h (inr there) = kept (p x) (Any-select p a xs h there)
  where
    kept :
        (b : Bool)
        → Any (λ y. y ≡ a) (select p xs)
        → Any (λ y. y ≡ a) (if b then x ∷ select p xs else select p xs)
    kept true rest = inr rest
    kept false rest = rest
