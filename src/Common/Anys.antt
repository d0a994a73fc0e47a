-- ===== src/Common/Anys.antt =====
-- Tests on lists: where one passes.
use mathlib.Core.Path.{◌≡◌, refl, sym}
use mathlib.Core.Bool.{Bool, true, false, ◌||◌, ◌&&◌}
use mathlib.Core.List.{List, [], ◌∷◌, ◌++◌}
use native.Mathlib.Omega.{arith}
use redwood_filter.Common.Tests.{if◌then◌else◌}
use redwood_filter.Common.Lists.{any}

pub or_false : (b : Bool) → (b || false) ≡ b
or_false true = refl
or_false false = refl

pub or_assoc : (a b c : Bool) → ((a || b) || c) ≡ (a || (b || c))
or_assoc true b c = refl
or_assoc false b c = refl

pub any-append {ℓ} :
    {A : Type ℓ} (f : A → Bool) (xs ys : List A) → any f (xs ++ ys) ≡ (any f xs || any f ys)
any-append f [] ys = refl
any-append f (x ∷ xs) ys = ground (arith, any-append f xs ys)

pub any_or {ℓ} :
    {A : Type ℓ} (f g : A → Bool) (xs : List A) → any (λ x. f x || g x) xs ≡ (any f xs || any g xs)
any_or f g [] = refl
any_or f g (x ∷ xs) = ground (arith, any_or f g xs)

pub any-nothing {ℓ} : {A : Type ℓ} (xs : List A) → any (λ x. false) xs ≡ false
any-nothing [] = refl
any-nothing (x ∷ xs) = any-nothing xs

pub if_or {ℓ} :
    {A : Type ℓ} (a b : Bool) (x y : A)
    → (if a then x else if b then x else y) ≡ (if a || b then x else y)
if_or true b x y = refl
if_or false b x y = refl

pub any-and {ℓ} :
    {A : Type ℓ} (b : Bool) (f : A → Bool) (xs : List A) → any (λ x. b && f x) xs ≡ (b && any f xs)
any-and true f xs = refl
any-and false f xs = any-nothing xs

pub any_swap {ℓ κ} :
    {A : Type ℓ} {B : Type κ} (f : A → B → Bool) (xs : List A) (ys : List B)
    → any (λ x. any (f x) ys) xs ≡ any (λ y. any (λ x. f x y) xs) ys
any_swap f [] ys = sym (any-nothing ys)
any_swap f (x ∷ xs) ys = rw (any_or (f x) (λ y. any (λ x. f x y) xs) ys, any_swap f xs ys) refl

pub any_same {ℓ} :
    {A : Type ℓ} (f g : A → Bool) → ((x : A) → f x ≡ g x) → (xs : List A) → any f xs ≡ any g xs
any_same f g h [] = refl
any_same f g h (x ∷ xs) = rw (h x, any_same f g h xs) refl
