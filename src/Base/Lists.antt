-- ===== src/Base/Lists.antt =====
-- Lists: the native length, and what holds of one element or of all.
use Prim.Native.Nat.{ℕ, zero, suc, ◌<◌}
use mathlib.Core.Path.{◌≡◌, refl, subst}
use mathlib.Core.Logic.{◌⊎◌, inl, inr}
use mathlib.Core.Option.{Option, none, some}
use native.Mathlib.Omega.{arith}
use mathlib.Core.List.{List, [], ◌∷◌, ◌++◌, map}

abbrev pub length {ℓ} : {A : Type ℓ} → List A → ℕ
length [] = 0
length (x ∷ xs) = suc (length xs)

abbrev pub get_elem? {ℓ} : {A : Type ℓ} → List A → ℕ → Option A
get_elem? [] i = none
get_elem? (x ∷ xs) zero = some x
get_elem? (x ∷ xs) (suc i) = get_elem? xs i

pub get_elem?-lt {ℓ} :
    {A : Type ℓ} (xs : List A) (i : ℕ) (x : A) → get_elem? xs i ≡ some x → i < length xs
get_elem?-lt [] i x h = absurd (cc)
get_elem?-lt (y ∷ xs) zero x h = omega arith
get_elem?-lt (y ∷ xs) (suc i) x h = omega (arith, get_elem?-lt xs i x h)

abbrev pub All {ℓ} : {A : Type ℓ} → (A → Type 0) → List A → Type 0
All P [] = Unit
All P (x ∷ xs) = P x × All P xs

abbrev pub Any {ℓ} : {A : Type ℓ} → (A → Type 0) → List A → Type 0
Any P [] = ⊥
Any P (x ∷ xs) = P x ⊎ Any P xs

pub Any-map {ℓ} :
    {A : Type ℓ} {P Q : A → Type 0} (f : (x : A) → P x → Q x) (xs : List A) → Any P xs → Any Q xs
Any-map f [] h = h
Any-map f (x ∷ xs) (inl h) = inl (f x h)
Any-map f (x ∷ xs) (inr h) = inr (Any-map f xs h)

pub All-map {ℓ} :
    {A : Type ℓ} {P Q : A → Type 0} (f : (x : A) → P x → Q x) (xs : List A) → All P xs → All Q xs
All-map f [] h = h
All-map f (x ∷ xs) h = (f x h.0, All-map f xs h.1)

-- What one element has and all have.
pub Any-All {ℓ} :
    {A : Type ℓ} (P Q : A → Type 0) (xs : List A) → Any P xs → All Q xs → Any (λ x. P x × Q x) xs
Any-All P Q [] h all = h
Any-All P Q (x ∷ xs) (inl h) all = inl (h, all.0)
Any-All P Q (x ∷ xs) (inr h) all = inr (Any-All P Q xs h all.1)

pub Any-none {ℓ} : {A : Type ℓ} (xs : List A) → Any (λ x. ⊥) xs → ⊥
Any-none [] h = h
Any-none (x ∷ xs) (inl h) = h
Any-none (x ∷ xs) (inr h) = Any-none xs h

-- What holds of an element that is in the list.
pub Any-at {ℓ} :
    {A : Type ℓ} (Q : A → Type 0) (y : A) (xs : List A) → Any (λ x. Q y → Q x) xs → Q y → Any Q xs
Any-at Q y xs h q = Any-map (λ x f. f q) xs h

pub All-at {ℓ} :
    {A : Type ℓ} (Q : A → Type 0) (y : A) (xs : List A) → Any (λ x. Q x → Q y) xs → All Q xs → Q y
All-at Q y [] h all = absurd h
All-at Q y (x ∷ xs) (inl h) all = h all.0
All-at Q y (x ∷ xs) (inr h) all = All-at Q y xs h all.1

pub Any-append_left {ℓ} :
    {A : Type ℓ} (P : A → Type 0) (xs ys : List A) → Any P xs → Any P (xs ++ ys)
Any-append_left P [] ys h = absurd h
Any-append_left P (x ∷ xs) ys (inl h) = inl h
Any-append_left P (x ∷ xs) ys (inr h) = inr (Any-append_left P xs ys h)

pub Any-append_right {ℓ} :
    {A : Type ℓ} (P : A → Type 0) (xs ys : List A) → Any P ys → Any P (xs ++ ys)
Any-append_right P [] ys h = h
Any-append_right P (x ∷ xs) ys h = inr (Any-append_right P xs ys h)

-- Two functions that give one list of images agree at each element.
pub All-map_eq {ℓ κ} :
    {A : Type ℓ} {B : Type κ} (f g : A → B) (P : A → Type 0) (xs : List A)
    → map f xs ≡ map g xs
    → ((x : A) → f x ≡ g x → P x)
    → All P xs
All-map_eq f g P [] h keep = tt
All-map_eq f g P (x ∷ xs) h keep = (keep x (cc), All-map_eq f g P xs (cc) keep)

pub All-both {ℓ} :
    {A : Type ℓ} (P Q : A → Type 0) (xs : List A) → All P xs → All Q xs → All (λ x. P x × Q x) xs
All-both P Q [] h k = tt
All-both P Q (x ∷ xs) h k = ((h.0, k.0), All-both P Q xs h.1 k.1)

-- What all elements have, the elements of a list whose elements are among them have.
pub All-within :
    {A : Type 0} (P : A → Type 0) (xs ys : List A)
    → ((Q : A → Type 0) → Any Q ys → Any Q xs)
    → All P xs
    → All P ys
All-within P xs [] within all = tt
All-within P xs (y ∷ ys) within all = (
  All-at P y xs (Any-map (λ x e. subst P e) xs (within (λ x. x ≡ y) (inl refl))) all,
  All-within P xs ys (λ Q h. within Q (inr h)) all,
)
