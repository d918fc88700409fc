-- ===== src/Aiter/Folds.antt =====
-- `reduce` of src/aiodrive/modules/aiter.py is a fold over what `collect` gives.
use aiodrive.Prelude.{◌≡◌, refl, ap, ◌∙◌, Option, none, some, List, [], ◌∷◌}
use aiodrive.Asyncio.{type_error, Outcome, returned, raised}
use aiodrive.Aiter.{
  Stream, stops, fails, gives, cons_item, collect, ensure_aiter, shield_aiter, reduce_from, reduce,
}

abbrev pub foldl : {A S : Type 0} → (S → A → S) → S → List A → S
foldl f s [] = s
foldl f s (x ∷ xs) = foldl f (f s x) xs

-- The fold of a list without an initial value.
abbrev pub foldl1 : {A : Type 0} → (A → A → A) → List A → Outcome A
foldl1 f [] = raised type_error
foldl1 f (x ∷ xs) = returned (foldl f x xs)

abbrev pub and_fold : {A S : Type 0} → (List A → Outcome S) → Outcome (List A) → Outcome S
and_fold f (returned xs) = f xs
and_fold f (raised e) = raised e

and_fold-cons_item :
    {A S : Type 0} (f : S → A → S) (s : S) (a : A) (o : Outcome (List A))
    → and_fold (λ xs. returned (foldl f (f s a) xs)) o
      ≡ and_fold (λ xs. returned (foldl f s xs)) (cons_item a o)
and_fold-cons_item f s a (returned xs) = refl
and_fold-cons_item f s a (raised e) = refl

reduce_from-collect :
    {A S : Type 0} (f : S → A → S) (initial : S) (s : Stream A)
    → reduce_from f initial s ≡ and_fold (λ xs. returned (foldl f initial xs)) (collect s)
unfolding reduce_from collect
reduce_from-collect f initial stops = refl
reduce_from-collect f initial (fails e) = refl
reduce_from-collect f initial (gives a s) =
    reduce_from-collect f (f initial a) s ∙ and_fold-cons_item f initial a (collect s)

first_item :
    {A : Type 0} (f : A → A → A) (a : A) (o : Outcome (List A))
    → and_fold (λ xs. returned (foldl f a xs)) o ≡ and_fold (foldl1 f) (cons_item a o)
first_item f a (returned xs) = refl
first_item f a (raised e) = refl

-- On any asynchronous iterator, `reduce` gives the fold, from the left, of the items that `collect`
-- gives, from the initial value or, without one, from the first item; without either it raises
-- `TypeError`, and where `collect` raises, it raises the same.
pub reduce-collect :
    {A : Type 0} (f : A → A → A) (s : Stream A) (initial : Option A)
    → reduce f s initial
      ≡ and_fold
          (λ xs. elim initial [ none ↦ foldl1 f xs | some a ↦ returned (foldl f a xs) ])
          (collect s)
unfolding reduce
reduce-collect f s (some a) = reduce_from-collect f a s
reduce-collect f stops none = unfold collect in refl
reduce-collect f (fails e) none = unfold collect in refl
reduce-collect f (gives a s) none =
    unfold collect in (reduce_from-collect f a s ∙ first_item f a (collect s))

-- Shielding keeps the items, and so does making an asynchronous iterator of a list.
pub collect-shield_aiter : {A : Type 0} (s : Stream A) → collect (shield_aiter s) ≡ collect s
unfolding collect shield_aiter
collect-shield_aiter stops = refl
collect-shield_aiter (fails e) = refl
collect-shield_aiter (gives a s) = ap (cons_item a) (collect-shield_aiter s)

pub collect-ensure_aiter : {A : Type 0} (xs : List A) → collect (ensure_aiter xs) ≡ returned xs
unfolding collect ensure_aiter
collect-ensure_aiter [] = refl
collect-ensure_aiter (x ∷ xs) = ap (cons_item x) (collect-ensure_aiter xs)
