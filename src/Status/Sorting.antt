-- ===== src/Status/Sorting.antt =====
-- What sorting the sizes of the queues gives.
use savate.Prelude.{
  Bool, Bool-cases, List, [], arith, false, if◌then◌else◌, inl, inr, leb, length, refl, suc, ℕ, ◌+◌,
  ◌==◌, ◌||◌, ◌∷◌, ◌≡◌, ◌≤◌,
}
use savate.Status.{insert, sort, sum}

abbrev pub AllSizes : (ℕ → Type 0) → List ℕ → Type 0
AllSizes P [] = Unit
AllSizes P (x ∷ xs) = P x × AllSizes P xs

abbrev pub IsSorted : List ℕ → Type 0
IsSorted [] = Unit
IsSorted (x ∷ xs) = AllSizes (λ y. x ≤ y) xs × IsSorted xs

abbrev pub mem : ℕ → List ℕ → Bool
mem x [] = false
mem x (y ∷ ys) = y == x || mem x ys

-- How many are at most, or at least, so large.
abbrev pub count_le : ℕ → List ℕ → ℕ
count_le m [] = 0
count_le m (x ∷ xs) = (if leb x m then 1 else 0) + count_le m xs

abbrev pub count_ge : ℕ → List ℕ → ℕ
count_ge m [] = 0
count_ge m (x ∷ xs) = (if leb m x then 1 else 0) + count_ge m xs

mem-insert : (x y : ℕ) (l : List ℕ) → mem x (insert y l) ≡ y == x || mem x l
unfolding insert
mem-insert x y [] = refl
mem-insert x y (z ∷ l) = ground (arith, mem-insert x y l)

pub mem-sort : (x : ℕ) (l : List ℕ) → mem x (sort l) ≡ mem x l
unfolding sort
mem-sort x [] = refl
mem-sort x (y ∷ l) = ground (arith, mem-insert x y (sort l), mem-sort x l)

count_le-insert :
    (m y : ℕ) (l : List ℕ) → count_le m (insert y l) ≡ (if leb y m then 1 else 0) + count_le m l
unfolding insert
count_le-insert m y [] = refl
count_le-insert m y (z ∷ l) = ground (arith, count_le-insert m y l)

pub count_le-sort : (m : ℕ) (l : List ℕ) → count_le m (sort l) ≡ count_le m l
unfolding sort
count_le-sort m [] = refl
count_le-sort m (y ∷ l) = ground (arith, count_le-insert m y (sort l), count_le-sort m l)

count_ge-insert :
    (m y : ℕ) (l : List ℕ) → count_ge m (insert y l) ≡ (if leb m y then 1 else 0) + count_ge m l
unfolding insert
count_ge-insert m y [] = refl
count_ge-insert m y (z ∷ l) = ground (arith, count_ge-insert m y l)

pub count_ge-sort : (m : ℕ) (l : List ℕ) → count_ge m (sort l) ≡ count_ge m l
unfolding sort
count_ge-sort m [] = refl
count_ge-sort m (y ∷ l) = ground (arith, count_ge-insert m y (sort l), count_ge-sort m l)

length-insert : (y : ℕ) (l : List ℕ) → length (insert y l) ≡ suc (length l)
unfolding insert
length-insert y [] = refl
length-insert y (z ∷ l) = ground (arith, length-insert y l)

pub length-sort : (l : List ℕ) → length (sort l) ≡ length l
unfolding sort
length-sort [] = refl
length-sort (y ∷ l) = ground (arith, length-insert y (sort l), length-sort l)

AllSizes-insert :
    (P : ℕ → Type 0) (y : ℕ) (l : List ℕ) → P y → AllSizes P l → AllSizes P (insert y l)
unfolding insert
AllSizes-insert P y [] h k = (h, tt)
AllSizes-insert P y (z ∷ l) h (k, ks) = elim (Bool-cases (leb y z)) [
  | inl e ↦ rw e (h, (k, ks))
  | inr e ↦ rw e (k, AllSizes-insert P y l h ks)
]

AllSizes-le : (x y : ℕ) (l : List ℕ) → x ≤ y → AllSizes (λ z. y ≤ z) l → AllSizes (λ z. x ≤ z) l
AllSizes-le x y [] h k = tt
AllSizes-le x y (z ∷ l) h (k, ks) = (omega arith, AllSizes-le x y l h ks)

insert-IsSorted : (y : ℕ) (l : List ℕ) → IsSorted l → IsSorted (insert y l)
unfolding insert
insert-IsSorted y [] h = (tt, tt)
insert-IsSorted y (z ∷ l) (k, ks) = elim (Bool-cases (leb y z)) [
  | inl e ↦ rw e ((ground arith, AllSizes-le y z l (ground arith) k), (k, ks))
  | inr e ↦ rw e (AllSizes-insert (λ w. z ≤ w) y l (ground arith) k, insert-IsSorted y l ks)
]

pub sort-IsSorted : (l : List ℕ) → IsSorted (sort l)
unfolding sort
sort-IsSorted [] = tt
sort-IsSorted (y ∷ l) = insert-IsSorted y (sort l) (sort-IsSorted l)

sum-insert : (y : ℕ) (l : List ℕ) → sum (insert y l) ≡ y + sum l
unfolding insert sum
sum-insert y [] = refl
sum-insert y (z ∷ l) = ground (arith, sum-insert y l)

pub sum-sort : (l : List ℕ) → sum (sort l) ≡ sum l
unfolding sort sum
sum-sort [] = refl
sum-sort (y ∷ l) = ground (arith, sum-insert y (sort l), sum-sort l)
