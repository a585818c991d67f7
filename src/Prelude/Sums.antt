-- ===== src/Prelude/Sums.antt =====
-- Sums over the numbers below a bound, and how often a number stands in a list.
use native.Mathlib.Decide.{ℕ_discrete}
use web_os.Prelude.Maps.{update, update_self, update_ne}
use web_os.Prelude.{
  ℕ, zero, suc, ◌+◌, ◌≤◌, ◌<◌, ◌≡◌, ◌≢◌, refl, sym, ap, List, [], ◌∷◌, ◌++◌, Bool, arith, length,
  ◌==◌, if◌then◌else◌,
}

unfoldable pub sum : ℕ → (ℕ → ℕ) → ℕ
sum zero f = 0
sum (suc n) f = f n + sum n f

abbrev pub one_if : Bool → ℕ
one_if b = if b then 1 else 0

pub count : ℕ → List ℕ → ℕ
count i [] = 0
count i (x ∷ xs) = one_if (x == i) + count i xs

pub sum-same : (n : ℕ) (f g : ℕ → ℕ) → ((i : ℕ) → i < n → f i ≡ g i) → sum n f ≡ sum n g
unfolding sum
sum-same zero f g h = refl
sum-same (suc n) f g h =
    omega (arith, h n (omega arith), sum-same n f g (λ i lt. h i (omega (arith, lt))))

-- One term changes.
pub sum-change :
    (n k : ℕ) (f g : ℕ → ℕ) → k < n → ((i : ℕ) → i ≢ k → f i ≡ g i) → sum n f + g k ≡ sum n g + f k
unfolding sum
sum-change zero k f g h other = absurd (omega (arith, h))
sum-change (suc n) k f g h other = elim (ℕ_discrete n k) [
  | yes e ↦ omega (arith, last e, sum-same n f g (λ i lt. other i (λ e'. omega (arith, e', e, lt))))
  | no ne ↦ omega (arith, other n ne, sum-change n k f g (omega (arith, h, ne)) other)
]
  where
    last : n ≡ k → f n + g k ≡ g n + f k
    last e = rw e (omega arith)

pub sum-add : (n : ℕ) (f g : ℕ → ℕ) → sum n (λ i. f i + g i) ≡ sum n f + sum n g
unfolding sum
sum-add zero f g = refl
sum-add (suc n) f g = omega (arith, sum-add n f g)

pub sum-le : (n : ℕ) (f g : ℕ → ℕ) → ((i : ℕ) → i < n → f i ≤ g i) → sum n f ≤ sum n g
unfolding sum
sum-le zero f g h = omega arith
sum-le (suc n) f g h =
    omega (arith, h n (omega arith), sum-le n f g (λ i lt. h i (omega (arith, lt))))

pub term-le-sum : (n k : ℕ) (f : ℕ → ℕ) → k < n → f k ≤ sum n f
unfolding sum
term-le-sum zero k f h = absurd (omega (arith, h))
term-le-sum (suc n) k f h = elim (ℕ_discrete n k) [
  | yes e ↦ omega (arith, ap f e)
  | no ne ↦ omega (arith, term-le-sum n k f (omega (arith, h, ne)))
]

pub count-append : (i x : ℕ) (xs : List ℕ) → count i (xs ++ x ∷ []) ≡ count i xs + one_if (x == i)
unfolding count
count-append i x [] = omega arith
count-append i x (y ∷ ys) = omega (arith, count-append i x ys)

pub sum_zero : (n : ℕ) → sum n (λ i. 0) ≡ 0
unfolding sum
sum_zero zero = refl
sum_zero (suc n) = omega (arith, sum_zero n)

sum-one : (n x : ℕ) → x < n → sum n (λ i. one_if (x == i)) ≡ 1
sum-one n x h = omega (
  arith,
  sum-change n x (λ i. one_if (x == i)) (λ i. 0) h (λ i ne. ground (arith, ne)),
  sum_zero n,
  self,
)
  where
    self : one_if (x == x) ≡ 1
    self = ground arith

-- A list of numbers below `n` is as long as all of them stand in it together.
pub sum-count :
    (n : ℕ) (xs : List ℕ) → ((i : ℕ) → n ≤ i → count i xs ≡ 0) → sum n (λ i. count i xs) ≡ length xs
unfolding count
sum-count n [] h = sum_zero n
sum-count n (x ∷ xs) h = omega (
  arith,
  sum-add n (λ i. one_if (x == i)) (λ i. count i xs),
  sum-one n x below,
  sum-count n xs (λ i le. ground (arith, h i le)),
)
  where
    below : x < n
    below = ground (arith, h x)

ones : (n : ℕ) → sum n (λ i. 1) ≡ n
unfolding sum
ones zero = refl
ones (suc n) = omega (arith, ones n)

-- A list in which each of the numbers below `n` stands at most once.
pub length-le-bound :
    (n : ℕ) (xs : List ℕ)
    → ((i : ℕ) → n ≤ i → count i xs ≡ 0)
    → ((i : ℕ) → count i xs ≤ 1)
    → length xs ≤ n
length-le-bound n xs above once =
    omega
      (arith, sum-count n xs above, sum-le n (λ i. count i xs) (λ i. 1) (λ i lt. once i), ones n)

pub count_cons : (i x : ℕ) (xs : List ℕ) → count i (x ∷ xs) ≡ one_if (x == i) + count i xs
unfolding count
count_cons i x xs = refl

pub count-none : (i : ℕ) → count i [] ≡ 0
unfolding count
count-none i = refl

-- Two terms.
pub terms-le-sum : (n j k : ℕ) (f : ℕ → ℕ) → j < n → k < n → j ≢ k → f j + f k ≤ sum n f
terms-le-sum n j k f hj hk ne = omega (
  arith,
  sum-change n j f g hj (λ i ne'. sym (update_ne f 0 ne')),
  term-le-sum n k g hk,
  update_ne f 0 (λ e. ne (sym e)),
  update_self f j 0,
)
  where
    g : ℕ → ℕ
    g = update f j 0
