-- ===== src/Prelude/Lists.antt =====
-- Lists measured by native numbers, and Python's slices.
use Prim.Native.Nat.{ℕ, zero, suc, ◌+◌, ◌-◌, ◌≤◌, ◌<◌}
use mathlib.Core.Path.{◌≡◌, refl, ap, ◌∙◌}
use mathlib.Core.Bool.{Bool, false, ◌||◌}
use mathlib.Core.Logic.{◌≢◌}
use mathlib.Core.List.{List, [], ◌∷◌, ◌++◌}
use native.Mathlib.Omega.{arith}
use manus_claw.Prelude.Tests.{◌==◌, if◌then◌else◌}

module _ {ℓ} {A : Type ℓ} where
  abbrev pub length : List A → ℕ
  length [] = 0
  length (x ∷ xs) = suc (length xs)

  abbrev pub drop : ℕ → List A → List A
  drop zero xs = xs
  drop (suc n) [] = []
  drop (suc n) (x ∷ xs) = drop n xs

  abbrev pub replicate : ℕ → A → List A
  replicate zero a = []
  replicate (suc n) a = a ∷ replicate n a

  pub length-append : (xs ys : List A) → length (xs ++ ys) ≡ length xs + length ys
  length-append [] ys = omega arith
  length-append (x ∷ xs) ys = omega (arith, length-append xs ys)

  pub length-replicate : (n : ℕ) (a : A) → length (replicate n a) ≡ n
  length-replicate zero a = refl
  length-replicate (suc n) a = ap suc (length-replicate n a)

  pub drop-length-append : (xs ys : List A) → drop (length xs) (xs ++ ys) ≡ ys
  drop-length-append [] ys = refl
  drop-length-append (x ∷ xs) ys = drop-length-append xs ys

  -- `xs[-n:]`; `-0` is `0`, so a width of zero keeps the whole list.
  abbrev pub last : ℕ → List A → List A
  last n xs = if n == 0 then xs else drop (length xs - n) xs

  pub last_pos : (n : ℕ) (xs : List A) → 0 < n → last n xs ≡ drop (length xs - n) xs
  last_pos n xs pos = ground arith

  pub drop-replicate : (k n : ℕ) (a : A) → drop k (replicate n a) ≡ replicate (n - k) a
  drop-replicate zero n a = ap (λ m. replicate m a) (omega arith)
  drop-replicate (suc k) zero a = ap (λ m. replicate m a) {x = 0} (omega arith)
  drop-replicate (suc k) (suc n) a = drop-replicate k n a ∙ ap (λ m. replicate m a) (omega arith)

  -- The last `n` of `k` copies are `n` copies.
  pub last-replicate : (n k : ℕ) (a : A) → 0 < n → n ≤ k → last n (replicate k a) ≡ replicate n a
  last-replicate n k a pos fits =
      last_pos n (replicate k a) pos
      ∙ drop-replicate (length (replicate k a) - n) k a
      ∙ ap (λ m. replicate m a) (omega (arith, length-replicate k a))

  -- The last of `old ++ recent`, as many as `recent` has, are `recent`.
  pub last-append :
      (n : ℕ) (old recent : List A) → 0 < n → length recent ≡ n → last n (old ++ recent) ≡ recent
  last-append n old recent pos full =
      last_pos n (old ++ recent) pos
      ∙ ap (λ m. drop m (old ++ recent)) (omega (arith, length-append old recent))
      ∙ drop-length-append old recent

  abbrev pub snoc : List A → A → List A
  snoc xs x = xs ++ x ∷ []

-- `n in ns`
abbrev pub elem : ℕ → List ℕ → Bool
elem n [] = false
elem n (m ∷ ms) = n == m || elem n ms

-- `ns.remove(n)`, which drops the first occurrence; without one the list stays as it is (the
-- `ValueError` of the source is handled where it is called).
abbrev pub erase : ℕ → List ℕ → List ℕ
erase n [] = []
erase n (m ∷ ms) = if n == m then ms else m ∷ erase n ms

-- A store of values by number, written at one place.
abbrev pub update {ℓ} : {A : Type ℓ} → (ℕ → A) → ℕ → A → ℕ → A
update f i v j = if i == j then v else f j

pub elem-snoc : (n m : ℕ) (ms : List ℕ) → elem n (snoc ms m) ≡ (elem n ms || n == m)
elem-snoc n m [] = ground arith
elem-snoc n m (k ∷ ms) = ground (arith, elem-snoc n m ms)

pub elem-erase_ne : (n m : ℕ) (ms : List ℕ) → n ≢ m → elem n (erase m ms) ≡ elem n ms
elem-erase_ne n m [] ne = refl
elem-erase_ne n m (k ∷ ms) ne = ground (arith, elem-erase_ne n m ms ne)
