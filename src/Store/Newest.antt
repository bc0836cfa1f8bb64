-- ===== src/Store/Newest.antt =====
-- The last elements of a list, as many as there is room for.
use lens.Prelude.{
  ℕ, zero, suc, ◌-◌, ◌≤◌, ◌<◌, min, List, [], ◌∷◌, ◌++◌, length, drop, length-append, length-drop,
  drop-append, map, ◌≡◌, refl, ap, ◌∙◌, sym, arith,
}

-- The last `n` elements, or all of fewer.
abbrev pub newest {ℓ} : {A : Type ℓ} → ℕ → List A → List A
newest n xs = drop (length xs - n) xs

pub length-map {ℓ κ} :
    {A : Type ℓ} {B : Type κ} (f : A → B) (xs : List A) → length (map f xs) ≡ length xs
length-map f [] = refl
length-map f (x ∷ xs) = ap suc (length-map f xs)

drop-suc {ℓ} : {A : Type ℓ} (k : ℕ) (xs : List A) → drop 1 (drop k xs) ≡ drop (suc k) xs
drop-suc zero xs = refl
drop-suc (suc k) [] = refl
drop-suc (suc k) (x ∷ xs) = drop-suc k xs

pub length-newest {ℓ} :
    {A : Type ℓ} (n : ℕ) (xs : List A) → length (newest n xs) ≡ min n (length xs)
length-newest n xs = omega (arith, length-drop (length xs - n) xs)

-- One more element, where there is no room for it, and where there is.
pub newest-full {ℓ} :
    {A : Type ℓ} (n : ℕ) (xs : List A) (x : A)
    → 0 < n
    → n ≤ length xs
    → newest n (xs ++ x ∷ []) ≡ drop 1 (newest n xs) ++ x ∷ []
newest-full n xs x p h =
    let k : length (xs ++ x ∷ []) - n ≡ suc (length xs - n) =
      omega (arith, length-append xs (x ∷ [])) in
    ap (λ i. drop i (xs ++ x ∷ [])) k
    ∙ drop-append (suc (length xs - n)) xs (x ∷ []) (omega arith)
    ∙ ap (◌++ (x ∷ [])) (sym (drop-suc (length xs - n) xs))

pub newest-room {ℓ} :
    {A : Type ℓ} (n : ℕ) (xs : List A) (x : A)
    → length xs < n
    → newest n (xs ++ x ∷ []) ≡ newest n xs ++ x ∷ []
newest-room n xs x h =
    let k : length (xs ++ x ∷ []) - n ≡ 0 = omega (arith, length-append xs (x ∷ [])) in
    let l : length xs - n ≡ 0 = omega arith in
    ap (λ i. drop i (xs ++ x ∷ [])) k ∙ ap (λ i. drop i xs ++ x ∷ []) (sym l)
