-- ===== src/Prices/Minting/Batches.antt =====
-- The batches in which `_bulk_fetch_existing` asks Stripe for the lookup keys.
use saasmint.Base.{
  ◌≡◌, refl, ap, ℕ, zero, suc, ◌≤◌, List, [], ◌∷◌, ◌++◌, String, All, length, arith,
}
use saasmint.Prices.Minting.Command.{flatten}
use saasmint.Prices.Minting.Keys.{batches, take, drop}

append-take-drop : (n : ℕ) (xs : List String) → take n xs ++ drop n xs ≡ xs
append-take-drop zero xs = refl
append-take-drop (suc n) [] = refl
append-take-drop (suc n) (x ∷ xs) = ap (λ r. x ∷ r) (append-take-drop n xs)

length-take : (n : ℕ) (xs : List String) → length (take n xs) ≤ n
length-take zero xs = omega arith
length-take (suc n) [] = omega arith
length-take (suc n) (x ∷ xs) = ground (arith, length-take n xs)

length-drop : (n : ℕ) (xs : List String) → length (drop n xs) ≤ length xs
length-drop zero xs = omega arith
length-drop (suc n) [] = omega arith
length-drop (suc n) (x ∷ xs) = ground (arith, length-drop n xs)

batches_lem :
    (fuel : ℕ) (keys : List String)
    → length keys ≤ fuel
    → (flatten (batches fuel keys) ≡ keys)
      × All (λ (b : List String). length b ≤ 10) (batches fuel keys)
unfolding batches
batches_lem zero [] h = (refl, tt)
batches_lem zero (k ∷ ks) h = absurd (omega arith)
batches_lem (suc fuel) [] h = (refl, tt)
batches_lem (suc fuel) (k ∷ ks) h =
    let (same, small) = batches_lem fuel (drop 9 ks) (ground (arith, length-drop 9 ks)) in
    (rw same (append-take-drop 10 (k ∷ ks)), (length-take 10 (k ∷ ks), small))

-- The batches of lookup keys hold all of the keys in their order, and ten at most each.
pub batches-flatten :
    (keys : List String)
    → (flatten (batches (length keys) keys) ≡ keys)
      × All (λ (b : List String). length b ≤ 10) (batches (length keys) keys)
unfolding batches
batches-flatten keys = batches_lem (length keys) keys (omega arith)
