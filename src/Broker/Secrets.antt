-- ===== src/Broker/Secrets.antt =====
-- The padding that internal/localremote/token.go puts behind the signed document.
use wol.Prelude.{
  List, [], ap, arith, length, length-append, length-replicate, refl, replicate, suc, take, zero, ℕ,
  ◌%◌, ◌++◌, ◌+◌, ◌-◌, ◌<◌, ◌∷◌, ◌≡◌, ◌≤◌,
}
use wol.Broker.Token.{pad}

-- PKCS#7, as the reader of a token takes the padding off: the last byte counts the bytes to drop.
unfoldable pub last_of : List ℕ → ℕ
last_of [] = 0
last_of (c ∷ []) = c
last_of (c ∷ d ∷ s) = last_of (d ∷ s)

unfoldable pub unpad : List ℕ → List ℕ
unpad padded = take (length padded - last_of padded) padded

last_of-append : (xs : List ℕ) (y : ℕ) (ys : List ℕ) → last_of (xs ++ (y ∷ ys)) ≡ last_of (y ∷ ys)
unfolding last_of
last_of-append [] y ys = refl
last_of-append (x ∷ []) y ys = refl
last_of-append (x ∷ x' ∷ xs) y ys = last_of-append (x' ∷ xs) y ys

last_of-replicate : (n k : ℕ) → last_of (replicate (suc k) n) ≡ n
unfolding last_of
last_of-replicate n zero = refl
last_of-replicate n (suc k) = last_of-replicate n k

take-append : (xs ys : List ℕ) → take (length xs) (xs ++ ys) ≡ xs
take-append [] ys = refl
take-append (x ∷ xs) ys = ap (λ l. x ∷ l) (take-append xs ys)

unpad-replicate : (xs : List ℕ) (n : ℕ) → 1 ≤ n → unpad (xs ++ replicate n n) ≡ xs
unfolding unpad
unpad-replicate xs zero h = absurd (omega arith)
unpad-replicate xs (suc k) h =
    let size : length (xs ++ replicate (suc k) (suc k)) - suc k ≡ length xs =
      omega
        (arith, length-append xs (replicate (suc k) (suc k)), length-replicate (suc k) (suc k)) in
    rw (last_of-append xs (suc k) (replicate k (suc k)), last_of-replicate (suc k) k, size)
      (take-append xs (replicate (suc k) (suc k)))

-- The padded bytes fill whole blocks of 16, at least one byte is added and at most 16, and taking
-- the padding off as PKCS#7 says gives the bytes back.
pub unpad-pad :
    (signed : List ℕ)
    → (length (pad signed) % 16 ≡ 0)
      × (length signed < length (pad signed))
      × (length (pad signed) ≤ length signed + 16)
      × (unpad (pad signed) ≡ signed)
unfolding pad
unpad-pad signed =
    let n = 16 - length signed % 16 in
    let size : length (signed ++ replicate n n) ≡ length signed + n =
      omega (arith, length-append signed (replicate n n), length-replicate n n) in
    (
      omega (arith, size),
      omega (arith, size),
      omega (arith, size),
      unpad-replicate signed n (omega arith),
    )
