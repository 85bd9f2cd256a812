-- ===== src/Text/Laws.antt =====
-- Laws of comparison and trimming.
use wol.Prelude.{
  All, Bool-cases, [], arith, false, if◌then◌else◌, inl, inr, refl, true, ℕ, ◌↔◌, ◌∷◌, ◌≡◌,
}
use wol.Text.{Text, is_space, teq, trim_left, trim_right, trim_space}

pub teq_iff : (s t : Text) → (teq s t ≡ true) ↔ (s ≡ t)
unfolding teq
teq_iff [] [] = ground arith
teq_iff [] (b ∷ t) = ground arith
teq_iff (a ∷ s) [] = ground arith
teq_iff (a ∷ s) (b ∷ t) = ground (arith, teq_iff s t)

pub teq_refl : (s : Text) → teq s s ≡ true
teq_refl s = (teq_iff s s).1 refl

abbrev pub NoSpace : Text → Type 0
NoSpace = All (λ c. is_space c ≡ false)

trim_left-NoSpace : (s : Text) → NoSpace s → trim_left s ≡ s
unfolding trim_left
trim_left-NoSpace [] h = refl
trim_left-NoSpace (c ∷ s) h = ground arith

trim_right-NoSpace : (s : Text) → NoSpace s → trim_right s ≡ s
unfolding trim_right
trim_right-NoSpace [] h = refl
trim_right-NoSpace (c ∷ []) h = ground arith
trim_right-NoSpace (c ∷ d ∷ s) h = rw (trim_right-NoSpace (d ∷ s) h.1)

-- A text with no space in it is its own trim.
pub trim_space-NoSpace : (s : Text) → NoSpace s → trim_space s ≡ s
unfolding trim_space
trim_space-NoSpace s h = rw (trim_left-NoSpace s h) (trim_right-NoSpace s h)

-- Trimming twice is trimming once.
put_back : ℕ → Text → Text
put_back c [] = if is_space c then [] else c ∷ []
put_back c (d ∷ r) = c ∷ d ∷ r

trim_right-cons : (c : ℕ) (s : Text) → trim_right (c ∷ s) ≡ put_back c (trim_right s)
unfolding trim_right put_back
trim_right-cons c s = ground arith

trim_right-put_back :
    (c : ℕ) (r : Text) → trim_right r ≡ r → trim_right (put_back c r) ≡ put_back c r
unfolding trim_right put_back
trim_right-put_back c [] h = ground arith
trim_right-put_back c (d ∷ r) h = rw (trim_right-cons c (d ∷ r), h) refl

trim_right_twice : (s : Text) → trim_right (trim_right s) ≡ trim_right s
unfolding trim_right
trim_right_twice [] = refl
trim_right_twice (c ∷ s) =
    rw (trim_right-cons c s) (trim_right-put_back c (trim_right s) (trim_right_twice s))

trim_left-put_back :
    (c : ℕ) (r : Text) → is_space c ≡ false → trim_left (put_back c r) ≡ put_back c r
unfolding trim_left put_back
trim_left-put_back c [] h = ground arith
trim_left-put_back c (d ∷ r) h = ground arith

trim_right_nil : trim_right [] ≡ []
unfolding trim_right
trim_right_nil = refl

-- what is trimmed on the left stays so when it is trimmed on the right
trim_left-trim_right : (s : Text) → trim_left (trim_right (trim_left s)) ≡ trim_right (trim_left s)
unfolding trim_left
trim_left-trim_right [] = rw trim_right_nil refl
trim_left-trim_right (c ∷ s) = elim (Bool-cases (is_space c)) [
  | inl space ↦ rw (space, trim_left) (trim_left-trim_right s)
  | inr other ↦
      rw (other, trim_left, trim_right-cons c s) (trim_left-put_back c (trim_right s) other)
]

pub trim_space_twice : (s : Text) → trim_space (trim_space s) ≡ trim_space s
unfolding trim_space
trim_space_twice s = rw (trim_left-trim_right s) (trim_right_twice (trim_left s))
