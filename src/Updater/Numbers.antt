-- ===== src/Updater/Numbers.antt =====
-- Plain versions: numbers with dots between them.
use wol.Prelude.{
  All, All-append, All-map, Bool-cases, List, [], ap, append-nil, arith, false, if◌then◌else◌, inl,
  inr, ltb, map, negsuc, pos, refl, some, true, ℕ, ℤ, ◌++◌, ◌==◌, ◌||◌, ◌∙◌, ◌∷◌, ◌≡◌, ◌≤◌,
}
use wol.Text.{Text, has_prefix, is_empty, is_space, join, split, teq, trim_prefix}
use wol.Text.Decimal.{is_digit, itoa, itoa_digits, itoa_nonempty, read_digits, read_digits-itoa}
use wol.Text.Laws.{NoSpace, teq_iff, trim_space-NoSpace}
use wol.Text.Split.{Lacks, split-join}
use wol.Updater.{
  Order, atoi, clean_version, compare_clean, compare_identifier, compare_int, compare_parts,
  compare_pre_release, compare_shared, compare_tags, compare_text, compare_versions, dot, max_int,
  newer, older, or_else, same, signed, split_pre_release, unsigned,
}

unfoldable pub compare_numbers : List ℕ → List ℕ → Order
compare_numbers [] [] = same
compare_numbers (n ∷ ns) [] = let rest = compare_numbers ns [] in if ltb 0 n then newer else rest
compare_numbers [] (m ∷ ms) = let rest = compare_numbers [] ms in if ltb 0 m then older else rest
compare_numbers (n ∷ ns) (m ∷ ms) =
    let rest = compare_numbers ns ms in if ltb n m then older else if ltb m n then newer else rest

-- the text of a version, as in `1.4.0`
unfoldable pub version_text : List ℕ → Text
version_text ns = join dot (map itoa ns)

abbrev pub IsInt : ℕ → Type 0
IsInt n = n ≤ max_int

atoi-digits :
    (s : Text) (n : ℕ)
    → All (λ c. is_digit c ≡ true) s
    → read_digits 0 s ≡ some n
    → is_empty s ≡ false
    → IsInt n
    → atoi s ≡ (pos n, true)
unfolding atoi unsigned signed is_empty
atoi-digits [] n d r e h = cc
atoi-digits (c ∷ s) n d r e h = unfold is_digit in ground arith

atoi-itoa : (n : ℕ) → IsInt n → atoi (itoa n) ≡ (pos n, true)
atoi-itoa n h = atoi-digits (itoa n) n (itoa_digits n) (read_digits-itoa n) (itoa_nonempty n) h

first_number :
    (n m : ℕ) (rest : Order)
    → or_else (compare_int (pos n) (pos m)) rest
      ≡ (if ltb n m then older else if ltb m n then newer else rest)
unfolding or_else compare_int
first_number n m rest = ground arith

above :
    (n : ℕ) (rest : Order)
    → (if ltb n 0 then older else if ltb 0 n then newer else rest)
      ≡ (if ltb 0 n then newer else rest)
above n rest = ground arith

below :
    (m : ℕ) (rest : Order)
    → (if ltb 0 m then older else if ltb m 0 then newer else rest)
      ≡ (if ltb 0 m then older else rest)
below m rest = ground arith

compare_parts-itoa :
    (ns ms : List ℕ)
    → All IsInt ns
    → All IsInt ms
    → compare_parts (map itoa ns) (map itoa ms) ≡ compare_numbers ns ms
unfolding compare_parts compare_numbers
compare_parts-itoa [] [] h k = refl
compare_parts-itoa (n ∷ ns) [] h k =
    rw (atoi-itoa n h.0, compare_parts-itoa ns [] h.1 k) (first_number n 0 _ ∙ above n _)
compare_parts-itoa [] (m ∷ ms) h k =
    rw (atoi-itoa m k.0, compare_parts-itoa [] ms h k.1) (first_number 0 m _ ∙ below m _)
compare_parts-itoa (n ∷ ns) (m ∷ ms) h k =
    rw (atoi-itoa n h.0, atoi-itoa m k.0, compare_parts-itoa ns ms h.1 k.1) (first_number n m _)

-- the code points of a plain version
abbrev Plain : ℕ → Type 0
Plain c = (is_digit c || c == dot) ≡ true

digits-Plain : (s : Text) → All (λ c. is_digit c ≡ true) s → All Plain s
digits-Plain s h = All-map _ _ (λ c e. ground arith) s h

version-Plain : (ns : List ℕ) → All Plain (version_text ns)
unfolding version_text join is_digit
version-Plain [] = tt
version-Plain (n ∷ []) = digits-Plain (itoa n) (itoa_digits n)
version-Plain (n ∷ m ∷ ns) =
    All-append _ (itoa n) _ (digits-Plain (itoa n) (itoa_digits n)) (refl, version-Plain (m ∷ ns))

Plain-no_space : (c : ℕ) → Plain c → is_space c ≡ false
unfolding is_space is_digit
Plain-no_space c h = ground arith

no_prefix :
    (s t : Text) (c : ℕ)
    → All Plain s
    → is_empty s ≡ false
    → (is_digit c || c == dot) ≡ false
    → has_prefix (s ++ t) (c ∷ []) ≡ false
unfolding has_prefix is_digit is_empty
no_prefix [] t c h e n = cc
no_prefix (a ∷ s) t c h e n = ground arith

-- a text that begins with a plain version is clean
clean-Plain :
    (s t : Text) → All Plain s → is_empty s ≡ false → NoSpace t → clean_version (s ++ t) ≡ s ++ t
unfolding clean_version trim_prefix
clean-Plain s t h e n =
    let trim = trim_space-NoSpace (s ++ t) (All-append _ s t (All-map _ _ Plain-no_space s h) n) in
    rw (
      trim,
      no_prefix s t b'v' h e (unfold is_digit in refl),
      no_prefix s t b'V' h e (unfold is_digit in refl),
    )

split_pre_release-Plain : (s : Text) → All Plain s → split_pre_release s ≡ (s, [])
unfolding split_pre_release
split_pre_release-Plain [] h = refl
split_pre_release-Plain (c ∷ s) h =
    let other : (c == b'-') ≡ false = unfold is_digit in ground arith in
    rw (split_pre_release-Plain s h.1, other)

split_pre_release-dash : (s t : Text) → All Plain s → split_pre_release (s ++ (b'-' ∷ t)) ≡ (s, t)
unfolding split_pre_release
split_pre_release-dash [] t h = refl
split_pre_release-dash (c ∷ s) t h =
    let other : (c == b'-') ≡ false = unfold is_digit in ground arith in
    rw (split_pre_release-dash s t h.1, other)

digits-Lacks : (s : Text) → All (λ c. is_digit c ≡ true) s → Lacks dot s
unfolding is_digit
digits-Lacks s h = All-map _ _ (λ c e z. ground arith) s h

itoa-Lacks : (ns : List ℕ) → All (Lacks dot) (map itoa ns)
itoa-Lacks [] = tt
itoa-Lacks (n ∷ ns) = (digits-Lacks (itoa n) (itoa_digits n), itoa-Lacks ns)

split-version_text : (n : ℕ) (ns : List ℕ) → split dot (version_text (n ∷ ns)) ≡ map itoa (n ∷ ns)
unfolding version_text
split-version_text n ns = split-join dot (itoa n) (map itoa ns) (itoa-Lacks (n ∷ ns))

nonempty-append : (s t : Text) → is_empty s ≡ false → is_empty (s ++ t) ≡ false
unfolding is_empty
nonempty-append [] t h = cc
nonempty-append (c ∷ s) t h = refl

version_nonempty : (n : ℕ) (ns : List ℕ) → is_empty (version_text (n ∷ ns)) ≡ false
unfolding version_text join
version_nonempty n [] = itoa_nonempty n
version_nonempty n (m ∷ ns) = nonempty-append (itoa n) _ (itoa_nonempty n)

compare_int-same : (z : ℤ) → compare_int z z ≡ same
unfolding compare_int
compare_int-same (pos n) = ground arith
compare_int-same (negsuc n) = ground arith

compare_parts-same : (ps : List Text) → compare_parts ps ps ≡ same
unfolding compare_parts or_else
compare_parts-same [] = refl
compare_parts-same (p ∷ ps) = rw (compare_int-same (atoi p).0, compare_parts-same ps)

no_tags : compare_tags [] [] ≡ same
unfolding compare_tags is_empty compare_pre_release split compare_shared or_else compare_identifier
    atoi compare_text compare_int
no_tags = refl

or_else-same : (a : Order) → or_else a same ≡ a
unfolding or_else
or_else-same older = refl
or_else-same same = refl
or_else-same newer = refl

module _ (n : ℕ) (ns : List ℕ) where
  abbrev text : Text
  text = version_text (n ∷ ns)

  clean_text : clean_version text ≡ text
  clean_text =
      let whole = clean-Plain text [] (version-Plain (n ∷ ns)) (version_nonempty n ns) tt in
      rw append-nil at whole

-- Versions that are numbers of at most 2^63 - 1 with dots between them are compared number by
-- number, where one that is missing is 0: the first two that differ decide, and the version with
-- the smaller one is the older.
pub compare_versions-version_text :
    (n m : ℕ) (ns ms : List ℕ)
    → All IsInt (n ∷ ns)
    → All IsInt (m ∷ ms)
    → compare_versions (version_text (n ∷ ns)) (version_text (m ∷ ms))
      ≡ compare_numbers (n ∷ ns) (m ∷ ms)
unfolding compare_versions compare_clean
compare_versions-version_text n m ns ms h k =
    let a = version_text (n ∷ ns) in
    let b = version_text (m ∷ ms) in
    let parts = compare_parts-itoa (n ∷ ns) (m ∷ ms) h k in
    let plain_a = version-Plain (n ∷ ns) in
    let plain_b = version-Plain (m ∷ ms) in
    elim (Bool-cases (teq a b)) [
      | inl e ↦
          let q : a ≡ b = (teq_iff a b).0 e in
          rw (clean_text n ns, clean_text m ms, e)
            (cc (
              parts,
              compare_parts-same (map itoa (n ∷ ns)),
              split-version_text n ns,
              split-version_text m ms,
              q,
            ))
      | inr e ↦
          rw
            (
              clean_text n ns,
              clean_text m ms,
              e,
              version_nonempty n ns,
              version_nonempty m ms,
              split_pre_release-Plain a plain_a,
              split_pre_release-Plain b plain_b,
              split-version_text n ns,
              split-version_text m ms,
              no_tags,
            )
            (or_else-same _ ∙ parts)
    ]

different :
    (a pre : Text)
    → split_pre_release (a ++ (b'-' ∷ pre)) ≡ (a, pre)
    → split_pre_release a ≡ (a, [])
    → is_empty pre ≡ false
    → teq (a ++ (b'-' ∷ pre)) a ≡ false
unfolding is_empty
different a [] h k e = cc
different a (c ∷ pre) h k e = elim (Bool-cases (teq (a ++ (b'-' ∷ c ∷ pre)) a)) [
  | inr n ↦ n
  | inl y ↦
      let q : a ++ (b'-' ∷ c ∷ pre) ≡ a = (teq_iff _ a).0 y in
      let second = λ (x : Text × Text). x.1 in
      let tails : c ∷ pre ≡ [] = cc (ap second h, ap second k, q) in cc tails
]

tags_older : (pre : Text) → is_empty pre ≡ false → or_else same (compare_tags pre []) ≡ older
unfolding compare_tags or_else
tags_older pre e = rw e (unfold is_empty in refl)

-- A pre-release of a plain version is older than the version itself.
pub compare_versions-pre_release :
    (n : ℕ) (ns : List ℕ) (pre : Text)
    → NoSpace pre
    → is_empty pre ≡ false
    → compare_versions (version_text (n ∷ ns) ++ (b'-' ∷ pre)) (version_text (n ∷ ns)) ≡ older
unfolding compare_versions compare_clean
compare_versions-pre_release n ns pre s e =
    let a = version_text (n ∷ ns) in
    let plain = version-Plain (n ∷ ns) in
    let full =
      clean-Plain a (b'-' ∷ pre) plain (version_nonempty n ns) (unfold is_space in refl, s) in
    let base = split_pre_release-dash a pre plain in
    let alone = split_pre_release-Plain a plain in
    let other : teq (a ++ (b'-' ∷ pre)) a ≡ false = different a pre base alone e in
    rw
      (
        full,
        clean_text n ns,
        other,
        nonempty-append a (b'-' ∷ pre) (version_nonempty n ns),
        version_nonempty n ns,
        base,
        alone,
        compare_parts-same (split dot a),
      )
      (tags_older pre e)
