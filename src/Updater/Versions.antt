-- ===== src/Updater/Versions.antt =====
-- The laws of the comparison of versions.
use wol.Prelude.{List, [], arith, length, negsuc, pos, refl, true, ℤ, ◌∷◌, ◌≡◌}
use wol.Text.{Text, is_empty, split, teq}
use wol.Text.Laws.{teq_iff}
use wol.Updater.{
  Order, atoi, clean_version, compare_clean, compare_identifier, compare_int, compare_parts,
  compare_pre_release, compare_shared, compare_tags, compare_text, compare_versions, dot, newer,
  older, or_else, same, split_pre_release,
}

unfoldable pub flip : Order → Order
flip older = newer
flip same = same
flip newer = older

or_else-flip : (a b : Order) → flip (or_else a b) ≡ or_else (flip a) (flip b)
unfolding or_else flip
or_else-flip older b = refl
or_else-flip same b = refl
or_else-flip newer b = refl

compare_int-flip : (a b : ℤ) → compare_int b a ≡ flip (compare_int a b)
unfolding compare_int flip
compare_int-flip (pos a) (pos b) = ground arith
compare_int-flip (pos a) (negsuc b) = refl
compare_int-flip (negsuc a) (pos b) = refl
compare_int-flip (negsuc a) (negsuc b) = ground arith

compare_text-flip : (s t : Text) → compare_text t s ≡ flip (compare_text s t)
unfolding compare_text flip
compare_text-flip [] [] = refl
compare_text-flip [] (_ ∷ _) = refl
compare_text-flip (_ ∷ _) [] = refl
compare_text-flip (a ∷ s) (b ∷ t) = ground (arith, compare_text-flip s t)

compare_identifier-flip : (l r : Text) → compare_identifier r l ≡ flip (compare_identifier l r)
unfolding compare_identifier flip
compare_identifier-flip l r =
    ground (arith, compare_text-flip l r, compare_int-flip (atoi l).0 (atoi r).0)

compare_parts-flip : (ps qs : List Text) → compare_parts qs ps ≡ flip (compare_parts ps qs)
unfolding compare_parts
compare_parts-flip [] [] = unfold flip in refl
compare_parts-flip (p ∷ ps) [] =
    rw (or_else-flip, compare_int-flip (atoi p).0 (pos 0), compare_parts-flip ps [])
compare_parts-flip [] (q ∷ qs) =
    rw (or_else-flip, compare_int-flip (pos 0) (atoi q).0, compare_parts-flip [] qs)
compare_parts-flip (p ∷ ps) (q ∷ qs) =
    rw (or_else-flip, compare_int-flip (atoi p).0 (atoi q).0, compare_parts-flip ps qs)

compare_shared-flip :
    (final : Order) (ls rs : List Text)
    → compare_shared (flip final) rs ls ≡ flip (compare_shared final ls rs)
unfolding compare_shared
compare_shared-flip final [] [] = refl
compare_shared-flip final [] (r ∷ rs) = refl
compare_shared-flip final (l ∷ ls) [] = refl
compare_shared-flip final (l ∷ ls) (r ∷ rs) =
    rw (or_else-flip, compare_identifier-flip l r, compare_shared-flip final ls rs)

compare_pre_release-flip : (a b : Text) → compare_pre_release b a ≡ flip (compare_pre_release a b)
unfolding compare_pre_release
compare_pre_release-flip a b =
    rw (compare_int-flip (pos (length (split dot a))) (pos (length (split dot b))))
      (compare_shared-flip _ (split dot a) (split dot b))

compare_tags-flip : (a b : Text) → compare_tags b a ≡ flip (compare_tags a b)
unfolding compare_tags flip
compare_tags-flip a b = ground (arith, compare_pre_release-flip a b)

both_empty : (s t : Text) → is_empty s ≡ true → is_empty t ≡ true → teq s t ≡ true
unfolding is_empty teq
both_empty [] [] h k = refl
both_empty [] (_ ∷ _) h k = cc
both_empty (_ ∷ _) t h k = cc

teq_sym : (s t : Text) → teq s t ≡ teq t s
teq_sym s t = ground (arith, teq_iff s t, teq_iff t s)

-- the comparison of two versions that are different and not empty
abbrev deep : Text → Text → Order
deep a b =
    or_else (compare_parts (split dot (split_pre_release a).0) (split dot (split_pre_release b).0))
      (compare_tags (split_pre_release a).1 (split_pre_release b).1)

deep-flip : (a b : Text) → deep b a ≡ flip (deep a b)
deep-flip a b = rw (
  or_else-flip,
  compare_parts-flip (split dot (split_pre_release a).0) (split dot (split_pre_release b).0),
  compare_tags-flip (split_pre_release a).1 (split_pre_release b).1,
)

compare_clean-flip : (a b : Text) → compare_clean b a ≡ flip (compare_clean a b)
unfolding compare_clean flip
compare_clean-flip a b = ground (arith, teq_sym a b, both_empty a b, deep-flip a b)

-- The comparison is antisymmetric: swapping two versions turns older into newer.
pub compare_versions-flip : (a b : Text) → compare_versions b a ≡ flip (compare_versions a b)
unfolding compare_versions
compare_versions-flip a b = compare_clean-flip (clean_version a) (clean_version b)
