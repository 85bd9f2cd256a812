-- ===== src/Updater/Platforms.antt =====
-- An asset of internal/updater is for one system and one architecture.
use wol.Prelude.{
  Bool, Bool-cases, List, [], any, arith, false, inl, inr, refl, some, sym, true, ◌++◌, ◌||◌, ◌∙◌,
  ◌∷◌, ◌≡◌, ◌≢◌,
}
use wol.Store.Db.{later}
use wol.Store.Transfer.{known}
use wol.Text.{Text, teq, to_lower}
use wol.Text.Laws.{teq_iff}
use wol.Updater.Assets.{
  arch_synonyms, filename_tokens, fits_platform, match_asset, matches_target, os_synonyms,
  other_terms, terms_of, token_contains,
}
use wol.Updater.Download.{Asset}

match_asset-fits :
    (assets : List Asset) (os arch : Text) (asset : Asset)
    → match_asset assets os arch ≡ some asset
    → fits_platform os arch asset.name ≡ true
unfolding match_asset
match_asset-fits [] os arch asset h = cc
match_asset-fits (a ∷ assets) os arch asset h = elim (Bool-cases (fits_platform os arch a.name)) [
  | inl fits ↦ let same_asset : a ≡ asset = ground (arith, h) in rw (sym same_asset) fits
  | inr not_this ↦ match_asset-fits assets os arch asset (ground (arith, h))
]

-- a name of the table
abbrev pub KnownTarget : List (Text × List Text) → Text → Type 0
KnownTarget synonyms target = any (λ (name, terms). teq name target) synonyms ≡ true

any-append : (p : Text → Bool) (xs ys : List Text) → any p (xs ++ ys) ≡ (any p xs || any p ys)
any-append p [] ys = refl
any-append p (x ∷ xs) ys = ground (arith, any-append p xs ys)

-- The terms of one target of the table are terms of all others.
terms-Excluded :
    (synonyms : List (Text × List Text)) (p : Text → Bool) (one two : Text)
    → KnownTarget synonyms one
    → one ≢ two
    → any p (terms_of synonyms one) ≡ true
    → any p (other_terms synonyms two) ≡ true
unfolding terms_of other_terms
terms-Excluded [] p one two known apart found = cc
terms-Excluded ((name, terms) ∷ rest) p one two known apart found =
    let split_any = any-append p terms (other_terms rest two) in
    elim (Bool-cases (teq name one)) [
      | inl first ↦
          let at : name ≡ one = (teq_iff name one).0 first in
          let off : teq name two ≡ false = elim (Bool-cases (teq name two)) [
            | inl hit ↦ absurd (apart (sym at ∙ (teq_iff name two).0 hit))
            | inr miss ↦ miss
          ] in
          ground (arith, first, off, split_any, found)
      | inr later ↦
          let ih =
            terms-Excluded rest p one two (ground (arith, known)) apart (ground (arith, found)) in
          ground (arith, ih, split_any)
    ]

matches_target_unique :
    (synonyms : List (Text × List Text)) (tokens : List Text) (one two : Text)
    → KnownTarget synonyms one
    → matches_target synonyms tokens one ≡ true
    → matches_target synonyms tokens two ≡ true
    → one ≡ two
unfolding matches_target
matches_target_unique synonyms tokens one two known m1 m2 = elim (Bool-cases (teq one two)) [
  | inl hit ↦ (teq_iff one two).0 hit
  | inr miss ↦
      let clash =
        terms-Excluded synonyms (token_contains tokens) one two known
          (λ e. cc (miss, (teq_iff one two).1 e)) (ground (arith, m1)) in
      absurd (ground (arith, clash, m2))
]

-- An asset that is chosen for two platforms, from whatever releases, has one platform: the same
-- system, if the first one is a system that the program knows, and the same architecture, if the
-- first one is an architecture that it knows.
pub match_asset_unique :
    (ours theirs : List Asset) (os os' arch arch' : Text) (asset : Asset)
    → match_asset ours os arch ≡ some asset
    → match_asset theirs os' arch' ≡ some asset
    → (KnownTarget os_synonyms os → os ≡ os') × (KnownTarget arch_synonyms arch → arch ≡ arch')
unfolding fits_platform
match_asset_unique ours theirs os os' arch arch' asset chosen chosen' =
    let tokens = filename_tokens (to_lower asset.name) in
    let fits = match_asset-fits ours os arch asset chosen in
    let fits' = match_asset-fits theirs os' arch' asset chosen' in
    (
      λ known.
          matches_target_unique os_synonyms tokens os os' known (ground (arith, fits))
            (ground (arith, fits')),
      λ known.
          matches_target_unique arch_synonyms tokens arch arch' known (ground (arith, fits))
            (ground (arith, fits')),
    )
