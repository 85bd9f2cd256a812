-- ===== src/Updater/Assets.antt =====
-- internal/updater/updater.go: `MatchAsset`. A nil pointer is `none`.
use wol.Prelude.{
  Bool, List, Option, [], any, if◌then◌else◌, none, not, some, ℕ, ◌&&◌, ◌++◌, ◌==◌, ◌||◌, ◌∷◌,
}
use wol.Text.{Text, codes, has_suffix, is_empty, teq, to_lower}
use wol.Updater.Download.{Asset}

unfoldable pub os_synonyms : List (Text × List Text)
os_synonyms =
    (codes "darwin", codes "darwin" ∷ codes "macos" ∷ codes "osx" ∷ [])
    ∷ (codes "linux", codes "linux" ∷ [])
    ∷ (codes "windows", codes "windows" ∷ codes "win" ∷ codes "win32" ∷ codes "win64" ∷ [])
    ∷ []

unfoldable pub arch_synonyms : List (Text × List Text)
arch_synonyms =
    (codes "arm64", codes "arm64" ∷ codes "aarch64" ∷ [])
    ∷ (codes "amd64", codes "amd64" ∷ codes "x86_64" ∷ codes "x64" ∷ [])
    ∷ (codes "386", codes "386" ∷ codes "i386" ∷ codes "x86" ∷ [])
    ∷ (codes "arm", codes "arm" ∷ codes "armv7" ∷ codes "armv6" ∷ [])
    ∷ []

-- the terms of a target, or the target itself
unfoldable pub terms_of : List (Text × List Text) → Text → List Text
terms_of [] target = target ∷ []
terms_of ((name, terms) ∷ rest) target =
    let others = terms_of rest target in if teq name target then terms else others

-- the terms of all other targets
unfoldable pub other_terms : List (Text × List Text) → Text → List Text
other_terms [] target = []
other_terms ((name, terms) ∷ rest) target =
    let others = other_terms rest target in if teq name target then others else terms ++ others

unfoldable pub is_separator : ℕ → Bool
is_separator c = c == b'_' || c == b'-' || c == b'.'

-- `strings.FieldsFunc`: the text up to the next separator, and the fields behind it
unfoldable pub fields_from : Text → List Text × Text
fields_from [] = ([], [])
fields_from (c ∷ s) =
    let (fields, first) = fields_from s in
    if is_separator c
    then (if is_empty first then (fields, []) else (first ∷ fields, []))
    else (fields, c ∷ first)

unfoldable pub filename_tokens : Text → List Text
filename_tokens name =
    let (fields, first) = fields_from (to_lower name) in
    if is_empty first then fields else first ∷ fields

unfoldable pub token_contains : List Text → Text → Bool
token_contains tokens target = any (λ token. teq token target) tokens

-- checksums, signatures and lists of parts
unfoldable pub is_companion : Text → Bool
is_companion lowered =
    has_suffix lowered (codes ".sha256")
    || has_suffix lowered (codes ".md5")
    || has_suffix lowered (codes ".txt")
    || has_suffix lowered (codes ".sig")
    || has_suffix lowered (codes ".sbom")

-- the tests on the tokens for the system, or for the architecture
unfoldable pub matches_target : List (Text × List Text) → List Text → Text → Bool
matches_target synonyms tokens target =
    any (token_contains tokens) (terms_of synonyms target)
    && not (any (token_contains tokens) (other_terms synonyms target))

-- the body of the loop for one asset
unfoldable pub fits_platform : Text → Text → Text → Bool
fits_platform os arch name =
    let lowered = to_lower name in
    let tokens = filename_tokens lowered in
    not (is_companion lowered)
    && matches_target os_synonyms tokens os
    && matches_target arch_synonyms tokens arch

unfoldable pub match_asset : List Asset → Text → Text → Option Asset
match_asset [] os arch = none
match_asset (asset ∷ assets) os arch =
    let later = match_asset assets os arch in
    if fits_platform os arch asset.name then some asset else later
