-- ===== src/Updater/Releases.antt =====
-- internal/updater/updater.go: `FetchLatestRelease`, `FetchReleaseByTag`, `fetchTagFromRedirect` and
-- `CheckLatest`. The answer to a HEAD request and the JSON decoder are parameters; the headers of
-- the requests are not modelled.
use wol.Prelude.{
  Bool, List, Option, Outcome, [], err, false, if◌then◌else◌, length, none, not, ok, some, suc,
  true, zero, ℕ, ◌++◌, ◌-◌, ◌==◌, ◌>>=◌, ◌||◌, ◌∷◌,
}
use wol.Text.{Text, codes, has_prefix, is_empty, push_front, trim_space}
use wol.Updater.{Order, clean_version, compare_versions, older}
use wol.Updater.Download.{Outside, Release}

pub record Client : Type 0 where
  pub current_version : Text
  pub repo : Text
  pub base_api_url : Text
  pub base_web_url : Text
  pub public_key_file : Text

-- the `Location` header of an answer, empty where there is none, and the decoder of a release
pub record GitHub : Type 0 where
  pub location : Text → Option Text
  pub decode : List ℕ → Option Release

pub data ReleaseError : Type 0 where
  no_answer bad_metadata no_location odd_location not_found odd_status : ReleaseError

pub record CheckResult : Type 0 where
  pub current_version : Text
  pub latest_version : Text
  pub update_available : Bool
  pub release : Release

-- `strings.Split` at a text that is not empty, with the code points to skip
unfoldable pub split_text : Text → ℕ → Text → List Text
split_text separator skip [] = [] ∷ []
split_text separator (suc skip) (c ∷ s) = split_text separator skip s
split_text separator zero (c ∷ s) =
    let behind = split_text separator (length separator - 1) s in
    let rest = split_text separator zero s in
    if has_prefix (c ∷ s) separator then [] ∷ behind else push_front c rest

-- the second of two parts, if it is not empty
unfoldable pub tag_of_parts : List Text → Outcome ReleaseError Text
tag_of_parts (_ ∷ tag ∷ []) = if is_empty tag then err odd_location else ok (trim_space tag)
tag_of_parts _ = err odd_location

-- `CompareVersions(a, b) < 0`
unfoldable pub is_older : Order → Bool
is_older older = true
is_older _ = false

-- a version with its mark
unfoldable pub marked_tag : Text → Text
marked_tag tag =
    if has_prefix tag (codes "v") || has_prefix tag (codes "V") then tag else codes "v" ++ tag

module _ (out : Outside) (hub : GitHub) (client : Client) where
  unfoldable pub decoded_release : List ℕ → Outcome ReleaseError Release
  decoded_release body = elim (hub.decode body) [
    | none ↦ err bad_metadata
    | some release ↦ ok release
  ]

  unfoldable pub fetch_tag_from_redirect : Text → Outcome ReleaseError Text
  fetch_tag_from_redirect url = elim (hub.location url) [
    | none ↦ err no_answer
    | some location ↦
        if is_empty location
        then err no_location
        else tag_of_parts (split_text (codes "/releases/tag/") zero location)
  ]

  unfoldable pub bare_release : Text → Release
  bare_release tag = record {
    tag = tag;
    name = tag;
    html_url =
        client.base_web_url ++ (codes "/" ++ (client.repo ++ (codes "/releases/tag/" ++ tag)));
    tarball_url = [];
    zipball_url = [];
    published_at = [];
    body = [];
    assets = [];
  }

  unfoldable pub release_from_redirect : Outcome ReleaseError Release
  release_from_redirect = do
    tag ←
        fetch_tag_from_redirect
          (client.base_web_url ++ (codes "/" ++ (client.repo ++ codes "/releases/latest")))
    ok (bare_release tag)

  unfoldable pub fetch_latest_release : Outcome ReleaseError Release
  fetch_latest_release =
      elim (out.fetch
        (client.base_api_url ++ (codes "/repos/" ++ (client.repo ++ codes "/releases/latest")))) [
          | none ↦ release_from_redirect
          | some (status, body) ↦
              if status == 200 then decoded_release body else release_from_redirect
        ]

  unfoldable pub fetch_release_by_tag : Text → Outcome ReleaseError Release
  fetch_release_by_tag tag =
      elim (out.fetch (
        client.base_api_url
        ++ (codes "/repos/" ++ (client.repo ++ (codes "/releases/tags/" ++ marked_tag tag))))) [
          | none ↦ err no_answer
          | some (status, body) ↦
              if status == 200
              then decoded_release body
              else if status == 404
              then err not_found
              else err odd_status
        ]

  unfoldable pub check_latest : Outcome ReleaseError CheckResult
  check_latest = do
    release ← fetch_latest_release
    ok (record {
      current_version = client.current_version;
      latest_version = release.tag;
      update_available =
          is_older
            (compare_versions (clean_version client.current_version) (clean_version release.tag));
      release = release;
    })

-- The options of a client, but for the one that replaces its HTTP client.
pub data ClientOption : Type 0 where
  with_repo with_base_api_url with_base_web_url : Text → ClientOption

-- `strings.TrimRight(url, "/")`
unfoldable pub trim_slashes : Text → Text
trim_slashes [] = []
trim_slashes (c ∷ s) = elim (trim_slashes s) [
  | [] ↦ if c == b'/' then [] else c ∷ []
  | d ∷ r ↦ c ∷ d ∷ r
]

unfoldable pub apply_option : ClientOption → Client → Client
apply_option (with_repo repo) client =
    if not (is_empty (trim_space repo)) then record client { repo = trim_space repo } else client
apply_option (with_base_api_url url) client = record client { base_api_url = trim_slashes url }
apply_option (with_base_web_url url) client = record client { base_web_url = trim_slashes url }

unfoldable pub apply_options : List ClientOption → Client → Client
apply_options [] client = client
apply_options (option ∷ options) client = apply_options options (apply_option option client)

-- `NewClient`, where the environment holds the path of a public key
unfoldable pub new_client : Text → Text → List ClientOption → Client
new_client current_version key_path options = apply_options options (record {
  current_version = current_version;
  repo = codes "aklkbqx/wol";
  base_api_url = codes "https://api.github.com";
  base_web_url = codes "https://github.com";
  public_key_file = trim_space key_path;
})
