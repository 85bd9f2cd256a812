-- ===== src/Broker/Token.antt =====
-- internal/localremote/token.go: the launch token that Guacamole reads. The digest, the cipher, the
-- JSON text and base64 are of Go's library, and parameters. Bytes are numbers.
use wol.Prelude.{
  Bool, List, Option, Outcome, [], err, false, if◌then◌else◌, length, none, not, ok, replicate,
  some, true, ℕ, ◌%◌, ◌&&◌, ◌++◌, ◌+◌, ◌-◌, ◌∷◌,
}
use wol.Broker.{Config, Credentials}
use wol.Text.{Text, codes, is_empty, teq}
use wol.Text.Decimal.{itoa_z}

pub record Connection : Type 0 where
  pub protocol : Text
  pub parameters : List (Text × Text)

pub record Document : Type 0 where
  pub username : Text
  pub expires : ℕ
  pub connections : List (Text × Connection)

pub data TokenError : Type 0 where
  encode_failed cipher_failed : TokenError

-- `json.Marshal`, HMAC with SHA-256, the check of a key by `aes.NewCipher`, the encryption in CBC
-- mode with a vector of zeros, and `base64.StdEncoding.EncodeToString`.
pub record Crypto : Type 0 where
  pub marshal : Document → Option (List ℕ)
  pub digest : List ℕ → List ℕ → List ℕ
  pub good_key : List ℕ → Bool
  pub encrypt : List ℕ → List ℕ → List ℕ
  pub base64 : List ℕ → Text

unfoldable pub optional : Bool → Text → Text → List (Text × Text)
optional false name value = []
optional true name value = (name, value) ∷ []

unfoldable pub parameters_of : Config → Credentials → List (Text × Text)
parameters_of cfg c =
    (codes "hostname", cfg.host)
    ∷ (codes "port", itoa_z cfg.port)
    ∷ (optional (not (is_empty c.username)) (codes "username") c.username
        ++ (optional (not (is_empty c.domain) && teq cfg.protocol (codes "rdp")) (codes "domain")
              c.domain
            ++ (optional (not (is_empty c.password)) (codes "password") c.password
                ++ optional
                    (teq cfg.protocol (codes "rdp")
                      && teq cfg.certificate_policy (codes "trust-local"))
                    (codes "ignore-cert") (codes "true"))))

-- The time is in milliseconds; a token lasts two minutes.
unfoldable pub document : Config → Credentials → ℕ → Document
document cfg c now = record {
  username = codes "local-wol-session";
  expires = now + 120000;
  connections =
      (codes "Remote session", record { protocol = cfg.protocol; parameters = parameters_of cfg c })
      ∷ [];
}

abbrev pub block_size : ℕ
block_size = 16

unfoldable pub pad : List ℕ → List ℕ
pad signed = let n = block_size - length signed % block_size in signed ++ replicate n n

unfoldable pub build_auth_token :
    Crypto → List ℕ → Config → Credentials → ℕ → Outcome TokenError Text
build_auth_token crypto key cfg c now = elim (crypto.marshal (document cfg c now)) [
  | none ↦ err encode_failed
  | some plaintext ↦
      if crypto.good_key key
      then ok (crypto.base64 (crypto.encrypt key (pad (crypto.digest key plaintext ++ plaintext))))
      else err cipher_failed
]
