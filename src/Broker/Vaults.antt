-- ===== src/Broker/Vaults.antt =====
-- internal/localremote/vault.go: the interface of a vault, `VaultKey` and `MemoryVault`. The
-- keychain of the operating system is another vault.
use wol.Prelude.{List, Option, Outcome, [], err, if◌then◌else◌, none, ok, some, ℤ, ◌++◌, ◌∷◌}
use wol.Broker.{Credentials}
use wol.Text.{Text, teq}
use wol.Text.Decimal.{itoa_z}

pub data VaultError : Type 0 where
  vault_miss vault_unavailable : VaultError
  keychain_failed : Text → VaultError

-- The vault that a session is given, over the state of what it keeps.
pub record Vault (V : Type 0) : Type 0 where
  pub get : V → Text → Outcome VaultError Credentials
  pub put : V → Text → Credentials → Outcome VaultError (Unit {0}) × V
  pub delete : V → Text → Outcome VaultError (Unit {0}) × V

unfoldable pub vault_key : Text → Text → ℤ → Text
vault_key protocol host port = protocol ++ (b'|' ∷ host) ++ (b'|' ∷ itoa_z port)

-- `map[string]Credentials`
abbrev pub Items : Type 0
Items = List (Text × Credentials)

unfoldable pub find_item : Text → Items → Option Credentials
find_item key [] = none
find_item key ((k, c) ∷ items) = if teq k key then some c else find_item key items

unfoldable pub delete_item : Text → Items → Items
delete_item key [] = []
delete_item key ((k, c) ∷ items) =
    let rest = delete_item key items in if teq k key then rest else (k, c) ∷ rest

unfoldable pub put_item : Text → Credentials → Items → Items
put_item key c items = (key, c) ∷ delete_item key items

-- A `MemoryVault`, or the nil pointer.
unfoldable pub memory_get : Option Items → Text → Outcome VaultError Credentials
memory_get none key = err vault_miss
memory_get (some items) key = elim (find_item key items) [ none ↦ err vault_miss | some c ↦ ok c ]

unfoldable pub memory_put :
    Option Items → Text → Credentials → Outcome VaultError (Unit {0}) × Option Items
memory_put none key c = (err vault_unavailable, none)
memory_put (some items) key c = (ok tt, some (put_item key c items))

unfoldable pub memory_delete : Option Items → Text → Outcome VaultError (Unit {0}) × Option Items
memory_delete none key = (ok tt, none)
memory_delete (some items) key = (ok tt, some (delete_item key items))

unfoldable pub memory_vault : Vault (Option Items)
memory_vault = record { get = memory_get; put = memory_put; delete = memory_delete }
