-- ===== src/Broker/Items.antt =====
-- `MemoryVault` of internal/localremote/vault.go: what it finds behind a change.
use wol.Prelude.{[], arith, if◌then◌else◌, none, some, ◌∷◌, ◌≡◌}
use wol.Broker.{Credentials}
use wol.Broker.Vaults.{Items, delete_item, find_item, put_item}
use wol.Text.{Text, teq}
use wol.Text.Laws.{teq_iff}

pub find_item-delete_item :
    (items : Items) (key k : Text)
    → find_item k (delete_item key items) ≡ (if teq key k then none else find_item k items)
unfolding find_item delete_item
find_item-delete_item [] key k = ground arith
find_item-delete_item ((j, c) ∷ items) key k =
    ground (arith, teq_iff j key, teq_iff key k, teq_iff j k, find_item-delete_item items key k)

pub find_item-put_item :
    (items : Items) (key k : Text) (c : Credentials)
    → find_item k (put_item key c items) ≡ (if teq key k then some c else find_item k items)
unfolding find_item put_item
find_item-put_item items key k c = ground (arith, find_item-delete_item items key k)
