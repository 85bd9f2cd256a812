-- ===== src/Store/Upserts.antt =====
-- What each `upsert…On` of internal/store ensures of closed tables; here those of relays and sites.
pub mod NewIds
pub mod Devices
pub mod Groups
pub mod Profiles
use wol.Prelude.{Option, arith, ok, ◌≡◌}
use wol.Net.{Ip}
use wol.Rules.Machines.{normalize_wake_relay}
use wol.Rules.Sites.{check_site, normalize_site, with_defaults, with_subnet}
use wol.Store.{Site, WakeRelay}
use wol.Store.Db.{Env}
use wol.Store.Links.{has_row-find}
use wol.Store.Logic.{Ensures}
use wol.Store.Relays.{create_wake_relay, upsert_wake_relay_on}
use wol.Store.Rules.{
  given, return, then_do, then_exec, then_find, then_fresh_id, then_lift, then_need_row, then_stamp,
}
use wol.Store.Sites.{new_site, upsert_site_on}
use wol.Store.Writes.{
  Anything, HasRelay, HasSite, RelayFits, insert_relay-Good, insert_site-Good,
  update_relay_row-Good, update_site_row-Good,
}
use wol.Text.{Text}

pub create_wake_relay-Good :
    (env : Env) (item : WakeRelay)
    → Ensures Anything (create_wake_relay env item) (λ a t. HasRelay a.id t)
unfolding create_wake_relay normalize_wake_relay
create_wake_relay-Good env item = then_stamp _ _ (λ now. then_fresh_id _ _ _ (λ k.
    given (λ t. Anything t × Anything t) _ (λ t _. (tt, tt))
      (then_exec Anything _ _ _ _ (λ t t' g h. tt) (insert_relay-Good _)
        (λ n. return _ (λ t (u, h). h)))))

pub upsert_wake_relay_on-Good :
    (env : Env) (item : WakeRelay)
    → Ensures Anything (upsert_wake_relay_on env item) (λ a t. HasRelay a.id t)
unfolding upsert_wake_relay_on normalize_wake_relay
upsert_wake_relay_on-Good env item =
    then_find _ _ _ (given Anything _ (λ t p. tt) (create_wake_relay-Good env item)) (λ old.
      given (λ t. HasRelay old.id t × Anything t) _
        (λ t (p, e). (has_row-find (λ r. r.id) _ t.relays old e, tt))
        (then_stamp _ _ (λ now.
          then_exec (HasRelay old.id) _ _ _ _ (λ t t' g. g.relay old.id)
            (update_relay_row-Good old.id _)
            (λ n. then_need_row _ _ (λ u. return _ (λ t (h, p). h))))))

normalize_site-relay :
    (ipv6 : Text → Option Ip) (item row : Site)
    → normalize_site ipv6 item ≡ ok row
    → row.wake_relay_id ≡ item.wake_relay_id
unfolding normalize_site with_subnet with_defaults check_site
normalize_site-relay ipv6 item row e = ground arith

new_site-Good :
    (env : Env) (item : Site)
    → Ensures
        (RelayFits item.wake_relay_id)
        (new_site env item)
        (λ a t. RelayFits a.wake_relay_id t)
unfolding new_site
new_site-Good env item = then_stamp _ _ (λ now. then_fresh_id _ _ _ (λ k. return _ (λ t h. h)))

pub upsert_site_on-Good :
    (env : Env) (item : Site)
    → Ensures (RelayFits item.wake_relay_id) (upsert_site_on env item) (λ a t. HasSite a.id t)
unfolding upsert_site_on
upsert_site_on-Good env item = then_lift _ _ (λ site e.
    let same = normalize_site-relay env.ipv6 item site e in
    given (RelayFits site.wake_relay_id) _ (λ t h. rw same h)
      (then_find _ _ _
        (given (RelayFits site.wake_relay_id) _ (λ t (h, e). h)
          (then_do (λ row t. RelayFits row.wake_relay_id t) _ _ (new_site-Good env site)
            (λ row.
              given (λ t. Anything t × RelayFits row.wake_relay_id t) _ (λ t h. (tt, h))
                (then_exec Anything _ _ _ _ (λ t t' g h. tt) (insert_site-Good row)
                  (λ n. return _ (λ t (u, h). h))))))
        (λ old.
          given (λ t. HasSite old.id t × RelayFits site.wake_relay_id t) _
            (λ t (h, e). (has_row-find (λ r. r.id) _ t.sites old e, h))
            (then_stamp _ _ (λ now.
              then_exec (HasSite old.id) _ _ _ _ (λ t t' g. g.site old.id)
                (update_site_row-Good old.id _)
                (λ n. then_need_row _ _ (λ u. return _ (λ t (h, p). h))))))))
