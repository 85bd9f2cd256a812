-- ===== src/Rules/Sites/Laws.antt =====
-- What `normalizeSite` of internal/store lets through.
use wol.Prelude.{Option, arith, false, negsuc, ok, pos, refl, ℕ, ℤ, ◌≡◌, ◌≤◌}
use wol.Net.{Ip}
use wol.Rules.Sites.{check_site, normalize_site, outside, with_defaults, with_subnet}
use wol.Store.{Site}
use wol.Text.{Text}

-- an integer from one number to another
abbrev pub Between : ℕ → ℕ → ℤ → Type 0
Between low high z = (n : ℕ) × ((z ≡ pos n) × ((low ≤ n) × (n ≤ high)))

pub outside-Between : (low high : ℕ) (z : ℤ) → outside low high z ≡ false → Between low high z
unfolding outside
outside-Between low high (pos n) h = (n, (refl, (ground arith, ground arith)))
outside-Between low high (negsuc n) h = absurd (ground arith)

checked_bounds :
    (ipv6 : Text → Option Ip) (item row : Site)
    → normalize_site ipv6 item ≡ ok row
    → (outside 1 65535 row.default_port ≡ false)
      × ((outside 100 60000 row.timeout_ms ≡ false) × (outside 1 16 row.concurrency ≡ false))
unfolding normalize_site check_site with_defaults with_subnet
checked_bounds ipv6 item row h = ground arith

-- A site that `normalizeSite` lets through has a port from 1 to 65535, a timeout from 100 to 60000
-- milliseconds and a concurrency from 1 to 16.
pub normalize_site-bounds :
    (ipv6 : Text → Option Ip) (item row : Site)
    → normalize_site ipv6 item ≡ ok row
    → Between 1 65535 row.default_port
      × (Between 100 60000 row.timeout_ms × Between 1 16 row.concurrency)
normalize_site-bounds ipv6 item row h =
    let (port, (timeout, crew)) = checked_bounds ipv6 item row h in
    (
      outside-Between 1 65535 row.default_port port,
      (outside-Between 100 60000 row.timeout_ms timeout, outside-Between 1 16 row.concurrency crew),
    )
