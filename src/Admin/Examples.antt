-- ===== src/Admin/Examples.antt =====
-- Versions at work.
use claw_proxy_hub_next.Base.{ℕ, ◌≡◌, refl, ◌↔◌}
use claw_proxy_hub_next.Admin.Version.{compare_semver, split_semver}
use claw_proxy_hub_next.Admin.Version.Order.{part, flipped, IsNewer, compare_semver_lem}

compare_semver_lem_example :
    ((compare_semver "v1.0.10-beta" "1.0.9" ≡ 0)
      ↔ ((i : ℕ) → part (split_semver "v1.0.10-beta") i ≡ part (split_semver "1.0.9") i))
    × ((compare_semver "v1.0.10-beta" "1.0.9" ≡ 1)
        ↔ IsNewer (split_semver "v1.0.10-beta") (split_semver "1.0.9"))
    × (compare_semver "1.0.9" "v1.0.10-beta" ≡ flipped (compare_semver "v1.0.10-beta" "1.0.9"))
compare_semver_lem_example = compare_semver_lem "v1.0.10-beta" "1.0.9"

newer : compare_semver "v1.0.10-beta" "1.0.9" ≡ 1
unfolding compare_semver
newer = refl
