-- ===== src/Account/Pauses.antt =====
-- `MarkExpired`, `MarkAutoPause`, `Resume` and `Delete` of internal/account/service.go, on the tables of
-- the router. The reason of a pause, which nothing reads, is left out. `far` is the instant a hundred
-- years ahead, of Go's calendar.
pub mod Selection
use claw_proxy_hub_next.Base.{
  ℕ, ◌==◌, String, str_eq, Bool, not, ◌&&◌, Option, none, some, List, map, select, if◌then◌else◌,
}
use claw_proxy_hub_next.Data.{Account}
use claw_proxy_hub_next.Router.Db.{Db}

abbrev pub expire_row : ℕ → Account → Account
expire_row id a = if a.id == id then record a { status = "expired" } else a

unfoldable pub mark_expired : ℕ → Db → Db
mark_expired id db = record db { accounts = map (expire_row id) db.accounts }

-- When the pause ends.
abbrev pub ends_at : (ℕ → ℕ) → ℕ → Option ℕ → ℕ
ends_at far now none = far now
ends_at far now (some t) = t

abbrev pub pause_row : ℕ → ℕ → Account → Account
pause_row id until a =
    if (a.id == id) && str_eq a.status "active" then record a { paused_until = some until } else a

unfoldable pub mark_auto_pause : (ℕ → ℕ) → ℕ → ℕ → Option ℕ → Db → Db
mark_auto_pause far now id resume_at db = record db {
  accounts = map (pause_row id (ends_at far now resume_at)) db.accounts;
}

abbrev pub resume_row : ℕ → Account → Account
resume_row id a = if a.id == id then record a { paused_until = none } else a

unfoldable pub resume : ℕ → Db → Db
resume id db = record db { accounts = map (resume_row id) db.accounts }

-- `Delete`
unfoldable pub delete_account : ℕ → Db → Db
delete_account id db = record db { accounts = select (λ a. not (a.id == id)) db.accounts }
