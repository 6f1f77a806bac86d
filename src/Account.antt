-- ===== src/Account.antt =====
-- internal/service/user_service.go. strings.TrimSpace and the length of a string in bytes are
-- parameters.
use text.Mathlib.Text.{◌==◌ as str_eq}
use byte_battle.Prelude.{ℕ, ltb, if◌then◌else◌, ◌||◌, some, String}
use byte_battle.Db.Rows.{User, Uuid}
use byte_battle.Db.Exec.{Action, raise, invalid_name}
use byte_battle.Queries.Users.{GetUserStatsRow, get_user_by_id, get_user_stats, update_user_name}

unfoldable pub get_by_id : Uuid → Action User
get_by_id id = get_user_by_id id

unfoldable pub get_stats : Uuid → Action GetUserStatsRow
get_stats id = get_user_stats id

unfoldable pub update_name : (String → String) → (String → ℕ) → Uuid → String → Action User
update_name trim_space len id name =
    let trimmed = trim_space name in
    if str_eq trimmed "" || ltb 100 (len trimmed)
    then raise invalid_name
    else update_user_name id (some trimmed)
