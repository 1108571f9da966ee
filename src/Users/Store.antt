-- ===== src/Users/Store.antt =====
-- server/users.ts: the map of users by key, and the file behind it, after `initUsers`. `now` is
-- the time that the file system stamps on a write.
pub mod Reload
use ob2_turbo_quant.Common.{
  ℕ, Bool, true, false, not, Option, none, some, List, [], ◌∷◌, leb, if◌then◌else◌, Text, text_key,
  text_eq, any, find, map, is_empty, ◌&&◌,
}
use ob2_turbo_quant.Common.JsMap
use ob2_turbo_quant.Common.JsMap.{JsMap}
use ob2_turbo_quant.Users.{UserRecord, is_real_admin, masked}

-- What the file holds: text that is no users file, or `{ users }`.
pub data Content : Type 0 where
  malformed : Content
  stored : List UserRecord → Content

pub record UsersFile : Type 0 where
  pub mtime : ℕ
  pub content : Content

pub record UserStore : Type 0 where
  pub users : JsMap Text UserRecord
  pub last_mtime : ℕ
  pub disk : Option UsersFile

-- `for (const u of data.users) if (u.enabled !== false) newMap.set(u.key, u)`
unfoldable pub load_map : List UserRecord → JsMap Text UserRecord → JsMap Text UserRecord
load_map [] m = m
load_map (u ∷ us) m = load_map us (if u.enabled then JsMap.set u.key u m else m)

unfoldable pub read_content : Content → UserStore → UserStore
read_content malformed st = st
read_content (stored us) st = record st { users = load_map us [] }

unfoldable pub reload_if_changed : UserStore → UserStore
unfolding read_content
reload_if_changed st = elim st.disk [
  | none ↦ st
  | some file ↦
      if leb file.mtime st.last_mtime
      then st
      else read_content file.content (record st { last_mtime = file.mtime })
]

-- `_loadFile`, with `none` where it throws.
unfoldable pub load_file : UserStore → Option (List UserRecord)
load_file st = elim st.disk [
  | none ↦ some []
  | some file ↦ elim file.content [ malformed ↦ none | stored us ↦ some us ]
]

unfoldable pub atomic_write : ℕ → List UserRecord → UserStore → UserStore
unfolding reload_if_changed
atomic_write now us st =
    reload_if_changed
      (record st { disk = some (record { mtime = now; content = stored us }); last_mtime = 0 })

unfoldable pub has_real_global_admin : UserStore → Bool × UserStore
has_real_global_admin st =
    let st' = reload_if_changed st in (any is_real_admin (JsMap.values st'.users), st')

unfoldable pub would_leave_zero_admins : List UserRecord → Bool
would_leave_zero_admins us = not (any is_real_admin us)

unfoldable pub list_users : UserStore → List UserRecord × UserStore
list_users st = let st' = reload_if_changed st in (map masked (JsMap.values st'.users), st')

-- `findUserByEmail`; `to_lower` is `toLowerCase`.
same_email : (Text → Text) → Text → Option Text → Bool
same_email to_lower email none = false
same_email to_lower email (some own) = not (is_empty own) && text_eq (to_lower own) (to_lower email)

unfoldable pub find_user_by_email : (Text → Text) → Text → UserStore → Option UserRecord × UserStore
unfolding same_email
find_user_by_email to_lower email st =
    let st' = reload_if_changed st in
    (find (λ u. same_email to_lower email u.email) (JsMap.values st'.users), st')
