-- ===== src/Trash.antt =====
-- internal/handlers/trash.go: each address's own trash. Deleting hides a sent message from one
-- address; deleting it for good also gives back the storage that it counted against the address,
-- and takes it off the host when no local participant holds it.
pub mod Storage
pub mod Removal
pub mod Purge
pub mod Handlers
pub mod Permanence
pub mod Unheld
pub mod Marking
pub mod Marks
use fmsg_webapi.Prelude.{
  ℕ, ◌*◌, Bool, true, false, Option, none, some, List, [], ◌∷◌, ◌++◌, ltb, if◌then◌else◌, any, ◌==◌,
  nat_eq, Text, text_eq,
}
use fmsg_webapi.Strings.{Casing, is_empty}
use fmsg_webapi.Db.{Db, Trash}
use fmsg_webapi.Db.Lineage.{State, purged, trash_state}
use fmsg_webapi.Request.{Query, World, query, exec, failed}

-- What the handlers are configured with, and the file system: `safe_path` is the cleaned path of a
-- file inside the data directory, `file_size` what os.Stat says.
pub record Host : Type 0 where
  pub casing : Casing
  pub local_domain : Text
  pub id_url : Text
  pub retry_max_age : ℕ
  pub safe_path : Text → Option Text
  pub stat_size : Text → Option ℕ

-- Seconds.
abbrev pub default_retry_max_age : ℕ
default_retry_max_age = 86400

-- Times are in microseconds here.
abbrev pub max_age_of : ℕ → ℕ
max_age_of configured = (if ltb 0 configured then configured else default_retry_max_age) * 1_000_000

abbrev pub local_domains : Host → List Text
local_domains h = if is_empty h.local_domain then [] else h.casing.to_lower h.local_domain ∷ []

abbrev pub has_rows : Text → List Trash → Bool
has_rows addr ts = any (λ (t : Trash). t.addr == addr) ts

-- The expression that `trashStateQ` selects.
abbrev pub state_in : Text → ℕ → Db → Option State
state_in addr id db = if has_rows addr db.trash then trash_state db addr id else none

abbrev pub trash_state_q : Host → Text → ℕ → Query (Option State)
trash_state_q h addr id = query (state_in (h.casing.to_lower addr) id)

abbrev pub is_purged : Option State → Bool
is_purged (some purged) = true
is_purged _ = false

-- An error counts as not purged.
abbrev pub purged_result : Option (Option State) × World → Bool × World
purged_result (none, w) = (false, w)
purged_result (some state, w) = (is_purged state, w)

abbrev pub purged_for : Host → Text → ℕ → World → Bool × World
purged_for h addr id w = purged_result (trash_state_q h addr id w)

abbrev pub noted : ℕ → Text → Option (Unit {0}) × World → World
noted id addr (none, w) = w
noted id addr (some _, w) = record w { notes = w.notes ++ (id, addr) ∷ [] }

-- `notifyTrash`; an error is logged.
pub notify_trash : Text → List ℕ → World → World
notify_trash addr [] w = w
notify_trash addr (id ∷ ids) w = notify_trash addr ids (noted id addr (exec some w))
