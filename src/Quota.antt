-- ===== src/Quota.antt =====
-- internal/handlers/quota.go: an address's limits, as fmsgid reports them with its usage
-- (internal/middleware/fmsgid_usage.go). A limit below zero is no limit. Counters are int64.
pub mod Limits
use fmsg_webapi.Prelude.{
  ℕ, Bool, not, ◌&&◌, ◌||◌, Option, none, some, if◌then◌else◌, ◌==◌, nat_eq, text_eq,
}
use fmsg_webapi.Prelude.Int.{ℤ, pos, negsuc, ltb_ℤ, add64}

-- `FmsgIDDetail`
pub record FmsgIdDetail : Type 0 where
  pub accepting_new : Bool
  pub limit_recv_size_total : ℤ
  pub limit_recv_size_per_1d : ℤ
  pub limit_recv_count_per_1d : ℤ
  pub limit_send_size_total : ℤ
  pub limit_send_size_per_msg : ℤ
  pub limit_send_size_per_1d : ℤ
  pub limit_send_count_per_1d : ℤ
  pub recv_size_total : ℤ
  pub recv_size_per_1d : ℤ
  pub recv_count_per_1d : ℤ
  pub send_size_total : ℤ
  pub send_size_per_1d : ℤ
  pub send_count_per_1d : ℤ

-- `limit > -1 && total > limit`
abbrev over : ℤ → ℤ → Bool
over limit total = ltb_ℤ (negsuc 0) limit && ltb_ℤ limit total

unfoldable pub recv_limit_exceeded : FmsgIdDetail → ℤ → Bool
recv_limit_exceeded d size =
    over d.limit_recv_count_per_1d (add64 d.recv_count_per_1d (pos 1))
    || over d.limit_recv_size_per_1d (add64 d.recv_size_per_1d size)
    || over d.limit_recv_size_total (add64 d.recv_size_total size)

-- Response codes of the fmsg specification.
pub data ResponseCode : Type 0 where
  user_unknown user_full user_not_accepting accept : ResponseCode

abbrev pub code_of : ResponseCode → ℕ
code_of user_unknown = 100
code_of user_full = 101
code_of user_not_accepting = 102
code_of accept = 200

abbrev detail_code : FmsgIdDetail → ℤ → ResponseCode
detail_code d size =
    if not d.accepting_new
    then user_not_accepting
    else if recv_limit_exceeded d size
    then user_full
    else accept

-- `none` leaves the recipient pending.
unfoldable pub local_delivery_code : ℕ → Option FmsgIdDetail → ℤ → Option ResponseCode
local_delivery_code status none size = if status == 404 then some user_unknown else none
local_delivery_code status (some d) size =
    if status == 404
    then some user_unknown
    else if not (status == 200)
    then none
    else some (detail_code d size)

-- The send limits, in the order in which they are checked.
pub data SendLimit : Type 0 where
  send_size_per_msg send_count_per_1d send_size_per_1d send_size_total : SendLimit

-- The status of the refusal for a limit.
abbrev pub refusal_status : SendLimit → ℕ
refusal_status send_size_per_msg = 413
refusal_status send_count_per_1d = 429
refusal_status send_size_per_1d = 429
refusal_status send_size_total = 422

-- The first limit that one more message would exceed.
unfoldable pub check_send_limits : FmsgIdDetail → ℤ → Option SendLimit
check_send_limits d size =
    if over d.limit_send_size_per_msg size
    then some send_size_per_msg
    else if over d.limit_send_count_per_1d (add64 d.send_count_per_1d (pos 1))
    then some send_count_per_1d
    else if over d.limit_send_size_per_1d (add64 d.send_size_per_1d size)
    then some send_size_per_1d
    else if over d.limit_send_size_total (add64 d.send_size_total size)
    then some send_size_total
    else none

-- What `checkSendQuota` answers: it goes on, or the status of a refusal.
pub data Verdict : Type 0 where
  may_send : Verdict
  refused : ℕ → Verdict

-- fmsgid's answer to a fresh lookup: an error, or its status with the detail when that is 200.
pub data Fetched : Type 0 where
  fetch_error : Fetched
  fetched : ℕ → FmsgIdDetail → Fetched

unfoldable pub check_send_quota : Fetched → ℤ → Verdict
check_send_quota fetch_error size = refused 503
check_send_quota (fetched status d) size =
    if status == 404
    then refused 403
    else if not (status == 200)
    then refused 503
    else if not d.accepting_new
    then refused 403
    else elim (check_send_limits d size) [
      | none ↦ may_send
      | some limit ↦ refused (refusal_status limit)
    ]
