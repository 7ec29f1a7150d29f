-- ===== src/Quota/Limits.antt =====
-- What the quota checks of internal/handlers/quota.go decide, against the limits as numbers.
use fmsg_webapi.Prelude.{ℕ, ◌≡◌, refl, ◌↔◌, ◌⊎◌, Bool, true, false, ◌||◌, none, some, arith}
use fmsg_webapi.Prelude.Int.{ℤ, pos, ◌≤ℤ◌, ◌<ℤ◌, add64, ◌+ℤ◌, negsuc, add64-eq}
use fmsg_webapi.Quota.{
  over, FmsgIdDetail, check_send_limits, check_send_quota, recv_limit_exceeded, local_delivery_code,
  fetched, accept, may_send,
}

-- `total` is within `limit`, which is none if negative.
abbrev pub Within : ℤ → ℤ → Type 0
Within limit total = (limit <ℤ pos 0) ⊎ (total ≤ℤ limit)

over_iff : (limit total : ℤ) → (over limit total ≡ false) ↔ Within limit total
over_iff limit total = (λ h. ground arith, λ h. ground arith)

-- The sum is in the range of int64.
abbrev pub Adds : ℤ → ℤ → Type 0
Adds a b = (a +ℤ b <ℤ pos 0x8000_0000_0000_0000) × (negsuc 0x7FFF_FFFF_FFFF_FFFF ≤ℤ a +ℤ b)

over-add64_iff :
    (limit a b : ℤ) → Adds a b → (over limit (add64 a b) ≡ false) ↔ Within limit (a +ℤ b)
over-add64_iff limit a b (h, k) = rw (add64-eq a b h k) (over_iff limit (a +ℤ b))

none_of : (a b c : Bool) → (a || b || c) ≡ false → (a ≡ false) × (b ≡ false) × (c ≡ false)
none_of a b c h = ground arith

-- One more message of `size` fits the address's send limits.
pub record FitsSend (d : FmsgIdDetail) (size : ℤ) : Type 0 where
  pub size_per_msg : Within d.limit_send_size_per_msg size
  pub count_per_1d : Within d.limit_send_count_per_1d (d.send_count_per_1d +ℤ pos 1)
  pub size_per_1d : Within d.limit_send_size_per_1d (d.send_size_per_1d +ℤ size)
  pub size_total : Within d.limit_send_size_total (d.send_size_total +ℤ size)

pub record FitsRecv (d : FmsgIdDetail) (size : ℤ) : Type 0 where
  pub count_per_1d : Within d.limit_recv_count_per_1d (d.recv_count_per_1d +ℤ pos 1)
  pub size_per_1d : Within d.limit_recv_size_per_1d (d.recv_size_per_1d +ℤ size)
  pub size_total : Within d.limit_recv_size_total (d.recv_size_total +ℤ size)

-- The sums that the checks form do not overflow.
pub record SendInRange (d : FmsgIdDetail) (size : ℤ) : Type 0 where
  pub count_per_1d : Adds d.send_count_per_1d (pos 1)
  pub size_per_1d : Adds d.send_size_per_1d size
  pub size_total : Adds d.send_size_total size

pub record RecvInRange (d : FmsgIdDetail) (size : ℤ) : Type 0 where
  pub count_per_1d : Adds d.recv_count_per_1d (pos 1)
  pub size_per_1d : Adds d.recv_size_per_1d size
  pub size_total : Adds d.recv_size_total size

module _ (d : FmsgIdDetail) (size : ℤ) where
  check_send_limits-none :
      (a b c e : Bool)
      → over d.limit_send_size_per_msg size ≡ a
      → over d.limit_send_count_per_1d (add64 d.send_count_per_1d (pos 1)) ≡ b
      → over d.limit_send_size_per_1d (add64 d.send_size_per_1d size) ≡ c
      → over d.limit_send_size_total (add64 d.send_size_total size) ≡ e
      → (check_send_limits d size ≡ none) ↔ (a ≡ false) × (b ≡ false) × (c ≡ false) × (e ≡ false)
  unfolding check_send_limits
  check_send_limits-none a b c e p q r s =
      rw (p, q, r, s, check_send_limits)
        (λ h. (ground arith, ground arith, ground arith, ground arith), λ h. ground arith)

  check_send_limits_iff : SendInRange d size → (check_send_limits d size ≡ none) ↔ FitsSend d size
  check_send_limits_iff v =
      let w = check_send_limits-none _ _ _ _ refl refl refl refl in
      let m = over_iff d.limit_send_size_per_msg size in
      let n = over-add64_iff d.limit_send_count_per_1d d.send_count_per_1d (pos 1) v.count_per_1d in
      let p = over-add64_iff d.limit_send_size_per_1d d.send_size_per_1d size v.size_per_1d in
      let q = over-add64_iff d.limit_send_size_total d.send_size_total size v.size_total in
      (
        λ h.
            let f = w.0 h in
            record {
              size_per_msg = m.0 f.0;
              count_per_1d = n.0 f.1;
              size_per_1d = p.0 f.2;
              size_total = q.0 f.3;
            },
        λ f. w.1 (m.1 f.size_per_msg, n.1 f.count_per_1d, p.1 f.size_per_1d, q.1 f.size_total),
      )

  -- Where the sums do not overflow, a sender may send exactly when fmsgid answers 200, the address
  -- accepts new messages, and one more message of the size fits each of its four send limits.
  pub may_send_iff :
      (status : ℕ)
      → SendInRange d size
      → (check_send_quota (fetched status d) size ≡ may_send)
        ↔ (status ≡ 200) × (d.accepting_new ≡ true) × FitsSend d size
  unfolding check_send_quota
  may_send_iff status v =
      let w = check_send_limits_iff v in
      (λ h. (ground arith, ground arith, w.0 (ground arith)), λ h. let e = w.1 h.2 in ground arith)

  recv_limit_exceeded_iff :
      RecvInRange d size → (recv_limit_exceeded d size ≡ false) ↔ FitsRecv d size
  unfolding recv_limit_exceeded
  recv_limit_exceeded_iff v =
      let n = over-add64_iff d.limit_recv_count_per_1d d.recv_count_per_1d (pos 1) v.count_per_1d in
      let p = over-add64_iff d.limit_recv_size_per_1d d.recv_size_per_1d size v.size_per_1d in
      let q = over-add64_iff d.limit_recv_size_total d.recv_size_total size v.size_total in
      (
        λ h.
            let f = none_of _ _ _ h in
            record { count_per_1d = n.0 f.0; size_per_1d = p.0 f.1; size_total = q.0 f.2 },
        λ f. rw (n.1 f.count_per_1d, p.1 f.size_per_1d, q.1 f.size_total),
      )

  -- Where the sums do not overflow, local delivery accepts a recipient exactly when fmsgid answers
  -- 200, the address accepts new messages, and the message fits each of its three receive limits.
  pub accept_iff :
      (status : ℕ)
      → RecvInRange d size
      → (local_delivery_code status (some d) size ≡ some accept)
        ↔ (status ≡ 200) × (d.accepting_new ≡ true) × FitsRecv d size
  unfolding local_delivery_code
  accept_iff status v =
      let w = recv_limit_exceeded_iff v in
      (λ h. (ground arith, ground arith, w.0 (ground arith)), λ h. let e = w.1 h.2 in ground arith)
