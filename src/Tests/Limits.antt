-- ===== src/Tests/Limits.antt =====
-- An address with limits and usage: internal/handlers/quota.go.
use fmsg_webapi.Prelude.{ℕ, ◌≡◌, ◌↔◌, true, some, arith}
use fmsg_webapi.Prelude.Int.{pos, negsuc, ◌+ℤ◌}
use fmsg_webapi.Quota.{
  FmsgIdDetail, check_send_quota, fetched, may_send, local_delivery_code, accept,
}
use fmsg_webapi.Quota.Limits.{
  FitsSend, FitsRecv, SendInRange, RecvInRange, may_send_iff, accept_iff,
}

-- Ten messages a day, of at most 1000 bytes each.
abbrev detail : FmsgIdDetail
detail = record {
  accepting_new = true;
  limit_recv_size_total = pos 5000;
  limit_recv_size_per_1d = negsuc 0;
  limit_recv_count_per_1d = pos 10;
  limit_send_size_total = negsuc 0;
  limit_send_size_per_msg = pos 1000;
  limit_send_size_per_1d = negsuc 0;
  limit_send_count_per_1d = pos 10;
  recv_size_total = pos 4000;
  recv_size_per_1d = pos 200;
  recv_count_per_1d = pos 3;
  send_size_total = pos 700;
  send_size_per_1d = pos 70;
  send_count_per_1d = pos 7;
}

send_range : SendInRange detail (pos 500)
unfolding ◌+ℤ◌
send_range = record {
  count_per_1d = (omega arith, omega arith);
  size_per_1d = (omega arith, omega arith);
  size_total = (omega arith, omega arith);
}

recv_range : RecvInRange detail (pos 500)
unfolding ◌+ℤ◌
recv_range = record {
  count_per_1d = (omega arith, omega arith);
  size_per_1d = (omega arith, omega arith);
  size_total = (omega arith, omega arith);
}

abbrev status_ok : ℕ
status_ok = 200

may_send_iff_example :
    (check_send_quota (fetched status_ok detail) (pos 500) ≡ may_send)
    ↔ (status_ok ≡ 200) × (true ≡ true) × FitsSend detail (pos 500)
may_send_iff_example = may_send_iff detail (pos 500) status_ok send_range

accept_iff_example :
    (local_delivery_code status_ok (some detail) (pos 500) ≡ some accept)
    ↔ (status_ok ≡ 200) × (true ≡ true) × FitsRecv detail (pos 500)
accept_iff_example = accept_iff detail (pos 500) status_ok recv_range
