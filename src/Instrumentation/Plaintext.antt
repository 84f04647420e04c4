-- ===== src/Instrumentation/Plaintext.antt =====
-- roshi/instrumentation/plaintext/plaintext.go: the name and the number that each report prints.
use Prim.Native.String.{String}
use er_pi_middleware25_artif.Base.{ℕ, ◌/◌}
use er_pi_middleware25_artif.Instrumentation.{
  Report, insert_call, insert_record_count, insert_call_duration, insert_record_duration,
  insert_quorum_failure, select_call, select_keys, select_send_to, select_first_response_duration,
  select_partial_error, select_blocking_duration, select_overhead_duration, select_duration,
  select_send_all_permit_granted, select_send_all_permit_rejected, select_send_all_promotion,
  select_retrieved, select_returned, select_repair_needed, delete_call, delete_record_count,
  delete_call_duration, delete_record_duration, delete_quorum_failure, repair_call, repair_request,
  repair_discarded, repair_write_success, repair_write_failure, walk_keys,
}

unfoldable pub plaintext : Report → String × ℕ
plaintext insert_call = ("insert.call.count", 1)
plaintext (insert_record_count n) = ("insert.record.count", n)
plaintext (insert_call_duration d) = ("insert.call.duration_ms", d / 1000_000)
plaintext (insert_record_duration d) = ("insert.record.duration_ms", d / 1000_000)
plaintext insert_quorum_failure = ("insert.quorum_failure.count", 1)
plaintext select_call = ("select.call.count", 1)
plaintext (select_keys n) = ("select.call.count", n)
plaintext (select_send_to n) = ("select.send_to.count", n)
plaintext (select_first_response_duration d) = ("select.first_response.duration_ms", d / 1000_000)
plaintext select_partial_error = ("select.partial_error.count", 1)
plaintext (select_blocking_duration d) = ("select.blocking.duration_ms", d / 1000_000)
plaintext (select_overhead_duration d) = ("select.overhead.duration_ms", d / 1000_000)
plaintext (select_duration d) = ("select.duration_ms", d / 1000_000)
plaintext select_send_all_permit_granted = ("select.send_all_permit_granted.count", 1)
plaintext select_send_all_permit_rejected = ("select.send_all_permit_rejected.count", 1)
plaintext select_send_all_promotion = ("select.send_all_promotion.count", 1)
plaintext (select_retrieved n) = ("select.retrieved.count", n)
plaintext (select_returned n) = ("select.returned.count", n)
plaintext (select_repair_needed n) = ("select.repair_needed.count", n)
plaintext delete_call = ("delete.call.count", 1)
plaintext (delete_record_count n) = ("delete.record.count", n)
plaintext (delete_call_duration d) = ("delete.call.duration_ms", d / 1000_000)
plaintext (delete_record_duration d) = ("delete.record.duration_ms", d / 1000_000)
plaintext delete_quorum_failure = ("delete.quorum_failure.count", 1)
plaintext repair_call = ("repair.call.count", 1)
plaintext (repair_request n) = ("repair.request.count", n)
plaintext (repair_discarded n) = ("repair.discarded.count", n)
plaintext (repair_write_success n) = ("repair.write_success.count", n)
plaintext (repair_write_failure n) = ("repair.write_failure.count", n)
plaintext (walk_keys n) = ("walk.keys.count", n)
