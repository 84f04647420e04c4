-- ===== src/Instrumentation/Statsd.antt =====
-- roshi/instrumentation/statsd/statsd.go: what each report is to the statter.
use Prim.Native.String.{String}
use er_pi_middleware25_artif.Base.{ℕ}
use er_pi_middleware25_artif.Instrumentation.{
  Report, insert_call, insert_record_count, insert_call_duration, insert_record_duration,
  insert_quorum_failure, select_call, select_keys, select_send_to, select_first_response_duration,
  select_partial_error, select_blocking_duration, select_overhead_duration, select_duration,
  select_send_all_permit_granted, select_send_all_permit_rejected, select_send_all_promotion,
  select_retrieved, select_returned, select_repair_needed, delete_call, delete_record_count,
  delete_call_duration, delete_record_duration, delete_quorum_failure, repair_call, repair_request,
  repair_discarded, repair_write_success, repair_write_failure, walk_keys,
}

-- A bucket: the common prefix, and the name that follows it.
abbrev pub Bucket : Type 0
Bucket = String × String

pub data Call : Type 0 where
  counter timing : Bucket → ℕ → Call

unfoldable pub statsd : String → Report → Call
statsd prefix insert_call = counter (prefix, "insert.call.count") 1
statsd prefix (insert_record_count n) = counter (prefix, "insert.record.count") n
statsd prefix (insert_call_duration d) = timing (prefix, "insert.call.duration") d
statsd prefix (insert_record_duration d) = timing (prefix, "insert.record.duration") d
statsd prefix insert_quorum_failure = counter (prefix, "insert.quorum_failure.count") 1
statsd prefix select_call = counter (prefix, "select.call.count") 1
statsd prefix (select_keys n) = counter (prefix, "select.keys.count") n
statsd prefix (select_send_to n) = counter (prefix, "select.send_to.count") n
statsd prefix (select_first_response_duration d) =
    timing (prefix, "select.first_response.duration") d
statsd prefix select_partial_error = counter (prefix, "select.partial_error.count") 1
statsd prefix (select_blocking_duration d) = timing (prefix, "select.blocking.duration") d
statsd prefix (select_overhead_duration d) = timing (prefix, "select.overhead.duration") d
statsd prefix (select_duration d) = timing (prefix, "select.duration") d
statsd prefix select_send_all_permit_granted =
    counter (prefix, "select.send_all_permit_granted.count") 1
statsd prefix select_send_all_permit_rejected =
    counter (prefix, "select.send_all_permit_rejected.count") 1
statsd prefix select_send_all_promotion = counter (prefix, "select.send_all_promotion.count") 1
statsd prefix (select_retrieved n) = counter (prefix, "select.retrieved.count") n
statsd prefix (select_returned n) = counter (prefix, "select.returned.count") n
statsd prefix (select_repair_needed n) = counter (prefix, "select.repair_needed.count") n
statsd prefix delete_call = counter (prefix, "delete.call.count") 1
statsd prefix (delete_record_count n) = counter (prefix, "delete.record.count") n
statsd prefix (delete_call_duration d) = timing (prefix, "delete.call.duration") d
statsd prefix (delete_record_duration d) = timing (prefix, "delete.record.duration") d
statsd prefix delete_quorum_failure = counter (prefix, "delete.quorum_failure.count") 1
statsd prefix repair_call = counter (prefix, "repair.call.count") 1
statsd prefix (repair_request n) = counter (prefix, "repair.request.count") n
statsd prefix (repair_discarded n) = counter (prefix, "repair.discarded.count") n
statsd prefix (repair_write_success n) = counter (prefix, "repair.write_success.count") n
statsd prefix (repair_write_failure n) = counter (prefix, "repair.write_failure.count") n
statsd prefix (walk_keys n) = counter (prefix, "walk.keys.count") n
