-- ===== src/Instrumentation/Prometheus.antt =====
-- roshi/instrumentation/prometheus/prometheus.go: the metric that each report changes, by its name
-- in the namespace, and how.
use Prim.Native.String.{String}
use er_pi_middleware25_artif.Base.{ℕ}
use er_pi_middleware25_artif.Instrumentation.{
  Report, insert_call, insert_record_count, insert_call_duration, insert_record_duration,
  insert_quorum_failure, select_call, select_keys, select_send_to, select_first_response_duration,
  select_partial_error, select_blocking_duration, select_overhead_duration, select_duration,
  select_send_all_permit_granted, select_send_all_permit_rejected, select_send_all_promotion,
  select_retrieved, select_returned, select_repair_needed, delete_call, delete_record_count,
  delete_call_duration, delete_record_duration, delete_quorum_failure, repair_call, repair_request,
  repair_discarded, repair_write_success, repair_write_failure, walk_keys,
}

pub data Change : Type 0 where
  inc : String → Change
  add observe : String → ℕ → Change

unfoldable pub prometheus : Report → Change
prometheus insert_call = inc "insert_call_count"
prometheus (insert_record_count n) = add "insert_record_count" n
prometheus (insert_call_duration d) = observe "insert_call_duration_nanoseconds" d
prometheus (insert_record_duration d) = observe "insert_record_duration_nanoseconds" d
prometheus insert_quorum_failure = inc "insert_quorum_failure_count"
prometheus select_call = inc "select_call_count"
prometheus (select_keys n) = add "select_keys_count" n
prometheus (select_send_to n) = add "select_send_to_count" n
prometheus (select_first_response_duration d) =
    observe "select_first_response_duration_nanoseconds" d
prometheus select_partial_error = inc "select_partial_error_count"
prometheus (select_blocking_duration d) = observe "select_blocking_duration_nanoseconds" d
prometheus (select_overhead_duration d) = observe "select_overhead_duration_nanoseconds" d
prometheus (select_duration d) = observe "select_duration_nanoseconds" d
prometheus select_send_all_permit_granted = inc "select_send_all_permit_granted_count"
prometheus select_send_all_permit_rejected = inc "select_send_all_permit_rejected_count"
prometheus select_send_all_promotion = inc "select_send_all_promotion_count"
prometheus (select_retrieved n) = add "select_retrieved_count" n
prometheus (select_returned n) = add "select_returned_count" n
prometheus (select_repair_needed n) = add "select_repair_needed_count" n
prometheus delete_call = inc "delete_call_count"
prometheus (delete_record_count n) = add "delete_record_count" n
prometheus (delete_call_duration d) = observe "delete_call_duration_nanoseconds" d
prometheus (delete_record_duration d) = observe "delete_record_duration_nanoseconds" d
prometheus delete_quorum_failure = inc "delete_quorum_failure_count"
prometheus repair_call = inc "repair_call_count"
prometheus (repair_request n) = add "repair_request_count" n
prometheus (repair_discarded n) = add "repair_discarded_count" n
prometheus (repair_write_success n) = add "repair_write_success_count" n
prometheus (repair_write_failure n) = add "repair_write_failure_count" n
prometheus (walk_keys n) = add "walk_keys_count" n
