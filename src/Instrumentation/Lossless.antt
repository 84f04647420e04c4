-- ===== src/Instrumentation/Lossless.antt =====
-- No two reports are confused by the targets of roshi/instrumentation that the programs use.
use Prim.Native.String.{String}
use text.Mathlib.Text.{◌==◌}
use er_pi_middleware25_artif.Base.{ℕ, ◌≡◌, refl, List, [], ◌∷◌, Option, none, some, if◌then◌else◌}
use er_pi_middleware25_artif.Instrumentation.{
  Report, insert_call, insert_record_count, insert_call_duration, insert_record_duration,
  insert_quorum_failure, select_call, select_keys, select_send_to, select_first_response_duration,
  select_partial_error, select_blocking_duration, select_overhead_duration, select_duration,
  select_send_all_permit_granted, select_send_all_permit_rejected, select_send_all_promotion,
  select_retrieved, select_returned, select_repair_needed, delete_call, delete_record_count,
  delete_call_duration, delete_record_duration, delete_quorum_failure, repair_call, repair_request,
  repair_discarded, repair_write_success, repair_write_failure, walk_keys,
}
use er_pi_middleware25_artif.Instrumentation.Statsd.{Call, counter, timing, statsd}
use er_pi_middleware25_artif.Instrumentation.Prometheus.{Change, inc, add, observe, prometheus}

abbrev pub find : String → List (String × (ℕ → Report)) → ℕ → Option Report
find name [] n = none
find name ((k, f) ∷ table) n = if name == k then some (f n) else find name table n

-- The reports by the names of their buckets.
abbrev pub buckets : List (String × (ℕ → Report))
buckets =
    ("insert.call.count", λ _. insert_call)
    ∷ ("insert.record.count", insert_record_count)
    ∷ ("insert.call.duration", insert_call_duration)
    ∷ ("insert.record.duration", insert_record_duration)
    ∷ ("insert.quorum_failure.count", λ _. insert_quorum_failure)
    ∷ ("select.call.count", λ _. select_call)
    ∷ ("select.keys.count", select_keys)
    ∷ ("select.send_to.count", select_send_to)
    ∷ ("select.first_response.duration", select_first_response_duration)
    ∷ ("select.partial_error.count", λ _. select_partial_error)
    ∷ ("select.blocking.duration", select_blocking_duration)
    ∷ ("select.overhead.duration", select_overhead_duration)
    ∷ ("select.duration", select_duration)
    ∷ ("select.send_all_permit_granted.count", λ _. select_send_all_permit_granted)
    ∷ ("select.send_all_permit_rejected.count", λ _. select_send_all_permit_rejected)
    ∷ ("select.send_all_promotion.count", λ _. select_send_all_promotion)
    ∷ ("select.retrieved.count", select_retrieved)
    ∷ ("select.returned.count", select_returned)
    ∷ ("select.repair_needed.count", select_repair_needed)
    ∷ ("delete.call.count", λ _. delete_call)
    ∷ ("delete.record.count", delete_record_count)
    ∷ ("delete.call.duration", delete_call_duration)
    ∷ ("delete.record.duration", delete_record_duration)
    ∷ ("delete.quorum_failure.count", λ _. delete_quorum_failure)
    ∷ ("repair.call.count", λ _. repair_call)
    ∷ ("repair.request.count", repair_request)
    ∷ ("repair.discarded.count", repair_discarded)
    ∷ ("repair.write_success.count", repair_write_success)
    ∷ ("repair.write_failure.count", repair_write_failure)
    ∷ ("walk.keys.count", walk_keys)
    ∷ []

abbrev pub report_of_call : Call → Option Report
report_of_call (counter (prefix, name) n) = find name buckets n
report_of_call (timing (prefix, name) d) = find name buckets d

-- The reports by the names of their metrics.
abbrev pub metrics : List (String × (ℕ → Report))
metrics =
    ("insert_call_count", λ _. insert_call)
    ∷ ("insert_record_count", insert_record_count)
    ∷ ("insert_call_duration_nanoseconds", insert_call_duration)
    ∷ ("insert_record_duration_nanoseconds", insert_record_duration)
    ∷ ("insert_quorum_failure_count", λ _. insert_quorum_failure)
    ∷ ("select_call_count", λ _. select_call)
    ∷ ("select_keys_count", select_keys)
    ∷ ("select_send_to_count", select_send_to)
    ∷ ("select_first_response_duration_nanoseconds", select_first_response_duration)
    ∷ ("select_partial_error_count", λ _. select_partial_error)
    ∷ ("select_blocking_duration_nanoseconds", select_blocking_duration)
    ∷ ("select_overhead_duration_nanoseconds", select_overhead_duration)
    ∷ ("select_duration_nanoseconds", select_duration)
    ∷ ("select_send_all_permit_granted_count", λ _. select_send_all_permit_granted)
    ∷ ("select_send_all_permit_rejected_count", λ _. select_send_all_permit_rejected)
    ∷ ("select_send_all_promotion_count", λ _. select_send_all_promotion)
    ∷ ("select_retrieved_count", select_retrieved)
    ∷ ("select_returned_count", select_returned)
    ∷ ("select_repair_needed_count", select_repair_needed)
    ∷ ("delete_call_count", λ _. delete_call)
    ∷ ("delete_record_count", delete_record_count)
    ∷ ("delete_call_duration_nanoseconds", delete_call_duration)
    ∷ ("delete_record_duration_nanoseconds", delete_record_duration)
    ∷ ("delete_quorum_failure_count", λ _. delete_quorum_failure)
    ∷ ("repair_call_count", λ _. repair_call)
    ∷ ("repair_request_count", repair_request)
    ∷ ("repair_discarded_count", repair_discarded)
    ∷ ("repair_write_success_count", repair_write_success)
    ∷ ("repair_write_failure_count", repair_write_failure)
    ∷ ("walk_keys_count", walk_keys)
    ∷ []

abbrev pub report_of_change : Change → Option Report
report_of_change (inc name) = find name metrics 1
report_of_change (add name n) = find name metrics n
report_of_change (observe name d) = find name metrics d

statsd_report : (prefix : String) (r : Report) → report_of_call (statsd prefix r) ≡ some r
unfolding statsd
statsd_report prefix insert_call = refl
statsd_report prefix (insert_record_count n) = refl
statsd_report prefix (insert_call_duration n) = refl
statsd_report prefix (insert_record_duration n) = refl
statsd_report prefix insert_quorum_failure = refl
statsd_report prefix select_call = refl
statsd_report prefix (select_keys n) = refl
statsd_report prefix (select_send_to n) = refl
statsd_report prefix (select_first_response_duration n) = refl
statsd_report prefix select_partial_error = refl
statsd_report prefix (select_blocking_duration n) = refl
statsd_report prefix (select_overhead_duration n) = refl
statsd_report prefix (select_duration n) = refl
statsd_report prefix select_send_all_permit_granted = refl
statsd_report prefix select_send_all_permit_rejected = refl
statsd_report prefix select_send_all_promotion = refl
statsd_report prefix (select_retrieved n) = refl
statsd_report prefix (select_returned n) = refl
statsd_report prefix (select_repair_needed n) = refl
statsd_report prefix delete_call = refl
statsd_report prefix (delete_record_count n) = refl
statsd_report prefix (delete_call_duration n) = refl
statsd_report prefix (delete_record_duration n) = refl
statsd_report prefix delete_quorum_failure = refl
statsd_report prefix repair_call = refl
statsd_report prefix (repair_request n) = refl
statsd_report prefix (repair_discarded n) = refl
statsd_report prefix (repair_write_success n) = refl
statsd_report prefix (repair_write_failure n) = refl
statsd_report prefix (walk_keys n) = refl

prometheus_report : (r : Report) → report_of_change (prometheus r) ≡ some r
unfolding prometheus
prometheus_report insert_call = refl
prometheus_report (insert_record_count n) = refl
prometheus_report (insert_call_duration n) = refl
prometheus_report (insert_record_duration n) = refl
prometheus_report insert_quorum_failure = refl
prometheus_report select_call = refl
prometheus_report (select_keys n) = refl
prometheus_report (select_send_to n) = refl
prometheus_report (select_first_response_duration n) = refl
prometheus_report select_partial_error = refl
prometheus_report (select_blocking_duration n) = refl
prometheus_report (select_overhead_duration n) = refl
prometheus_report (select_duration n) = refl
prometheus_report select_send_all_permit_granted = refl
prometheus_report select_send_all_permit_rejected = refl
prometheus_report select_send_all_promotion = refl
prometheus_report (select_retrieved n) = refl
prometheus_report (select_returned n) = refl
prometheus_report (select_repair_needed n) = refl
prometheus_report delete_call = refl
prometheus_report (delete_record_count n) = refl
prometheus_report (delete_call_duration n) = refl
prometheus_report (delete_record_duration n) = refl
prometheus_report delete_quorum_failure = refl
prometheus_report repair_call = refl
prometheus_report (repair_request n) = refl
prometheus_report (repair_discarded n) = refl
prometheus_report (repair_write_success n) = refl
prometheus_report (repair_write_failure n) = refl
prometheus_report (walk_keys n) = refl

-- Every report can be told, with its number, from the call that statsd makes of it and from the
-- change that prometheus makes: no two methods share a name, and no number is lost.
pub reports_lossless :
    (prefix : String) (r : Report)
    → (report_of_call (statsd prefix r) ≡ some r) × (report_of_change (prometheus r) ≡ some r)
reports_lossless prefix r = (statsd_report prefix r, prometheus_report r)
