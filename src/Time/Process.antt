-- ===== src/Time/Process.antt =====
-- `time_api_process_client_events`: which event it calls, and what it leaves in the buffer.
use zappy.Prelude.{◌≡◌, true, false, some, success}
use zappy.Time.{
  TimeApi, Owner, event_at, is_due, pop_head, run_callback, release_slot, process_client_events,
}

module _ {C S : Type 0} (o : Owner C S) where
  pub process-due :
      (api : TimeApi) (s : S)
      → is_due api.current_time_units (o.buffer s) ≡ true
      → process_client_events o (some api) s ≡ (
        success,
        release_slot o (o.buffer s).head (pop_head (o.buffer s)).head (
            run_callback o
              (event_at (o.buffer s) (o.buffer s).head)
              (o.put s (pop_head (o.buffer s)))),
      )
  unfolding process_client_events
  process-due api s h = rw h

  -- An event that is not due yet stays where it is, and nothing is called.
  pub process-not_due :
      (api : TimeApi) (s : S)
      → is_due api.current_time_units (o.buffer s) ≡ false
      → process_client_events o (some api) s ≡ (success, s)
  unfolding process_client_events
  process-not_due api s h = rw h
