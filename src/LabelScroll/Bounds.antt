-- ===== src/LabelScroll/Bounds.antt =====
-- How far a label is scrolled at most, and when it is not.
use m5authenticator.Prelude.{ℕ, ◌+◌, ◌-◌, ◌/◌, ◌≤◌, ◌<◌, ◌≡◌, Bool, false, arith}
use m5authenticator.LabelScroll.{
  cycle_offset_px, dwell_elapsed, phase_of, phase_offset, saturating_add, saturating_multiply,
}

phase_offset-le :
    (phase_ms initial_dwell_ms scroll_duration_ms step_ms step max_offset : ℕ)
    → phase_offset phase_ms initial_dwell_ms scroll_duration_ms step_ms step max_offset ≤ max_offset
unfolding phase_offset
phase_offset-le phase_ms initial_dwell_ms scroll_duration_ms step_ms step max_offset = ground arith

phase_of-le :
    (cycle_duration_ms elapsed_ms : ℕ) → phase_of cycle_duration_ms elapsed_ms ≤ elapsed_ms
unfolding phase_of
phase_of-le cycle_duration_ms elapsed_ms = ground arith

phase_offset_dwell :
    (phase_ms initial_dwell_ms scroll_duration_ms step_ms step max_offset : ℕ)
    → phase_ms < initial_dwell_ms
    → phase_offset phase_ms initial_dwell_ms scroll_duration_ms step_ms step max_offset ≡ 0
unfolding phase_offset
phase_offset_dwell phase_ms initial_dwell_ms scroll_duration_ms step_ms step max_offset h =
    ground arith

-- At any time and with any durations, a label is scrolled by at most its largest offset.
cycle_offset_px-le :
    (screen_hidden : Bool)
    (epoch_ms now_ms initial_dwell_ms step_ms step_px max_offset_px end_dwell_ms : ℕ)
    → cycle_offset_px screen_hidden epoch_ms now_ms initial_dwell_ms step_ms step_px max_offset_px
        end_dwell_ms
      ≤ max_offset_px
unfolding cycle_offset_px
cycle_offset_px-le screen_hidden epoch_ms now_ms initial_dwell_ms step_ms step_px max_offset_px
      end_dwell_ms =
    let scroll_duration_ms =
      saturating_multiply ((max_offset_px + step_px - 1) / step_px) step_ms in
    let cycle_duration_ms =
      saturating_add (saturating_add initial_dwell_ms scroll_duration_ms) end_dwell_ms in
    ground (
      arith,
      phase_offset-le (phase_of cycle_duration_ms (now_ms - epoch_ms)) initial_dwell_ms
          scroll_duration_ms step_ms step_px max_offset_px,
    )

-- As long as the first dwell time has not elapsed, or the screen is hidden, a label is not scrolled.
cycle_offset_px-dwell_elapsed :
    (screen_hidden : Bool)
    (epoch_ms now_ms initial_dwell_ms step_ms step_px max_offset_px end_dwell_ms : ℕ)
    → dwell_elapsed screen_hidden epoch_ms now_ms initial_dwell_ms ≡ false
    → cycle_offset_px screen_hidden epoch_ms now_ms initial_dwell_ms step_ms step_px max_offset_px
        end_dwell_ms
      ≡ 0
unfolding cycle_offset_px dwell_elapsed
cycle_offset_px-dwell_elapsed screen_hidden epoch_ms now_ms initial_dwell_ms step_ms step_px
      max_offset_px end_dwell_ms h =
    let scroll_duration_ms =
      saturating_multiply ((max_offset_px + step_px - 1) / step_px) step_ms in
    let cycle_duration_ms =
      saturating_add (saturating_add initial_dwell_ms scroll_duration_ms) end_dwell_ms in
    ground (
      arith,
      phase_of-le cycle_duration_ms (now_ms - epoch_ms),
      phase_offset_dwell (phase_of cycle_duration_ms (now_ms - epoch_ms)) initial_dwell_ms
          scroll_duration_ms step_ms step_px max_offset_px,
    )
