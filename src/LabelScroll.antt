-- ===== src/LabelScroll.antt =====
-- label_scroll_state.hpp of firmware/components/m5auth_device_sticks3: how far a long label is
-- scrolled. A time is a 64-bit number of milliseconds; a `max_offset_px` or `step_px` that is
-- negative does what 0 does. The two numbers that the callers keep behind pointers are a record.
mod Bounds
pub mod Exact
mod Tests
use m5authenticator.Prelude.{
  ℕ, ◌+◌, ◌-◌, ◌*◌, ◌/◌, ◌%◌, Bool, true, false, ◌||◌, ltb, leb, ◌==◌, if◌then◌else◌, min, u64_max,
}
use mathlib.Core.Bool.{xor}

pub record LabelScroll : Type 0 where
  pub epoch_ms : ℕ
  pub offset_px : ℕ

unfoldable pub reset : ℕ → LabelScroll → LabelScroll
reset now_ms l = record { epoch_ms = now_ms; offset_px = 0 }

unfoldable pub on_screen_hidden_changed : Bool → Bool → ℕ → LabelScroll → LabelScroll × Bool
unfolding reset xor
on_screen_hidden_changed was_hidden is_hidden now_ms l =
    if xor was_hidden is_hidden then (reset now_ms l, true) else (l, false)

unfoldable pub update_offset : Bool → ℕ → LabelScroll → LabelScroll × Bool
update_offset screen_hidden desired_offset_px l =
    if screen_hidden || l.offset_px == desired_offset_px
    then (l, false)
    else (record l { offset_px = desired_offset_px }, true)

unfoldable pub dwell_elapsed : Bool → ℕ → ℕ → ℕ → Bool
dwell_elapsed screen_hidden epoch_ms now_ms delay_ms =
    if screen_hidden || ltb now_ms epoch_ms then false else leb delay_ms (now_ms - epoch_ms)

unfoldable pub saturating_add : ℕ → ℕ → ℕ
saturating_add left right = if ltb (u64_max - right) left then u64_max else left + right

unfoldable pub saturating_multiply : ℕ → ℕ → ℕ
saturating_multiply left right =
    if left == 0 || right == 0
    then 0
    else if ltb (u64_max / right) left
    then u64_max
    else left * right

-- From the time since the start of the cycle on.
unfoldable pub phase_offset : ℕ → ℕ → ℕ → ℕ → ℕ → ℕ → ℕ
phase_offset phase_ms initial_dwell_ms scroll_duration_ms step_ms step max_offset =
    if ltb phase_ms initial_dwell_ms
    then 0
    else if leb scroll_duration_ms (phase_ms - initial_dwell_ms)
    then max_offset
    else min max_offset (saturating_multiply ((phase_ms - initial_dwell_ms) / step_ms) step)

unfoldable pub phase_of : ℕ → ℕ → ℕ
phase_of cycle_duration_ms elapsed_ms =
    if cycle_duration_ms == 0 || cycle_duration_ms == u64_max
    then elapsed_ms
    else elapsed_ms % cycle_duration_ms

unfoldable pub cycle_offset_px : Bool → ℕ → ℕ → ℕ → ℕ → ℕ → ℕ → ℕ → ℕ
cycle_offset_px screen_hidden epoch_ms now_ms initial_dwell_ms step_ms step_px max_offset_px
      end_dwell_ms =
    let max_steps = (max_offset_px + step_px - 1) / step_px in
    let scroll_duration_ms = saturating_multiply max_steps step_ms in
    let cycle_duration_ms =
      saturating_add (saturating_add initial_dwell_ms scroll_duration_ms) end_dwell_ms in
    if screen_hidden || ltb now_ms epoch_ms || step_ms == 0 || step_px == 0 || max_offset_px == 0
    then 0
    else phase_offset (phase_of cycle_duration_ms (now_ms - epoch_ms)) initial_dwell_ms
        scroll_duration_ms step_ms step_px max_offset_px
