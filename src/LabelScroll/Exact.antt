-- ===== src/LabelScroll/Exact.antt =====
-- The saturating arithmetic of `cycle_offset_px` against one formula over unbounded numbers.
use native.Mathlib.Nat.{
  zero-div, div-mul-le_self, le-div_iff_mul-le, lt-div-mul-add, mul-le-mul_right, mul-pos,
  mod-eq_of_lt, le_trans, mod-le,
}
use m5authenticator.Prelude.{
  ℕ, ◌+◌, ◌-◌, ◌*◌, ◌/◌, ◌%◌, ◌≤◌, ◌<◌, ◌≡◌, false, arith, min, u64_max, refl,
}
use m5authenticator.LabelScroll.{
  cycle_offset_px, phase_of, phase_offset, saturating_add, saturating_multiply,
}

-- The steps that it takes to scroll by the largest offset: a quotient that is rounded up.
abbrev pub max_steps : ℕ → ℕ → ℕ
max_steps step max_offset = (max_offset + step - 1) / step

-- What the label is scrolled by at a phase of the cycle: whole steps since the first dwell time.
abbrev pub moved : ℕ → ℕ → ℕ → ℕ → ℕ → ℕ
moved phase_ms initial_dwell_ms step_ms step max_offset =
    min max_offset ((phase_ms - initial_dwell_ms) / step_ms * step)

abbrev pub cycle : ℕ → ℕ → ℕ → ℕ → ℕ → ℕ
cycle initial_dwell_ms step_ms step max_offset end_dwell_ms =
    initial_dwell_ms + max_steps step max_offset * step_ms + end_dwell_ms

saturating_add-min :
    (left right : ℕ) → right ≤ u64_max → saturating_add left right ≡ min u64_max (left + right)
unfolding saturating_add
saturating_add-min left right h = ground arith

module _ (left right : ℕ) where
  product_large : 0 < right → u64_max / right < left → u64_max < left * right
  product_large pos h = omega (arith, lt-div-mul-add {a = u64_max} pos, mul-le-mul_right right h)

  product_small : left ≤ u64_max / right → left * right ≤ u64_max
  product_small h = omega (arith, mul-le-mul_right right h, div-mul-le_self u64_max right)

  saturating_multiply-min : saturating_multiply left right ≡ min u64_max (left * right)
  unfolding saturating_multiply
  saturating_multiply-min = ground (arith, product_large, product_small)

module _ {step : ℕ} (max_offset : ℕ) (step_pos : 0 < step) where
  max_steps-cover : max_offset ≤ max_steps step max_offset * step
  max_steps-cover = omega (arith, lt-div-mul-add {a = max_offset + step - 1} step_pos)

  max_steps-pos : 0 < max_offset → 0 < max_steps step max_offset
  max_steps-pos h = (le-div_iff_mul-le step_pos).1 (omega arith)

  module _ {step_ms : ℕ} (step_ms_pos : 0 < step_ms) where
    -- From the end of the scrolling on, the largest offset is the smaller one.
    scrolled_out :
        (scroll_ms : ℕ)
        → max_steps step max_offset * step_ms ≤ scroll_ms
        → max_offset ≤ scroll_ms / step_ms * step
    scrolled_out scroll_ms h =
        le_trans max_steps-cover (mul-le-mul_right step ((le-div_iff_mul-le step_ms_pos).1 h))

    module _ (phase_ms initial_dwell_ms : ℕ) where
      before_dwell :
          phase_ms < initial_dwell_ms → 0 ≡ moved phase_ms initial_dwell_ms step_ms step max_offset
      before_dwell h =
          let e : phase_ms - initial_dwell_ms ≡ 0 = omega arith in
          rw e (rw (zero-div step_ms) (ground arith))

      phase_offset-moved :
          (scroll_ms : ℕ)
          → scroll_ms ≡ min u64_max (max_steps step max_offset * step_ms)
          → max_offset ≤ u64_max
          → phase_ms < u64_max
          → phase_offset phase_ms initial_dwell_ms scroll_ms step_ms step max_offset
            ≡ moved phase_ms initial_dwell_ms step_ms step max_offset
      unfolding phase_offset
      phase_offset-moved scroll_ms e m p = ground (
        arith,
        before_dwell,
        saturating_multiply-min ((phase_ms - initial_dwell_ms) / step_ms) step,
        scrolled_out (phase_ms - initial_dwell_ms),
      )

-- A cycle that is cut at the largest number is longer than the time that has elapsed.
phase_of-mod :
    (cycle_ms elapsed_ms : ℕ)
    → 0 < cycle_ms
    → elapsed_ms < u64_max
    → phase_of (min u64_max cycle_ms) elapsed_ms ≡ elapsed_ms % cycle_ms
unfolding phase_of
phase_of-mod cycle_ms elapsed_ms pos h =
    ground (arith, mod-eq_of_lt {n = elapsed_ms} {m = cycle_ms})

cut_cycle :
    (initial_dwell_ms scroll_ms end_dwell_ms : ℕ)
    → end_dwell_ms ≤ u64_max
    → saturating_add (saturating_add initial_dwell_ms (min u64_max scroll_ms)) end_dwell_ms
      ≡ min u64_max (initial_dwell_ms + scroll_ms + end_dwell_ms)
cut_cycle initial_dwell_ms scroll_ms end_dwell_ms h =
    rw (saturating_add-min initial_dwell_ms (min u64_max scroll_ms) (ground arith)) (
      rw
        (saturating_add-min (min u64_max (initial_dwell_ms + min u64_max scroll_ms)) end_dwell_ms h)
        (ground arith))

-- For a label that is shown, with positive steps, a positive largest offset and 64-bit numbers, from
-- the start on and as long as the elapsed time is not the largest 64-bit number: `cycle_offset_px` is
-- the number of whole steps since the first dwell time of the running cycle, times the step, cut at
-- the largest offset. A cycle has the first dwell time, as many steps as it takes to reach the
-- largest offset, and the last dwell time. So the saturation of products and sums changes nothing.
pub cycle_offset_px-exact :
    (epoch_ms now_ms initial_dwell_ms step_ms step_px max_offset_px end_dwell_ms : ℕ)
    → 0 < step_ms
    → 0 < step_px
    → 0 < max_offset_px
    → max_offset_px ≤ u64_max
    → end_dwell_ms ≤ u64_max
    → epoch_ms ≤ now_ms
    → now_ms - epoch_ms < u64_max
    → cycle_offset_px false epoch_ms now_ms initial_dwell_ms step_ms step_px max_offset_px
        end_dwell_ms
      ≡ moved
          ((now_ms - epoch_ms) % cycle initial_dwell_ms step_ms step_px max_offset_px end_dwell_ms)
          initial_dwell_ms
          step_ms
          step_px
          max_offset_px
unfolding cycle_offset_px
cycle_offset_px-exact epoch_ms now_ms initial_dwell_ms step_ms step_px max_offset_px end_dwell_ms
      step_ms_pos step_pos max_pos max_le end_le order small =
    let scroll_ms : ℕ = max_steps step_px max_offset_px * step_ms in
    let cycle_ms : ℕ = initial_dwell_ms + scroll_ms + end_dwell_ms in
    let cycle_pos : 0 < cycle_ms =
      omega (arith, mul-pos (max_steps-pos max_offset_px step_pos max_pos) step_ms_pos) in
    ground (
      arith,
      saturating_multiply-min (max_steps step_px max_offset_px) step_ms,
      cut_cycle initial_dwell_ms scroll_ms end_dwell_ms end_le,
      phase_of-mod cycle_ms (now_ms - epoch_ms) cycle_pos small,
      mod-le (now_ms - epoch_ms) cycle_ms,
      phase_offset-moved max_offset_px step_pos step_ms_pos ((now_ms - epoch_ms) % cycle_ms)
          initial_dwell_ms (min u64_max scroll_ms) refl max_le,
    )
