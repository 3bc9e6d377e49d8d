-- ===== src/LabelScroll/Tests.antt =====
-- A label that overlaps by 100 pixels: two at a time each 40 ms, with one second before and after.
use m5authenticator.Prelude.{◌≡◌, refl, true, false, ◌-◌, ◌%◌, arith}
use m5authenticator.LabelScroll.{
  cycle_offset_px, phase_offset, phase_of, saturating_add, saturating_multiply, LabelScroll,
  on_screen_hidden_changed, update_offset,
}
use m5authenticator.LabelScroll.Exact.{cycle, moved, cycle_offset_px-exact}

moves : cycle_offset_px false 500 1_900 1_000 40 2 100 1_000 ≡ 20
unfolding cycle_offset_px phase_offset phase_of saturating_add saturating_multiply
moves = refl

-- In the second cycle, of a label that overlaps by an odd number of pixels.
cycle_offset_px-exact_example :
    cycle_offset_px false 500 5_580 1_000 40 2 5 1_000
    ≡ moved ((5_580 - 500) % cycle 1_000 40 2 5 1_000) 1_000 40 2 5
cycle_offset_px-exact_example =
    cycle_offset_px-exact 500 5_580 1_000 40 2 5 1_000 (omega arith) (omega arith) (omega arith)
      (omega arith) (omega arith) (omega arith) (omega arith)

scrolled : LabelScroll
scrolled = record { epoch_ms = 500; offset_px = 20 }

waking :
    on_screen_hidden_changed true false 2_000 scrolled
    ≡ (record { epoch_ms = 2_000; offset_px = 0 }, true)
unfolding on_screen_hidden_changed scrolled
waking = refl

hidden : update_offset true 22 scrolled ≡ (scrolled, false)
unfolding update_offset scrolled
hidden = refl
