-- ===== src/Projects/Reference/Tests.antt =====
-- The reference counter at concrete calls.
use pafs_backend_api.Prelude.{ℕ, String, ◌≡◌, refl, some, digits, digits_up, pad_start, digits_text}
use pafs_backend_api.Projects.Reference.{
  Counter, increment_reference_counter, reference_number_of, format_counter_parts, counter_part,
}
use pafs_backend_api.Projects.Reference.Numbers.{reference_numbers_distinct}
use pafs_backend_api.Projects.Reference.Order.{nth_counter, IsInRange, counters_distinct}

rolls_over :
    increment_reference_counter (some (record { high_counter = 4; low_counter = 999 }))
    ≡ record { high_counter = 5; low_counter = 1 }
unfolding increment_reference_counter
rolls_over = refl

counters_differ : (◌≡◌ {A = ℕ} 2 2) × IsInRange (nth_counter 2)
counters_differ = counters_distinct 2 2 refl

abbrev third : Counter
third = nth_counter 2

text_of_a_number : reference_number_of "AN" third ≡ "ANC501E/000A/003A"
unfolding reference_number_of format_counter_parts counter_part increment_reference_counter digits
    digits_up pad_start digits_text
text_of_a_number = refl

reference_numbers_distinct_example : (◌≡◌ {A = String} "AN" "AN") × (◌≡◌ {A = ℕ} 2 2)
reference_numbers_distinct_example = reference_numbers_distinct "AN" "AN" 2 2 refl refl
