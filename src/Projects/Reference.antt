-- ===== src/Projects/Reference.antt =====
-- src/plugins/projects/services/project-reference-service.js: the counter of a region's reference
-- numbers. The row is absent before the first call; the statement is one atomic insert or update.
pub mod Order
pub mod Numbers
mod Tests
use Prim.Native.String.{String, ◌++◌ as append}
use pafs_backend_api.Prelude.{
  ℕ, ◌+◌, Option, none, some, leb, if◌then◌else◌, digits, pad_start, digits_text,
}

pub record Counter : Type 0 where
  pub high_counter : ℕ
  pub low_counter : ℕ

unfoldable pub increment_reference_counter : Option Counter → Counter
increment_reference_counter none = record { high_counter = 0; low_counter = 1 }
increment_reference_counter (some c) = record {
  high_counter = if leb 999 c.low_counter then c.high_counter + 1 else c.high_counter;
  low_counter = if leb 999 c.low_counter then 1 else c.low_counter + 1;
}

-- `String(n).padStart(3, '0') + 'A'`, before a text
unfoldable pub counter_part : ℕ → String → String
unfolding digits pad_start digits_text
counter_part n rest = digits_text (pad_start 3 (digits n)) (String.◌∷◌ "A" rest)

unfoldable pub format_counter_parts : ℕ → ℕ → String
unfolding counter_part
format_counter_parts high_counter low_counter =
    counter_part high_counter (String.◌∷◌ "/" (counter_part low_counter ""))

unfoldable pub reference_number_of : String → Counter → String
unfolding format_counter_parts
reference_number_of rfcc_code c =
    append rfcc_code
      (append "C501E" (append "/" (format_counter_parts c.high_counter c.low_counter)))

-- The reference number, and the counter of the region after it.
unfoldable pub generate_project_reference_number : String → Option Counter → String × Counter
unfolding increment_reference_counter reference_number_of
generate_project_reference_number rfcc_code before =
    let counter = increment_reference_counter before in
    (reference_number_of rfcc_code counter, counter)
