-- ===== src/Projects/Mapper/Conversions.antt =====
-- src/plugins/projects/helpers/conversions.js: each conversion of a value to the database and to
-- the API. Besides the values of a payload there are the BigInt and Decimal values of the database;
-- a Decimal stands for the text that its `toFixed` gives, which `Number` keeps where it has at most
-- fifteen digits.
use pafs_backend_api.Prelude.{
  String, [], Option, none, some, map, if◌then◌else◌, is_empty_text, trim, split_commas,
  join_commas, ℤ,
}
use pafs_backend_api.Projects.Value.{
  Value, undefined, null, number, text, texts, number_of_text, integer_text, to_number,
}

pub data Cell : Type 0 where
  plain : Value → Cell
  bigint : ℤ → Cell
  decimal_value : String → Cell

unfoldable pub array_to_database : Cell → Cell
unfolding join_commas
array_to_database (plain (texts ts)) = plain (text (join_commas ts))
array_to_database c = c

unfoldable pub array_to_api : Cell → Cell
unfolding split_commas trim
array_to_api (plain undefined) = plain (texts [])
array_to_api (plain null) = plain (texts [])
array_to_api (plain (text s)) =
    if is_empty_text s then plain (texts []) else plain (texts (map trim (split_commas s)))
array_to_api c = c

abbrev pub number_or_text : String → Option ℤ → Value
number_or_text s none = text s
number_or_text s (some n) = number n

unfoldable pub parse_string_to_number : String → Value
unfolding number_of_text
parse_string_to_number s = if is_empty_text s then null else number_or_text s (number_of_text s)

unfoldable pub number_to_database : Cell → Cell
unfolding parse_string_to_number
number_to_database (plain (text s)) = plain (parse_string_to_number s)
number_to_database c = c

unfoldable pub number_to_api : Cell → Cell
unfolding parse_string_to_number
number_to_api (bigint n) = plain (number n)
number_to_api (plain (text s)) = plain (parse_string_to_number s)
number_to_api c = c

-- `BigInt(text)`, or the text where it throws
abbrev pub bigint_or_text : String → Option ℤ → Cell
bigint_or_text s none = plain (text s)
bigint_or_text s (some n) = bigint n

unfoldable pub bigint_to_database : Cell → Cell
unfolding number_of_text
bigint_to_database (plain (number n)) = bigint n
bigint_to_database (plain (text s)) =
    if is_empty_text s then plain null else bigint_or_text s (number_of_text s)
bigint_to_database c = c

unfoldable pub bigint_to_api : Cell → Cell
bigint_to_api (bigint n) = plain (text (integer_text n))
bigint_to_api (plain (number n)) = plain (text (integer_text n))
bigint_to_api c = c

-- `Number(value).toString()`
abbrev pub number_text : Option ℤ → Value
number_text none = text "NaN"
number_text (some n) = text (integer_text n)

unfoldable pub decimal_to_database : Cell → Cell
unfolding to_number number_of_text
decimal_to_database (plain undefined) = plain undefined
decimal_to_database (plain null) = plain null
decimal_to_database (plain (text s)) = plain (if is_empty_text s then null else text s)
decimal_to_database (plain v) = plain (number_text (to_number v))
decimal_to_database (bigint n) = plain (text (integer_text n))
decimal_to_database (decimal_value s) = plain (text s)

unfoldable pub decimal_to_api : Cell → Cell
decimal_to_api (plain (number n)) = plain (text (integer_text n))
decimal_to_api (decimal_value s) = plain (text s)
decimal_to_api c = c
