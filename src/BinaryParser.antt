-- ===== src/BinaryParser.antt =====
-- savate/binary_parser.py: fixed-size binary objects described by a table of fields. A class is a
-- `Parser`: its table, the blank object, and how `raw_data` is stored. A field's entry is its
-- struct format and its validator; the validator also does the attribute writes that come with it.
pub mod BigEndian
use savate.Prelude.{
  Bytes, List, Option, [], drop, if◌then◌else◌, is_empty, length, none, reverse, some, take, ℕ, ◌*◌,
  ◌+◌, ◌==◌, ◌^◌, ◌∷◌,
}

-- The struct formats that the tables use: "B", "I" and "<n>s", all big-endian.
pub data Format : Type 0 where
  byte : Format
  uint32 : Format
  raw : ℕ → Format

pub data Value : Type 0 where
  int : ℕ → Value
  bytes : Bytes → Value

-- What `parse` raises.
pub data ParserError : Type 0 where
  eof_error : ParserError
  parser_error : ParserError

pub data Parsed (A : Type 0) : Type 0 where
  parsed : A → Parsed A
  refused : ParserError → Parsed A

unfoldable pub format_size : Format → ℕ
format_size byte = 1
format_size uint32 = 4
format_size (raw n) = n

-- `str_to_long`, over `reversed(string)`: `character << counter * 8` is a product.
str_to_long_from : ℕ → ℕ → Bytes → ℕ
str_to_long_from counter result [] = result
str_to_long_from counter result (character ∷ string) =
    str_to_long_from (counter + 1) (result + character * 2 ^ (counter * 8)) string

unfoldable pub str_to_long : Bytes → ℕ
unfolding str_to_long_from
str_to_long string = str_to_long_from 0 0 (reverse string)

-- One field of `Struct.unpack`, from exactly its bytes.
unfoldable pub unpack_field : Format → Bytes → Value
unfolding str_to_long
unpack_field byte b = int (str_to_long b)
unpack_field uint32 b = int (str_to_long b)
unpack_field (raw n) b = bytes b

pub record Field (O : Type 0) : Type 0 where
  pub format : Format
  -- The validator on the object and the field's value; `none` is INVALID or a value that differs.
  pub validate : O → Value → Option O

pub record Parser (O : Type 0) : Type 0 where
  pub blank : O
  pub keep_raw : Bytes → O → O
  pub parse_fields : List (Field O)

module _ {O : Type 0} where
  -- `unpacker.size`
  unfoldable pub table_size : List (Field O) → ℕ
  unfolding format_size
  table_size [] = 0
  table_size (f ∷ fs) = format_size f.format + table_size fs

  unfoldable pub object_size : Parser O → ℕ
  unfolding table_size
  object_size p = table_size p.parse_fields

  -- `unpack` and `validate`, field by field in the order of the table.
  unfoldable pub validate_fields : List (Field O) → Bytes → O → Option O
  unfolding unpack_field format_size
  validate_fields [] b o = some o
  validate_fields (f ∷ fs) b o =
      elim (f.validate o (unpack_field f.format (take (format_size f.format) b))) [
        | none ↦ none
        | some o' ↦ validate_fields fs (drop (format_size f.format) b) o'
      ]

  -- `parse(data)` on a new object; what it returns, `object_size`, is known to the caller.
  unfoldable pub parse : Parser O → Bytes → Parsed O
  unfolding object_size validate_fields
  parse p d =
      let raw_data = take (object_size p) d in
      if is_empty raw_data
      then refused eof_error
      else if length raw_data == object_size p
      then (elim (validate_fields p.parse_fields raw_data (p.keep_raw raw_data p.blank)) [
        | none ↦ refused parser_error
        | some o ↦ parsed o
      ])
      else refused parser_error
