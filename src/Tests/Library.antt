-- ===== src/Tests/Library.antt =====
-- A small JSON library for the examples: values as trees, and a parser that is given.
use gip.Prelude.{
  ℕ, String, refl, Bool, true, false, Option, none, some, List, ◌==◌, string_eq, if◌then◌else◌,
}
use gip.Prelude.Int.{ℤ}
use gip.Models.{TensorShape, Float32}
use gip.Json.{JsonLibrary, Read, got, exception, IsLawful}

mutual
  pub data Value : Type 0 where
    string : String → Value
    strings : List String → Value
    shapes : List TensorShape → Value
    floats : List Float32 → Value
    boolean : Bool → Value
    size : ℕ → Value
    integer : ℤ → Value
    object : Members → Value

  -- The latest write of a key is the first member with it.
  pub data Members : Type 0 where
    no_members : Members
    entry : String → Value → Members → Members

abbrev pub find : String → Members → Read Value
find key no_members = exception "out_of_range"
find key (entry k value rest) = if k == key then got value else find key rest

abbrev pub has : String → Members → Bool
has key no_members = false
has key (entry k value rest) = if k == key then true else has key rest

abbrev members_at : String → Value → Read Value
members_at key (object o) = find key o
members_at key _ = exception "type_error"

abbrev members_contain : String → Value → Bool
members_contain key (object o) = has key o
members_contain key _ = false

abbrev is_text : Value → Bool
is_text (string s) = true
is_text _ = false

abbrev read_string : Value → Read String
read_string (string x) = got x
read_string _ = exception "type_error"

abbrev read_strings : Value → Read (List String)
read_strings (strings x) = got x
read_strings _ = exception "type_error"

abbrev read_shapes : Value → Read (List TensorShape)
read_shapes (shapes x) = got x
read_shapes _ = exception "type_error"

abbrev read_floats : Value → Read (List Float32)
read_floats (floats x) = got x
read_floats _ = exception "type_error"

abbrev read_boolean : Value → Read Bool
read_boolean (boolean x) = got x
read_boolean _ = exception "type_error"

abbrev read_size : Value → Read ℕ
read_size (size x) = got x
read_size _ = exception "type_error"

abbrev read_integer : Value → Read ℤ
read_integer (integer x) = got x
read_integer _ = exception "type_error"

-- `parser` returns the value of a text, if it is well formed.
abbrev pub library : (String → Option Value) → JsonLibrary Value Members
library parser = record {
  empty = no_members;
  set = entry;
  of_object = object;
  at = members_at;
  contains = members_contain;
  is_string = is_text;
  of_string = string;
  get_string = read_string;
  of_strings = strings;
  get_strings = read_strings;
  of_shapes = shapes;
  get_shapes = read_shapes;
  of_floats = floats;
  get_floats = read_floats;
  of_bool = boolean;
  get_bool = read_boolean;
  of_size = size;
  get_size = read_size;
  of_int = integer;
  get_int = read_integer;
  dump = λ value. got "json";
  parse = λ text. elim (parser text) [ some value ↦ got value | none ↦ exception "parse_error" ];
  parse_or_discard = parser;
  read_stream =
      λ text. elim (parser text) [ some value ↦ got value | none ↦ exception "parse_error" ];
}

pub library-IsLawful : (parser : String → Option Value) → IsLawful (library parser)
library-IsLawful parser = record {
  at-set = λ key other value o. refl;
  contains-set = λ key other value o. refl;
  contains-empty = λ key. refl;
  is_string-of_string = λ s. refl;
  get_string-of_string = λ s. refl;
  get_strings-of_strings = λ l. refl;
  get_shapes-of_shapes = λ l. refl;
  get_floats-of_floats = λ l. refl;
  get_bool-of_bool = λ b. refl;
  get_size-of_size = λ n. refl;
  get_int-of_int = λ n. refl;
}
