-- ===== src/Json.antt =====
-- What the platform calls of nlohmann::json, which is a library of its own. `J` is `nlohmann::json`
-- and `O` its `object_t`, the members of an object. A `get` throws where the value has another type,
-- and `at` where there is no such member.
use gip.Prelude.{
  ℕ, String, ◌≡◌, ◌==◌, string_eq, Bool, true, false, Option, none, some, List, if◌then◌else◌,
}
use gip.Prelude.Int.{ℤ}
use gip.Models.{TensorShape, Float32}

-- A call that returns, or throws a `std::exception` with a text.
pub data Read {ℓ} (A : Type ℓ) : Type ℓ where
  got : A → Read A
  exception : String → Read A

infixl 5 ◌>>=◌
abbrev pub ◌>>=◌ {ℓ κ} : {A : Type ℓ} {B : Type κ} → Read A → (A → Read B) → Read B
got a >>= f = f a
exception e >>= f = exception e

-- What holds of the value of a call, where it returns one.
abbrev pub Gives {ℓ κ} : {A : Type ℓ} → (A → Type κ) → Read A → Type κ
Gives P (got a) = P a
Gives P (exception e) = Unit

pub Gives-bind {ℓ ι κ} :
    {A : Type ℓ} {B : Type ι} (P : B → Type κ) (r : Read A) (f : A → Read B)
    → ((a : A) → Gives P (f a))
    → Gives P (r >>= f)
Gives-bind P (got a) f h = h a
Gives-bind P (exception e) f h = tt

pub record JsonLibrary (J O : Type 0) : Type 0 where
  pub empty : O  -- `json::object()`
  pub set : String → J → O → O  -- `j[key] = value`
  pub of_object : O → J
  pub at : String → J → Read J
  pub contains : String → J → Bool
  pub is_string : J → Bool
  pub of_string : String → J
  pub get_string : J → Read String
  pub of_strings : List String → J
  pub get_strings : J → Read (List String)
  pub of_shapes : List TensorShape → J
  pub get_shapes : J → Read (List TensorShape)
  pub of_floats : List Float32 → J
  pub get_floats : J → Read (List Float32)
  pub of_bool : Bool → J
  pub get_bool : J → Read Bool
  pub of_size : ℕ → J
  pub get_size : J → Read ℕ
  pub of_int : ℤ → J
  pub get_int : J → Read ℤ
  pub dump : J → Read String  -- throws on a text that is not UTF-8
  pub parse : String → Read J
  pub parse_or_discard : String → Option J  -- `parse(text, nullptr, false)`; `none` is discarded
  pub read_stream : String → Read J  -- `file >> json_data`, on the text of the file

module _ {J O : Type 0} (json : JsonLibrary J O) where
  -- `j.at(key).get<A>()`
  abbrev pub member {ℓ} : {A : Type ℓ} → (J → Read A) → String → J → Read A
  member get key j = do value ← json.at key j; get value

  -- `j.value(key, otherwise)`, on a `j` that is an object.
  abbrev pub value_or {ℓ} : {A : Type ℓ} → (J → Read A) → String → A → J → Read A
  value_or get key otherwise j = if json.contains key j then member get key j else got otherwise

  -- `j.contains(key) ? std::make_optional(j.at(key).get<A>()) : std::nullopt`
  abbrev pub optional_member {ℓ} : {A : Type ℓ} → (J → Read A) → String → J → Read (Option A)
  optional_member get key j =
      if json.contains key j then (do value ← member get key j; got (some value)) else got none

  -- The documented behaviour: a member that is written is there and reads back, others are as they
  -- were, an empty object has none, and a value reads back at the type that it was written at.
  pub record IsLawful : Type 0 where
    pub at-set :
        (key other : String) (value : J) (o : O)
        → json.at other (json.of_object (json.set key value o))
          ≡ (if key == other then got value else json.at other (json.of_object o))
    pub contains-set :
        (key other : String) (value : J) (o : O)
        → json.contains other (json.of_object (json.set key value o))
          ≡ (if key == other then true else json.contains other (json.of_object o))
    pub contains-empty : (key : String) → json.contains key (json.of_object json.empty) ≡ false
    pub is_string-of_string : (s : String) → json.is_string (json.of_string s) ≡ true
    pub get_string-of_string : (s : String) → json.get_string (json.of_string s) ≡ got s
    pub get_strings-of_strings : (l : List String) → json.get_strings (json.of_strings l) ≡ got l
    pub get_shapes-of_shapes : (l : List TensorShape) → json.get_shapes (json.of_shapes l) ≡ got l
    pub get_floats-of_floats : (l : List Float32) → json.get_floats (json.of_floats l) ≡ got l
    pub get_bool-of_bool : (b : Bool) → json.get_bool (json.of_bool b) ≡ got b
    pub get_size-of_size : (n : ℕ) → json.get_size (json.of_size n) ≡ got n
    pub get_int-of_int : (n : ℤ) → json.get_int (json.of_int n) ≡ got n
