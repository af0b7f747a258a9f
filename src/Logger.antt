-- ===== src/Logger.antt =====
-- `Logger` (include/common/Logger.hpp): a temporary object collects the text of one statement, and
-- writes it as a line when it is destroyed. The mutex makes that one step. `LogOutput` stands for the
-- standard output and for the static stream of the log file; of a file it keeps the lines that this
-- process has written. How the C++ library writes a date and a number is a parameter.
pub mod Mirror
use Prim.Native.String.{◌++◌ as str_append}
use gip.Prelude.{
  ℕ, String, ◌/◌, ◌%◌, Bool, Option, none, some, List, [], ◌∷◌, ◌++◌, ltb, string_eq, if◌then◌else◌,
}
use gip.Prelude.Dict.{Dict, insert, get_or}

pub data LogLevel : Type 0 where
  debug : LogLevel
  info : LogLevel
  warning : LogLevel
  error : LogLevel
  critical : LogLevel

unfoldable pub convert_log_level_to_string : LogLevel → String
convert_log_level_to_string debug = "DEBUG"
convert_log_level_to_string info = "INFO"
convert_log_level_to_string warning = "WARNING"
convert_log_level_to_string error = "ERROR"
convert_log_level_to_string critical = "CRITICAL"

-- `std::put_time` of `localtime_r` for a count of seconds, `operator<<` for a number, and what
-- `fprintf` prints of the `c_str()` of a string for `%s`: the string up to its first NUL.
pub record Formats : Type 0 where
  pub put_time : ℕ → String
  pub decimal : ℕ → String
  pub printed : String → String

-- `std::setfill('0') << std::setw(3)`
unfoldable pub three_digits : Formats → ℕ → String
three_digits formats n =
    if ltb n 10
    then str_append "00" (formats.decimal n)
    else if ltb n 100
    then str_append "0" (formats.decimal n)
    else formats.decimal n

-- `now` is the count of milliseconds since the epoch.
unfoldable pub current_timestamp : Formats → ℕ → String
current_timestamp formats now =
    str_append (formats.put_time (now / 1000)) (str_append "." (three_digits formats (now % 1000)))

pub record Logger : Type 0 where
  pub log_level : LogLevel
  pub stream : String

unfoldable pub new_logger : LogLevel → Logger
new_logger level = record { log_level = level; stream = "" }

-- `operator<<`, of a value by its text.
unfoldable pub put : String → Logger → Logger
put value logger = record logger { stream = str_append logger.stream value }

pub record LogOutput : Type 0 where
  pub out : List String
  pub log_file : Option String
  pub files : Dict String (List String)

-- Before `main`.
abbrev pub no_output : LogOutput
no_output = record { out = []; log_file = none; files = [] }

-- `can_open` says whether the file can be opened.
unfoldable pub set_log_file : (String → Bool) → String → LogOutput → LogOutput
set_log_file can_open file_path o = record o {
  log_file = if can_open file_path then some file_path else none;
}

unfoldable pub line_of : Formats → ℕ → Logger → String
line_of formats now logger = str_append (current_timestamp formats now) (
    str_append " ["
      (str_append (convert_log_level_to_string logger.log_level) (str_append "] " logger.stream)))

unfoldable pub flush : Formats → ℕ → Logger → LogOutput → LogOutput
flush formats now logger o =
    let line = line_of formats now logger in
    let printed = record o { out = o.out ++ formats.printed line ∷ [] } in
    elim o.log_file [
      | none ↦ printed
      | some path ↦ record printed {
        files = insert path (get_or path [] o.files ++ line ∷ []) o.files;
      }
    ]

unfoldable pub put_all : List String → Logger → Logger
put_all [] logger = logger
put_all (value ∷ values) logger = put_all values (put value logger)

-- A statement such as `TRC_INFO << a << b;`, to the destructor of its temporary.
unfoldable pub log_statement : Formats → ℕ → LogLevel → List String → LogOutput → LogOutput
log_statement formats now level values o = flush formats now (put_all values (new_logger level)) o
