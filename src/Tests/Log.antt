-- ===== src/Tests/Log.antt =====
-- A line before a log file is set, and one after.
use gip.Prelude.{true, [], ◌∷◌}
use gip.Logger.{Formats, LogOutput, no_output, info, warning, log_statement, set_log_file}
use gip.Logger.Mirror.{starts, logs, sets, IsMirrored, Logs-IsMirrored}

abbrev formats : Formats
formats = record {
  put_time = λ seconds. "2025-01-01 00:00:00";
  decimal = λ n. "7";
  printed = λ line. line;
}

abbrev first : LogOutput
first = log_statement formats 7 info ("model " ∷ "resnet" ∷ []) no_output

abbrev with_file : LogOutput
with_file = set_log_file (λ path. true) "gip.log" first

abbrev second : LogOutput
second = log_statement formats 9 warning ("unloaded" ∷ []) with_file

Logs-IsMirrored_example : IsMirrored formats second
Logs-IsMirrored_example =
    Logs-IsMirrored formats (λ path. true) second
      (logs 9 warning ("unloaded" ∷ []) with_file
        (sets "gip.log" first (logs 7 info ("model " ∷ "resnet" ∷ []) no_output starts)))
