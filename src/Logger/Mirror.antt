-- ===== src/Logger/Mirror.antt =====
-- The log file against the standard output.
use mathlib.Core.List.Sublistᴰ
use mathlib.Core.List.{Sublistᴰ, append-nil}
use gip.Prelude.{
  ℕ, String, inl, inr, Bool, Bool-cases, Option-cases, List, [], ◌∷◌, map, ap, ◌≡◌, refl, ◌++◌,
  string_eq, ◌==◌, eq_of_beq, subst,
}
use gip.Prelude.Dict.{get_or, get_or-insert, insert, lookup}
use gip.Logger.{
  Formats, LogLevel, LogOutput, no_output, Logger, new_logger, put_all, line_of, flush,
  log_statement, set_log_file,
}

-- The outputs that a process can produce.
pub data Logs (formats : Formats) (can_open : String → Bool) : LogOutput → Type 0 where
  starts : Logs formats can_open no_output
  logs :
      (now : ℕ) (level : LogLevel) (values : List String) (o : LogOutput)
      → Logs formats can_open o
      → Logs formats can_open (log_statement formats now level values o)
  sets :
      (file_path : String) (o : LogOutput)
      → Logs formats can_open o
      → Logs formats can_open (set_log_file can_open file_path o)

-- The lines of each file, as `fprintf` prints them, are among those of the standard output, in the
-- same order.
abbrev pub IsMirrored : Formats → LogOutput → Type 0
IsMirrored formats o =
    (path : String) → Sublistᴰ (map formats.printed (get_or path [] o.files)) o.out

module _ (formats : Formats) where
  map-append_one :
      (lines : List String) (line : String)
      → map formats.printed (lines ++ line ∷ [])
        ≡ map formats.printed lines ++ formats.printed line ∷ []
  map-append_one [] line = refl
  map-append_one (x ∷ lines) line = ap (λ l. formats.printed x ∷ l) (map-append_one lines line)

  flush-IsMirrored :
      (now : ℕ) (logger : Logger) (o : LogOutput)
      → IsMirrored formats o
      → IsMirrored formats (flush formats now logger o)
  unfolding flush
  flush-IsMirrored now logger o h path = elim (Option-cases o.log_file) [
    | inl e ↦ rw (e, flush) printed
    | inr (current, e) ↦ rw (e, flush) (written current)
  ]
    where
      line : String
      line = line_of formats now logger

      out : List String
      out = o.out ++ formats.printed line ∷ []

      printed : Sublistᴰ (map formats.printed (get_or path [] o.files)) out
      printed =
          subst (λ xs. Sublistᴰ xs out) (append-nil (map formats.printed (get_or path [] o.files)))
            (Sublistᴰ.append (h path) (Sublistᴰ.nil-sublist (formats.printed line ∷ [])))

      added : Sublistᴰ (map formats.printed (get_or path [] o.files ++ line ∷ [])) out
      added =
          rw (map-append_one (get_or path [] o.files) line)
            (Sublistᴰ.append (h path) (Sublistᴰ.refl (formats.printed line ∷ [])))

      written :
          (current : String)
          → Sublistᴰ
              (map formats.printed
                (get_or path [] (insert current (get_or current [] o.files ++ line ∷ []) o.files)))
              out
      written current =
          rw (get_or-insert current path [] (get_or current [] o.files ++ line ∷ []) o.files)
            (elim (Bool-cases (current == path)) [
              | inl same ↦ rw (same, eq_of_beq current path same) added
              | inr other ↦ rw other printed
            ])

  -- Whatever is logged, and whichever files are set in between, the lines that a process has
  -- written into a file are, each as `fprintf` prints it, lines that it has written to the standard
  -- output, in the same order.
  pub Logs-IsMirrored :
      (can_open : String → Bool) (o : LogOutput) → Logs formats can_open o → IsMirrored formats o
  unfolding log_statement set_log_file get_or lookup
  Logs-IsMirrored can_open o starts path = Sublistᴰ.nil-sublist []
  Logs-IsMirrored can_open _ (logs now level values o r) path =
      flush-IsMirrored now (put_all values (new_logger level)) o (Logs-IsMirrored can_open o r) path
  Logs-IsMirrored can_open _ (sets file_path o r) path = Logs-IsMirrored can_open o r path
