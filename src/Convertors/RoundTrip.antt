-- ===== src/Convertors/RoundTrip.antt =====
-- A configuration that is written as JSON, and read back.
use gip.Prelude.{◌≡◌, string_eq}
use gip.Models.{ModelConf, default_conf}
use gip.Json.{JsonLibrary, got, IsLawful}
use gip.Convertors.{conf_from_json, conf_to_json}

-- The members that `from_json` and `to_json` know, beside the defaults of the others.
abbrev pub kept_in_json : ModelConf → ModelConf
kept_in_json conf = record conf {
  batch_timeout_ms = default_conf.batch_timeout_ms;
  schedule_strategy = default_conf.schedule_strategy;
  max_inflight_requests = default_conf.max_inflight_requests;
  max_queue_size = default_conf.max_queue_size;
  max_queue_delay_ms = default_conf.max_queue_delay_ms;
  allow_request_cancellation = default_conf.allow_request_cancellation;
  drop_if_queue_full = default_conf.drop_if_queue_full;
}

module _ {J O : Type 0} (json : JsonLibrary J O) where
  -- A configuration that `to_json` writes and `from_json` reads comes back with the 13 members that
  -- the two know, and the defaults of the other seven, whatever those were: the timeout and the
  -- strategy of batching, the limits of the queue, and the permission to cancel.
  pub conf_from_json-to_json :
      IsLawful json
      → (conf : ModelConf)
      → conf_from_json json (json.of_object (conf_to_json json conf)) ≡ got (kept_in_json conf)
  unfolding conf_from_json conf_to_json
  conf_from_json-to_json law conf = simp (
    law.at-set, law.contains-set, law.get_string-of_string, law.get_strings-of_strings,
    law.get_shapes-of_shapes, law.get_bool-of_bool, law.get_size-of_size, law.get_int-of_int,
  )
