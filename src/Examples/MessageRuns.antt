-- ===== src/Examples/MessageRuns.antt =====
-- Errors, results of scripts and signed requests.
use music_video_generator.Prelude.{
  true, some, [], ◌∷◌, ◌++◌, ◌≡◌, ◌≢◌, refl, arith, Text, codes, trim, lower, text_eq, starts_with,
}
use music_video_generator.Json.{Json, obj, str, bool, Fields, field, end, get, as_bool, payload}
use music_video_generator.Resilience.Script.{
  unknown, failed, assess_script_result, validate_script_result_contract,
}
use music_video_generator.Resilience.Script.Contract.{assess_script_result_sound}
use music_video_generator.Resilience.Webhook.{
  Request, Crypto, ReplayStore, verified, has, set, prune_expired, timestamp_of, is_digest, drop,
  check_signature, signature_hex, replay_key, check_replay, after_signature, with_timestamp,
  verify_signed_webhook,
}
use music_video_generator.Resilience.Webhook.Replays.{
  IsGenuine, again, verify_signed_webhook-IsGenuine, verify_signed_webhook-once,
  verify_signed_webhook-again,
}

abbrev done : Json
done =
    obj (field (codes "status") (str (codes "success")) (field (codes "success") (bool true) end))

script_example :
    ((assess_script_result done).normalized_status ≢ unknown)
    × ((assess_script_result done).normalized_status ≢ failed
        → (validate_script_result_contract done ≡ [])
          × ((fs : Fields) × (payload done ≡ some fs)
              × (as_bool (get (codes "success") fs) ≡ some true)))
script_example = assess_script_result_sound done

-- A digest of 64 zeros for every text, and a sender whose clock is 200 seconds ahead.
abbrev zeros : Text
zeros = codes "0000000000000000000000000000000000000000000000000000000000000000"

abbrev plain : Crypto
plain = record {
  number = λ t. some (record { numerator = 1200; denominator = 1 });
  digest = λ secret t. zeros;
}

abbrev alert : Request
alert = record {
  raw_body = codes "{}";
  timestamp_header = codes "1200";
  signature_header = codes "sha256=" ++ zeros;
  now_ms = 1000000;
  max_skew_sec = 300;
}

abbrev secret : Text
secret = codes "s"

abbrev memory_of_alert : ReplayStore
memory_of_alert = record { key = codes "1200." ++ zeros; expires_at_ms = 1300000 } ∷ []

alert_run : verify_signed_webhook plain secret alert [] ≡ (verified 1200 zeros, memory_of_alert)
unfolding verify_signed_webhook with_timestamp after_signature check_replay check_signature
    timestamp_of has set prune_expired is_digest drop signature_hex replay_key trim lower text_eq
    starts_with
alert_run = refl

passed_example : IsGenuine plain secret alert [] 1200
passed_example =
    verify_signed_webhook-IsGenuine plain secret alert [] memory_of_alert 1200 zeros alert_run

once_example :
    verify_signed_webhook plain secret (again alert 1200000) memory_of_alert
    ≢ (verified 1200 zeros, [])
once_example =
    verify_signed_webhook-once plain secret alert [] memory_of_alert [] 1200 1200 1200000 zeros
      zeros alert_run (omega arith)

again_example :
    (verify_signed_webhook plain secret (again alert 1400000) memory_of_alert).0
    ≡ verified 1200 zeros
again_example =
    verify_signed_webhook-again plain secret alert [] memory_of_alert 1200 1400000 zeros alert_run
      (omega arith) (omega arith)
