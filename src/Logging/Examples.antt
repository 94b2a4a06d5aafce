-- ===== src/Logging/Examples.antt =====
-- Tests of the logging functions, and the properties applied to a dump.
use virtual_rsp.Common.{
  ℕ, ◌<◌, ◌≡◌, refl, ◌⊎◌, List, [], ◌∷◌, none, some, ok, err, key_error, exception, str, left_in,
}
use virtual_rsp.Logging.{
  Stamp, Log, debug_level, no_args, some_args, format_message, is_caught, line_start, log_message,
  log_at, logger_log, osmo_smdpp, device_logger, at_debug, at_info, component_name, component_color,
  method_level, ascii_char, hex_dump,
}
use virtual_rsp.Logging.Dump.{IsDumped, hex_dump_lem}
use virtual_rsp.Logging.Blind.{IsAlike, hex_dump-IsAlike}

abbrev noon : Stamp
noon = record { timestamp = "12:00:00"; pid = 7 }

abbrev loud : Log
loud = record { level = 0; printed = [] }

abbrev usual : Log
usual = record { level = 1; printed = [] }

-- a debug message is dropped at the level of a program that sets none
dropped : logger_log (device_logger osmo_smdpp) at_debug noon "x" no_args usual ≡ (ok tt, usual)
unfolding logger_log log_at log_message method_level component_name component_color
dropped = refl

shown : logger_log (device_logger osmo_smdpp) at_info noon "up" no_args usual ≡ (
  ok tt,
  record usual {
    printed = "\u{1b}[2m[12:00:00] \u{1b}[32mosmo-smdpp  \u{1b}[0m INFO     [7] up\u{1b}[0m" ∷ [];
  },
)
unfolding logger_log log_at log_message method_level component_name component_color format_message
    line_start str left_in
shown = refl

-- arguments that do not fit the message are shown after it
kept : format_message "%d" (some_args (err (exception "TypeError")) "('a',)") ≡ ok "%d ('a',)"
unfolding format_message is_caught
kept = refl

escapes : format_message "%(a)s" (some_args (err (key_error "a")) "({},)") ≡ err (key_error "a")
unfolding format_message is_caught
escapes = refl

abbrev two_bytes : List ℕ
two_bytes = 0 ∷ 65 ∷ []

abbrev other_bytes : List ℕ
other_bytes = 255 ∷ 65 ∷ []

alike : IsAlike two_bytes other_bytes
unfolding ascii_char
alike = refl

hex_dump-IsAlike_example :
    hex_dump noon "" "nginx" "key" two_bytes none loud
    ≡ hex_dump noon "" "nginx" "key" other_bytes none loud
hex_dump-IsAlike_example =
    hex_dump-IsAlike noon "" "nginx" "key" two_bytes other_bytes none loud alike

hex_dump_lem_example :
    ((debug_level < loud.level) × (hex_dump noon "" "nginx" "key" two_bytes (some 1) loud ≡ loud))
    ⊎ IsDumped noon "" "nginx" "key" two_bytes
        (some 1)
        loud
        (hex_dump noon "" "nginx" "key" two_bytes (some 1) loud)
hex_dump_lem_example = hex_dump_lem noon "" "nginx" "key" two_bytes (some 1) loud
