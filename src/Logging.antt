-- ===== src/Logging.antt =====
-- vrsp_logging.py: the messages that every Python program of the test bed writes to its error
-- stream, one coloured line each, and the dump of bytes.
pub mod Dump
pub mod Blind
mod Examples
use Prim.Native.String.{◌++◌ as concat}
use virtual_rsp.Common.{
  ℕ, zero, suc, ◌+◌, ◌-◌, ◌/◌, String, Bool, true, false, not, ◌&&◌, ◌||◌, ◌==◌, Option, none, some,
  List, [], ◌∷◌, ◌++◌, Result, ok, err, Error, value_error, exception, ltb, leb, nat_beq, length,
  take, drop, take_chars, drop_chars, str, left_in, if◌then◌else◌,
}
use virtual_rsp.Common.Exec.{Exec, pure, lift, modify, ◌>>=◌, ◌>>◌}

-- `LogColors`: each colour is an escape sequence
abbrev escape : String → String
escape code = concat "\u{1b}[" (concat code "m")

abbrev pub reset : String
reset = escape "0"

abbrev pub dim : String
dim = escape "2"

abbrev pub bold : String
bold = escape "1"

-- `LogLevel`
abbrev pub debug_level : ℕ
debug_level = 0

abbrev pub info_level : ℕ
info_level = 1

abbrev pub warn_level : ℕ
warn_level = 2

abbrev pub error_level : ℕ
error_level = 3

abbrev pub critical_level : ℕ
critical_level = 4

-- The level that is kept for the whole process, and the lines of its error stream.
pub record Log : Type 0 where
  pub level : ℕ
  pub printed : List String

-- The time as a text and the number of the process, which a line shows.
pub record Stamp : Type 0 where
  pub timestamp : String
  pub pid : ℕ

-- The arguments of a message: none, or what `message % args` gives and what `str(args)` is.
pub data Args : Type 0 where
  no_args : Args
  some_args : Result String → String → Args

unfoldable pub set_log_level : ℕ → Log → Log
set_log_level level s = record s { level = level }

-- `print(…, file=sys.stderr)`
abbrev pub print : String → Log → Log
print line s = record s { printed = s.printed ++ line ∷ [] }

-- The errors that `_log_message` catches.
unfoldable pub is_caught : Error → Bool
is_caught (value_error text) = true
is_caught (exception name) = name == "TypeError"
is_caught _ = false

unfoldable pub format_message : String → Args → Result String
unfolding is_caught
format_message message no_args = ok message
format_message message (some_args (ok text) shown) = ok text
format_message message (some_args (err e) shown) =
    if is_caught e then ok (concat message (concat " " shown)) else err e

-- What a line starts with, up to the number of the process.
unfoldable pub line_start : Stamp → String → String → String → String
line_start t component color level_text = concat dim (
    concat "[" (
      concat t.timestamp (
        concat "] " (
          concat color (
            concat (left_in 12 component) (
              concat reset (
                concat " "
                  (concat (left_in 8 level_text) (concat " [" (concat (str t.pid) "] "))))))))))

-- `_log_message`
unfoldable pub log_message :
    Stamp → ℕ → String → String → String → String → Args → Exec Log (Unit {0})
unfolding format_message line_start
log_message t level component color level_text message args s =
    if ltb level s.level
    then (ok tt, s)
    else (do
      text ← lift (format_message message args)
      modify (print (concat (line_start t component color level_text) (concat text reset))))
        s

-- The functions `debug`, `info`, `warn`, `error` and `critical`.
pub data Level : Type 0 where
  debug info warn error critical : Level

unfoldable pub log_at : Level → Stamp → String → String → String → Args → Exec Log (Unit {0})
unfolding log_message
log_at debug t component color = log_message t debug_level component color "DEBUG"
log_at info t component color = log_message t info_level component color "INFO"
log_at warn t component color = log_message t warn_level component color "WARN"
log_at error t component color = log_message t error_level component color "ERROR"
log_at critical t component color = log_message t critical_level component color "CRITICAL"

-- `chr` of a printable ASCII character, and `.` for another byte
unfoldable pub ascii_char : ℕ → String
ascii_char b =
    if leb 32 b && leb b 126
    then take_chars 1 (
        drop_chars (b - 32)
          " !\"#$%&'()*+,-./0123456789:;<=>?@ABCDEFGHIJKLMNOPQRSTUVWXYZ[\\]^_`abcdefghijklmnopqrstuvwxyz{|}~")
    else "."

unfoldable pub ascii_part : List ℕ → String
unfolding ascii_char
ascii_part [] = ""
ascii_part (b ∷ bs) = concat (ascii_char b) (ascii_part bs)

-- `' '.join('.2x' for b in chunk)`
unfoldable pub hex_part : List ℕ → String
hex_part [] = ""
hex_part (b ∷ []) = ".2x"
hex_part (b ∷ c ∷ bs) = concat ".2x " (hex_part (c ∷ bs))

-- A line of the dump after its start.
unfoldable pub dump_line : Stamp → String → String → String → String
unfolding line_start
dump_line t component color text = concat (line_start t component color "DEBUG") (concat text reset)

unfoldable pub row_text : List ℕ → String
unfolding hex_part ascii_part
row_text chunk = concat "  " (concat (left_in 48 (hex_part chunk)) (concat " " (ascii_part chunk)))

-- `for i in range(0, len(display_data), 16)`, with the rounds that are left
unfoldable pub print_rows : Stamp → String → String → ℕ → ℕ → List ℕ → Log → Log
unfolding dump_line row_text
print_rows t component color zero i data_shown s = s
print_rows t component color (suc n) i data_shown s =
    print_rows t component color n (i + 16) data_shown
      (print (dump_line t component color (row_text (take 16 (drop i data_shown)))) s)

-- `max_len and len(data) > max_len`, for a limit that is not negative
unfoldable pub is_cut : Option ℕ → List ℕ → Bool
is_cut none m = false
is_cut (some max_len) m = not (nat_beq max_len 0) && ltb max_len (length m)

unfoldable pub shown_part : Option ℕ → List ℕ → List ℕ
unfolding is_cut
shown_part none m = m
shown_part (some max_len) m = if is_cut (some max_len) m then take max_len m else m

unfoldable pub print_suffix : Stamp → String → String → Option ℕ → List ℕ → Log → Log
unfolding is_cut dump_line
print_suffix t component color limit m s =
    if is_cut limit m
    then print
        (dump_line t component color
          (concat "  " (concat " ... (" (concat (str (length m)) " total)"))))
        s
    else s

-- `hex_dump`
unfoldable pub hex_dump : Stamp → String → String → String → List ℕ → Option ℕ → Log → Log
unfolding shown_part dump_line print_rows print_suffix
hex_dump t component color prefix m limit s =
    if ltb debug_level s.level
    then s
    else print_suffix t component color limit m (
        print_rows t component color ((length (shown_part limit m) + 15) / 16) 0
          (shown_part limit m)
          (print
            (dump_line t component color
              (concat prefix (concat " (" (concat (str (length m)) " bytes):"))))
            s))

-- The classes of static methods: one for each device, which can dump bytes, and `TestLogger`.
pub data Device : Type 0 where
  v_euicc osmo_smdpp lpac : Device

pub data Logger : Type 0 where
  device_logger : Device → Logger
  test_logger : Logger

-- The methods that they all have.
pub data LoggerMethod : Type 0 where
  at_debug at_info at_warn at_error : LoggerMethod

-- `LogComponents`, and the colours of the components in `LogColors`
unfoldable pub component_name : Logger → String
component_name (device_logger v_euicc) = "v-euicc"
component_name (device_logger osmo_smdpp) = "osmo-smdpp"
component_name (device_logger lpac) = "lpac"
component_name test_logger = "test"

unfoldable pub component_color : Logger → String
component_color (device_logger v_euicc) = escape "36"
component_color (device_logger osmo_smdpp) = escape "32"
component_color (device_logger lpac) = escape "33"
component_color test_logger = escape "34"

unfoldable pub method_level : LoggerMethod → Level
method_level at_debug = debug
method_level at_info = info
method_level at_warn = warn
method_level at_error = error

unfoldable pub logger_log : Logger → LoggerMethod → Stamp → String → Args → Exec Log (Unit {0})
unfolding log_at component_name component_color method_level
logger_log l method t = log_at (method_level method) t (component_name l) (component_color l)

-- `TestLogger.success`
unfoldable pub success : Stamp → String → Args → Exec Log (Unit {0})
unfolding log_at component_name
success t = log_at info t (component_name test_logger) (concat (escape "32") bold)

unfoldable pub logger_hex_dump : Device → Stamp → String → List ℕ → Option ℕ → Log → Log
unfolding hex_dump component_name component_color
logger_hex_dump d t =
    hex_dump t (component_name (device_logger d)) (component_color (device_logger d))
