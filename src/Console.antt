-- ===== src/Console.antt =====
-- src/custom_utils.cpp: what is written to the console, and the stopwatch. The clocks are outside: the
-- time is an argument. `print` holds a lock, so what it writes stands together.
use asio_ftp.Base.{
  ℕ, suc, ◌+◌, ◌-◌, ◌/◌, ◌%◌, ◌<◌, ◌≡◌, ℤ, pos, negsuc, ◌∷◌, ◌++◌, Bytes, codes, length,
  length-append, ltb, if◌then◌else◌, Bool-cases, inl, inr, arith,
}
use asio_ftp.Helpers.Decimal.{to_string, length-to_string_one, length-to_string_two}

data Color : Type 0 where
  black red green yellow blue magenta cyan white : Color
  bright_black bright_red bright_green bright_yellow : Color
  bright_blue bright_magenta bright_cyan bright_white : Color

abbrev color_code : Color → ℕ
color_code black = 30
color_code red = 31
color_code green = 32
color_code yellow = 33
color_code blue = 34
color_code magenta = 35
color_code cyan = 36
color_code white = 37
color_code bright_black = 90
color_code bright_red = 91
color_code bright_green = 92
color_code bright_yellow = 93
color_code bright_blue = 94
color_code bright_magenta = 95
color_code bright_cyan = 96
color_code bright_white = 97

abbrev escape : Bytes
escape = 27 ∷ codes "["

unfoldable set_print_color : Color → Bytes
set_print_color color = escape ++ to_string (color_code color) ++ codes "m"

unfoldable reset_print_color : Bytes
reset_print_color = escape ++ codes "0m"

-- The hour of a time in seconds, with the hours that the time zone is ahead or behind. The sum is not
-- below zero for a time of this century.
abbrev shifted : ℕ → ℤ → ℕ
shifted hours (pos ahead) = hours + ahead
shifted hours (negsuc behind) = hours - suc behind

-- `if (h.size() < 2) h = '0' + h;`
unfoldable pad : Bytes → Bytes
pad text = if ltb (length text) 2 then codes "0" ++ text else text

unfoldable get_time_string : ℤ → ℕ → Bytes
unfolding pad
get_time_string offset_hour t =
    pad (to_string (shifted (t / 3600) offset_hour % 24))
    ++ (codes ":" ++ (pad (to_string (t / 60 % 60)) ++ (codes ":" ++ pad (to_string (t % 60)))))

-- What is written for a message.
unfoldable print : ℤ → ℕ → Bytes → Color → Bytes
unfolding set_print_color reset_print_color get_time_string
print offset_hour t message color =
    set_print_color color
    ++ (codes "["
        ++ (get_time_string offset_hour t ++ (codes "] " ++ (message ++ reset_print_color))))

unfoldable println : ℤ → ℕ → Bytes → Color → Bytes
println offset_hour t message color = print offset_hour t (message ++ codes "\n") color

-- The laps, of a start and a time in nanoseconds.
unfoldable lap_ms : ℕ → ℕ → ℕ
lap_ms time_stamp now = (now - time_stamp) / 1000000

unfoldable lap_us : ℕ → ℕ → ℕ
lap_us time_stamp now = (now - time_stamp) / 1000

unfoldable lap_ns : ℕ → ℕ → ℕ
lap_ns time_stamp now = now - time_stamp

length-pad : (n : ℕ) → n < 100 → length (pad (to_string n)) ≡ 2
unfolding pad
length-pad n h = elim (Bool-cases (ltb n 10)) [
  | inl one ↦ ground (arith, length-to_string_one n one)
  | inr two ↦ ground (arith, length-to_string_two n two h)
]

length_parts :
    (h m s : Bytes)
    → length h ≡ 2
    → length m ≡ 2
    → length s ≡ 2
    → length (h ++ (codes ":" ++ (m ++ (codes ":" ++ s)))) ≡ 8
length_parts h m s eh em es = omega (
  arith,
  length-append h (codes ":" ++ (m ++ (codes ":" ++ s))),
  length-append m (codes ":" ++ s),
  eh,
  em,
  es,
)

-- The time before a message has eight bytes, whatever the time and the time zone.
length-get_time_string : (offset_hour : ℤ) (t : ℕ) → length (get_time_string offset_hour t) ≡ 8
unfolding get_time_string
length-get_time_string offset_hour t =
    length_parts _ _ _ (length-pad (shifted (t / 3600) offset_hour % 24) (omega arith))
      (length-pad (t / 60 % 60) (omega arith)) (length-pad (t % 60) (omega arith))
