-- ===== src/Common/Utf8.antt =====
-- `std::str::from_utf8` as a test: the byte automaton of the Unicode table of well-formed sequences.
use my_quic.Common.{ℕ, Bool, true, false, List, [], ◌∷◌, ◌&&◌, ltb, leb, ◌==◌, if◌then◌else◌}

pub data Utf8State : Type 0 where
  start need_one need_two need_three after_e0 after_ed after_f0 after_f4 bad : Utf8State

abbrev within : ℕ → ℕ → ℕ → Bool
within lo hi b = leb lo b && leb b hi

lead : ℕ → Utf8State
lead b =
    if ltb b 0x80
    then start
    else if within 0xC2 0xDF b
    then need_one
    else if b == 0xE0
    then after_e0
    else if b == 0xED
    then after_ed
    else if within 0xE1 0xEF b
    then need_two
    else if b == 0xF0
    then after_f0
    else if within 0xF1 0xF3 b
    then need_three
    else if b == 0xF4
    then after_f4
    else bad

utf8_step : Utf8State → ℕ → Utf8State
unfolding lead
utf8_step start b = lead b
utf8_step need_one b = if within 0x80 0xBF b then start else bad
utf8_step need_two b = if within 0x80 0xBF b then need_one else bad
utf8_step need_three b = if within 0x80 0xBF b then need_two else bad
utf8_step after_e0 b = if within 0xA0 0xBF b then need_one else bad
utf8_step after_ed b = if within 0x80 0x9F b then need_one else bad
utf8_step after_f0 b = if within 0x90 0xBF b then need_two else bad
utf8_step after_f4 b = if within 0x80 0x8F b then need_two else bad
utf8_step bad b = bad

utf8_run : Utf8State → List ℕ → Utf8State
unfolding utf8_step
utf8_run s [] = s
utf8_run s (b ∷ bs) = utf8_run (utf8_step s b) bs

-- Whether the bytes are a Rust `str`.
unfoldable pub valid_utf8 : List ℕ → Bool
unfolding utf8_run
valid_utf8 bs = elim (utf8_run start bs) [ start ↦ true | _ ↦ false ]
