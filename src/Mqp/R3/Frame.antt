-- ===== src/Mqp/R3/Frame.antt =====
-- src/mqp/r3.rs: frame classes, form flags, protocol bounds and first-byte classification.
use my_quic.Common.{ℕ, Bool, true, false, Option, none, some, [], ◌∷◌, ◌==◌, if◌then◌else◌, bit_and}
use my_quic.Common.Bytes.{Bytes}

abbrev pub class_mask : ℕ
class_mask = 0xC0

abbrev pub class_data : ℕ
class_data = 0x00

abbrev pub class_data_ext : ℕ
class_data_ext = 0x40

abbrev pub class_train : ℕ
class_train = 0x80

abbrev pub class_frag : ℕ
class_frag = 0xC0

abbrev pub form_open : ℕ
form_open = 0x01

abbrev pub form_src : ℕ
form_src = 0x02

abbrev pub form_open_src : ℕ
form_open_src = 0x03

abbrev pub form_inline : ℕ
form_inline = 0x04

abbrev pub ext_reserved_mask : ℕ
ext_reserved_mask = 0x30

abbrev pub ext_flags_mask : ℕ
ext_flags_mask = 0x0F

abbrev pub train_form_same : ℕ
train_form_same = 0

abbrev pub train_form_same_equal : ℕ
train_form_same_equal = 1

abbrev pub train_form_dict : ℕ
train_form_dict = 2

abbrev pub train_form_mask : ℕ
train_form_mask = 0x30

abbrev pub train_reserved_mask : ℕ
train_reserved_mask = 0x0F

abbrev pub max_train_items : ℕ
max_train_items = 64

abbrev pub max_frag_total : ℕ
max_frag_total = 64

abbrev pub max_frag_bytes : ℕ
max_frag_bytes = 8192

abbrev pub max_ctl_body : ℕ
max_ctl_body = 64

pub data R3Kind : Type 0 where
  data_kind data_ext train frag : R3Kind

unfoldable pub is_r3 : Bytes → Bool
is_r3 [] = false
is_r3 (b0 ∷ b) = true

kind_of : ℕ → R3Kind
kind_of c =
    if c == class_data
    then data_kind
    else if c == class_data_ext
    then data_ext
    else if c == class_train
    then train
    else frag

unfoldable pub kind : Bytes → Option R3Kind
unfolding kind_of
kind [] = none
kind (b0 ∷ b) = some (kind_of (bit_and b0 class_mask))
