-- ===== src/Control/Kinds.antt =====
-- The constants of videodev2.h that the control code tests, and C's conversion to unsigned.
use v4l4j.Prelude.{ℕ, ◌+◌, ◌-◌, ◌*◌, ◌/◌, ◌%◌, ◌^◌, ltb, if◌then◌else◌}
use v4l4j.Prelude.Int.{ℤ, pos, negsuc}

-- enum v4l2_ctrl_type
abbrev pub type_integer : ℕ
type_integer = 1

abbrev pub type_boolean : ℕ
type_boolean = 2

abbrev pub type_menu : ℕ
type_menu = 3

abbrev pub type_button : ℕ
type_button = 4

abbrev pub type_integer64 : ℕ
type_integer64 = 5

abbrev pub type_ctrl_class : ℕ
type_ctrl_class = 6

abbrev pub type_string : ℕ
type_string = 7

abbrev pub type_bitmask : ℕ
type_bitmask = 8

abbrev pub type_integer_menu : ℕ
type_integer_menu = 9

-- (unsigned int) of an int
abbrev pub u32_of : ℤ → ℕ
u32_of (pos n) = n % 2 ^ 32
u32_of (negsuc n) = 2 ^ 32 - 1 - n % 2 ^ 32

-- the 64 bits of an int64_t, and the int64_t of 64 bits
abbrev pub u64_of : ℤ → ℕ
u64_of (pos n) = n % 2 ^ 64
u64_of (negsuc n) = 2 ^ 64 - 1 - n % 2 ^ 64

abbrev pub s64_of : ℕ → ℤ
s64_of n = if ltb n (2 ^ 63) then pos n else negsuc (2 ^ 64 - 1 - n)

-- the `value64` of a union whose `value` was stored to, on a little-endian machine
pub overlay : ℤ → ℤ → ℤ
overlay value64 value = s64_of (u64_of value64 / 2 ^ 32 * 2 ^ 32 + u32_of value)

-- V4L2_CTRL_ID2CLASS: id & 0x0fff0000
abbrev pub id_class : ℕ → ℕ
id_class id = id % 0x1000_0000 / 0x1_0000 * 0x1_0000

-- V4L2_CID_USER_CLASS: V4L2_CTRL_CLASS_USER | 1
abbrev pub cid_user_class : ℕ
cid_user_class = 0x98_0001

-- V4L2_PRIV_IOCTL (videodev_additions.h)
abbrev pub priv_ioctl : ℕ
priv_ioctl = 0x54e83
