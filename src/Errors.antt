-- ===== src/Errors.antt =====
-- libvideo/libvideo-err.h: the codes that libvideo's functions return.
use v4l4j.Prelude.Int.{ℤ, pos, negsuc}

abbrev pub success : ℤ
success = pos 0

abbrev pub err_channel : ℤ
err_channel = negsuc 0

abbrev pub err_std : ℤ
err_std = negsuc 1

abbrev pub err_chan_setup : ℤ
err_chan_setup = negsuc 2

abbrev pub err_nocaps : ℤ
err_nocaps = negsuc 3

abbrev pub err_wrong_version : ℤ
err_wrong_version = negsuc 4

abbrev pub err_dimensions : ℤ
err_dimensions = negsuc 5

abbrev pub err_ioctl : ℤ
err_ioctl = negsuc 6

abbrev pub err_format : ℤ
err_format = negsuc 7

abbrev pub err_crop : ℤ
err_crop = negsuc 8

abbrev pub err_req_mmap : ℤ
err_req_mmap = negsuc 9

abbrev pub err_req_mmap_buf : ℤ
err_req_mmap_buf = negsuc 10

abbrev pub err_invalid_buf_nb : ℤ
err_invalid_buf_nb = negsuc 11

abbrev pub err_mmap_buf : ℤ
err_mmap_buf = negsuc 12

abbrev pub err_streaming : ℤ
err_streaming = negsuc 14

abbrev pub err_out_of_range : ℤ
err_out_of_range = negsuc 15

abbrev pub err_info_in_use : ℤ
err_info_in_use = negsuc 16

abbrev pub err_capture_in_use : ℤ
err_capture_in_use = negsuc 17

abbrev pub err_control_in_use : ℤ
err_control_in_use = negsuc 18

abbrev pub err_tuner_in_use : ℤ
err_tuner_in_use = negsuc 19
