-- ===== src/Lib.antt =====
-- v4l4j captures video on Linux: a Java library over libvideo, a C library that speaks to Video4Linux
-- drivers by ioctls and to libv4lconvert for conversions, and a layer of native functions (src/) that
-- joins the two. This development models libvideo, the part that negotiates with the driver, and the
-- native functions that capture frames, and proves what their calls promise.
--
-- How the parts interact. A client opens a device (libvideo/libvideo.c), sets its capture parameters
-- (libvideo/v4l2-input.c: the standard, the input, the image format, the cropping, in this order),
-- maps the driver's buffers, starts the stream, dequeues and enqueues buffers, stops and frees. Beside
-- the capture it reads and writes the device's controls, through the repairs that libvideo makes to
-- what drivers report. The Java side does this through src/: a grabber's doInit sets the parameters,
-- maps the buffers and sets up a converter, fillBuffer dequeues a frame and puts it in a Java buffer,
-- converted where that is needed, enqueueBuffer gives it back, and doRelease undoes doInit.
--
-- What is a parameter. The kernel driver and libv4lconvert are a record of functions, Driver, in a
-- file of that name (V4l1.Driver and Probes.Driver are the same for the other ioctls): each ioctl
-- and each call of libv4lconvert is answered by a function of all calls made so far, the trace, and
-- of the call's arguments. So a driver may keep any state. Each operation of the model takes the
-- trace and returns it with its own calls on top, the latest first. C's functions that update a
-- struct return the new record; a result that is 0 or -1 is a Boolean where nothing else is
-- returned, and the codes of libvideo/libvideo-err.h are integers. Driver numbers are natural
-- numbers, signed fields are integers; both are unbounded where the code only stores and compares
-- them, and reduced modulo 2 ^ 32 or 2 ^ 64 where it converts them. For the native functions, what the
-- Java virtual machine answers is a record of replies (FieldReplies, BufferReplies,
-- ListReplies, InfoReplies), and the length that an encoder of src/jpeg.c returns to fillBuffer is a
-- function. Of libjpeg, the number of lines that a call takes is one; its other calls are left out.
--
-- Which file models what (paths of the sources from the repository's root):
--   Errors           libvideo/libvideo-err.h
--   Palettes         libvideo/palettes.c, and get_palette_index and find_v4l2_palette
--   Capture.Records  struct capture_device and its parts, libvideo/libvideo.h
--   Capture.Standard try_std, detect_standard, set_std of libvideo/v4l2-input.c
--   Capture.Input    check_capture_capabilities_v4l2, set_input, set_crop, set_video_input_std_v4l2,
--                    get_video_input_std_v4l2, set_frame_intv_v4l2, get_frame_intv_v4l2
--   Capture.Format   apply_image_format, try_image_format, set_image_format
--   Capture.Setup    set_cap_param_v4l2
--   Capture.Buffers  init_capture_v4l2, start_capture_v4l2, dequeue_buffer_v4l2,
--                    enqueue_buffer_v4l2, stop_capture_v4l2, free_capture_v4l2
--   Control.Quirks   fix_quirky_struct, fix_quirky_values
--   Control.Value    get_control_value_v4l2, set_control_value_v4l2, and get_control_value and
--                    set_control_value of libvideo/libvideo.c
--   Control.Menu     set_query_menu
--   Tuner            libvideo/v4l2-tuner.c
--   Device           open_device, close_device and the calls that take and release the interfaces of
--                    a device, libvideo/libvideo.c, and the handle of query_device_v4l2
--   Control.Enumerate count_v4l2_controls, create_v4l2_controls
--   Query.Inputs     query_tuner, add_supported_std, check_inputs_v4l2 of libvideo/v4l2-query.c
--   Query.Intervals  lookup_frame_intv, list_frame_intv, and ARRAY_GROW of libvideo/list.h
--   Query.Sizes      lookup_frame_sizes
--   Query.Formats    has_raw_format, try_format, add_raw_format, get_current_resolution,
--                    add_supported_palette, check_palettes_v4l2
--   Query.Device     query_device_v4l2
--   V4l1.Driver      the V4L1 ioctls of libvideo/videodev.h, as a parameter of their own
--   V4l1.Listing     list_cap_v4l1 of libvideo/v4l1-input.c, which sets palettes as it lists them
--   V4l1.Capture     check_v4l1, check_capture_capabilities_v4l1, set_cap_param_v4l1
--   V4l1.Buffers     init_capture_v4l1, start_capture_v4l1, dequeue_buffer_v4l1,
--                    enqueue_buffer_v4l1, stop_capture_v4l1, free_capture_v4l1
--   V4l1.Control     count_v4l1_controls, create_v4l1_controls,
--                    get_control_value_v4l1, set_control_value_v4l1
--   V4l1.Palettes    set_palette_info, check_palettes_v4l1 of libvideo/v4l1-query.c
--   V4l1.Inputs      query_tuner, check_inputs_v4l1, query_device_v4l1 of libvideo/v4l1-query.c
--   V4l1.Tuner       libvideo/v4l1-tuner.c
--   Probes.Driver    the private ioctls of the drivers that are probed, as a parameter
--   Probes.Gspca, Probes.Pwc, Probes.Quickcam, Probes.Fps
--                    libvideo/gspca-probe.c, pwc-probe.c, qc-probe.c and fps-param-probe.c
--   Jni.Pixels       src/pixfmt-conv.h: the conversions of YUYV, UYVY and YVYU to planes
--   Jni.Rows         jpeg_encode_yuv420 and jpeg_encode_yuv422p of src/jpeg.c
--   Jni.Mjpeg        jpeg_encode_mjpeg and jpeg_encode_jpeg of src/jpeg.c
--   Jni.State        struct v4l4j_device and struct jpeg_data of src/common.h
--   Jni.Compressor   init_jpeg_compressor and destroy_jpeg_compressor of src/jpeg.c
--   Jni.Conversion   init_capture_format, init_format_converter, release_format_converter and
--                    get_buffer_length of src/v4l4j_FrameGrabber.c
--   Jni.Grabber      the native functions of src/v4l4j_FrameGrabber.c
--   Jni.Actions      struct capture_actions, and its table for V4L2 (setup_capture_actions)
--   Jni.Exceptions   the exceptions of src/common.h
--   Jni.Pointers     getBufferPointer of src/jniutils.c
--   Jni.Controls     src/v4l4j_Control.c
--   Jni.Tuner        src/v4l4j_Tuner.c
--   Jni.Device       doInit, doRelease and translate_type of src/v4l4j_VideoDevice.c
--   Jni.ControlList  doGetControlList, get_names and get_values of src/v4l4j_VideoDevice.c
--   Jni.Formats      src/v4l4j_ImageFormatList.c
--   Jni.Resolutions  src/v4l4j_ResolutionInfo.c and src/v4l4j_FrameInterval.c
--   Jni.Encoders     jpeg_encode_yuyv, jpeg_encode_uyvy, jpeg_encode_yvyu, jpeg_encode_rgb32,
--                    jpeg_encode_bgr32, jpeg_encode_rgb24 and jpeg_encode_bgr24 of src/jpeg.c
--   Jni.DeviceInfo   src/v4l4j_DeviceInfo.c
--
-- A module's definitions stand in its own file, its proofs in the files below it, named for what
-- they prove, and its tests in a file Tests below it. Prelude has the shared names, Samples a
-- driver for the tests, as V4l1.Samples and Probes.Samples have. Loops over arrays recur on the
-- rounds left or on the numbers from the minimum to the maximum. Some loops recur on fuel, one for
-- each round: the one that makes up menu items (fake_items), which is given one more than the
-- elements that the code allocates; the one that counts the inputs (count_inputs), which needs one
-- more than their number; those over the intervals, the sizes and the formats of a device
-- (enum_intervals, enum_sizes, add_other_sources, list_palettes), which need one more than the
-- index where the driver ends the list; and those over the private and the extended controls
-- (count_priv, count_ext, create_priv, create_ext), which need one for each id up to the one where
-- the driver ends them, and may never end otherwise; repack, which needs more than the number of
-- pixels, written, which is given the height and takes less, and scan_segments, which needs one for
-- each segment of a frame and one more; encode_packed and encode_lines need one more than the
-- height.
--
-- Not modelled: the encoders of single frames (src/v4l4j_VideoFrameEncoder.c,
-- src/au_edu_jcu_v4l4j_encoder_*.c, src/v4l4j_H264*.c and src/v4l4j_x264.c, which call
-- libv4lconvert, libjpeg and x264), the position and limit of Java buffers (src/jniutils.c), the
-- variants with SSE instructions in src/pixfmt-conv.h and the test program in src/jpeg.c, the Java
-- classes, logging and the functions that only print, the release of a device's description,
-- libv4lconvert and pixfc-sse, which are copies of other projects, and the failure of malloc.
pub mod Prelude
pub mod Errors
pub mod Palettes
pub mod Driver
pub mod Capture
pub mod Control
pub mod Tuner
pub mod Device
pub mod Query
pub mod V4l1
pub mod Probes
pub mod Jni
mod Samples
