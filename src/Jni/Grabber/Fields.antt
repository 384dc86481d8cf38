-- ===== src/Jni/Grabber/Fields.antt =====
-- The fields of the Java object in src/v4l4j_FrameGrabber.c: get_lastFrame_field_ids and
-- update_width_height.
use v4l4j.Prelude.{ℕ, Bool, true, false, Option, none, some, ◌==◌, ◌&&◌, if◌then◌else◌, not}
use v4l4j.Capture.Records.{CaptureDevice}
use v4l4j.Jni.State.{V4l4jDevice}
use v4l4j.Jni.Exceptions.{Exception, jni}
use v4l4j.Jni.Conversion.{output_raw}

-- which of the three static field identifiers are not NULL
pub record FieldIds : Type 0 where
  pub sequence : Bool
  pub time_usec : Bool
  pub buffer_index : Bool

-- what the virtual machine finds: the class, and the fields by their names
pub record FieldReplies : Type 0 where
  pub class : Bool
  pub sequence : Bool
  pub time_usec : Bool
  pub buffer_index : Bool
  pub width : Bool
  pub height : Bool
  pub standard : Bool
  pub format : Bool

-- the fields of the Java object
pub record JavaFields : Type 0 where
  pub width : ℕ
  pub height : ℕ
  pub standard : ℕ
  pub format : ℕ
  pub sequence : ℕ
  pub time_usec : ℕ
  pub buffer_index : ℕ

-- get_lastFrame_field_ids: a field that is not found stores NULL and ends the function.
unfoldable pub get_last_frame_field_ids :
    FieldReplies → FieldIds → Bool × Option Exception × FieldIds
get_last_frame_field_ids r ids =
    let ids₁ = record ids { sequence = r.sequence } in
    let ids₂ = record ids₁ { time_usec = r.time_usec } in
    let ids₃ = record ids₂ { buffer_index = r.buffer_index } in
    if not r.class
    then (false, some jni, ids)
    else if not r.sequence
    then (false, some jni, ids₁)
    else if not r.time_usec
    then (false, some jni, ids₂)
    else if not r.buffer_index
    then (false, some jni, ids₃)
    else (true, none, ids₃)

-- The first test of doInit, which looks at two of the three identifiers only.
unfoldable pub look_up_ids : FieldReplies → FieldIds → Bool × Option Exception × FieldIds
unfolding get_last_frame_field_ids
look_up_ids r ids =
    if ids.sequence && ids.time_usec then (true, none, ids) else get_last_frame_field_ids r ids

unfoldable pub update_width_height :
    FieldReplies → CaptureDevice → V4l4jDevice → JavaFields → Option Exception × JavaFields
update_width_height r c d f =
    let f₁ = record f { width = c.width } in
    let f₂ = record f₁ { height = c.height } in
    let f₃ = record f₂ { standard = c.std } in
    let fmt = if c.is_native then c.palette else (c.convert).src_palette in
    if not r.class
    then (some jni, f)
    else if not r.width
    then (some jni, f)
    else if not r.height
    then (some jni, f₁)
    else if not r.standard
    then (some jni, f₂)
    else if d.output_fmt == output_raw
    then (none, f₃)
    else if not r.format
    then (some jni, f₃)
    else (none, record f₃ { format = fmt })
