-- ===== src/Jni/Controls.antt =====
-- src/v4l4j_Control.c: the values of controls, read and written from the Java side. The control is
-- the element of the list of controls that the Java object names, and libvideo's two functions are
-- arguments, applied to it. Text is the number that stands for a string, as in libvideo's model.
pub mod Values
mod Tests
use v4l4j.Prelude.{ℕ, ◌+◌, Bool, true, false, Option, none, some, ◌==◌, if◌then◌else◌, not}
use v4l4j.Prelude.Int.{ℤ, pos, negsuc, eqb_ℤ}
use v4l4j.Errors.{success, err_out_of_range, err_streaming}
use v4l4j.Driver.{QueryCtrl}
use v4l4j.Control.Value.{Memory, Stored, nothing, stored32, stored64, stored_text}
use v4l4j.Jni.Exceptions.{Exception, control, invalid_value}

-- The exception for a result of set_control_value.
unfoldable pub set_exception : ℤ → Option Exception
set_exception ret =
    if eqb_ℤ ret success
    then none
    else if eqb_ℤ ret err_out_of_range
    then some invalid_value
    else if eqb_ℤ ret err_streaming
    then some control
    else some control

-- what a variable of 32 or 64 bits holds behind the call, from what it held before
int_of : ℤ → Stored → ℤ
int_of before nothing = before
int_of before (stored32 v) = v
int_of before (stored64 v) = v
int_of before stored_text = before

-- a caller's variable of an integer
abbrev pub holding : ℤ → Memory
holding v = record { int32 = v; int64 = v; text = 0 }

module _ {W : Type 0} (get_value : ℕ → W → ℤ × Stored × W)
    (set_value : Memory → ℤ → W → ℤ × W) where
  -- doGetValue, with -1 beside the exception
  pub do_get_value : W → ℤ × Option Exception × W
  unfolding int_of
  do_get_value w =
      let (ret, stored, w₁) = get_value 0 w in
      if not (eqb_ℤ ret (pos 0))
      then (negsuc 0, some control, w₁)
      else (int_of (pos 0) stored, none, w₁)

  -- doSetValue: the function of libvideo stores nothing, and the value returned is the one asked for.
  unfoldable pub do_set_value : ℤ → W → ℤ × Option Exception × W
  unfolding set_exception
  do_set_value value w =
      let (ret, w₁) = set_value (holding value) (pos 0) w in
      ((if eqb_ℤ ret success then value else pos 0), set_exception ret, w₁)

  -- doGetStringValue: the size is that of the buffer allocated, and NULL is returned beside the
  -- exception. What the buffer then holds is not modelled, only whether a string is returned.
  pub do_get_string_value : ℕ → W → Bool × Option Exception × W
  do_get_string_value maximum w =
      let (ret, stored, w₁) = get_value (maximum + 1) w in
      if not (eqb_ℤ ret (pos 0)) then (false, some control, w₁) else (true, none, w₁)

  -- doSetStringValue, for a string of which the virtual machine hands out the characters or not
  -- (`none`, with an exception of its own), and strdup a copy or not; `pinned` counts the strings
  -- whose characters are handed out.
  pub do_set_string_value : Option (ℕ × ℕ) → Bool → ℕ → W → Option Exception × ℕ × W
  do_set_string_value none copies pinned w = (none, pinned, w)
  do_set_string_value (some (text, length)) copies pinned w =
      let value : Memory = record { int32 = pos 0; int64 = pos 0; text = text } in
      let (ret, w₁) = set_value value (pos (length + 1)) w in
      if not copies then (some control, pinned + 1, w) else (set_exception ret, pinned, w₁)

  -- doGetLongValue, with 0 beside the exception
  pub do_get_long_value : W → ℤ × Option Exception × W
  do_get_long_value w =
      let (ret, stored, w₁) = get_value 0 w in
      if not (eqb_ℤ ret (pos 0))
      then (pos 0, some control, w₁)
      else (int_of (pos 0) stored, none, w₁)

  -- doSetLongValue
  pub do_set_long_value : ℤ → W → Option Exception × W
  do_set_long_value value w =
      let (ret, w₁) = set_value (holding value) (pos 0) w in (set_exception ret, w₁)
