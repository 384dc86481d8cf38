-- ===== src/Jni/Exceptions.antt =====
-- The Java exceptions of src/common.h that the native functions throw.
pub data Exception : Type 0 where
  generic : Exception
  initialisation : Exception
  dimension : Exception
  channel : Exception
  format : Exception
  standard : Exception
  control : Exception
  release : Exception
  invalid_value : Exception
  unsupported : Exception
  jni : Exception
  null_pointer : Exception
