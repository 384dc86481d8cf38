-- ===== src/Jni/Pointers.antt =====
-- getBufferPointer of src/jniutils.c: the memory behind a Java buffer, and the local references
-- that are held for it.
pub mod References
use v4l4j.Prelude.{ℕ, ◌+◌, ◌-◌, Bool, true, false, Option, none, some, if◌then◌else◌, not}
use v4l4j.Jni.Exceptions.{Exception, jni, null_pointer}

-- What the virtual machine answers: the capacity of a direct buffer, whether the buffer is null,
-- whether each lookup and call succeeds, and the length of the array whose elements it hands out.
pub record BufferReplies : Type 0 where
  pub direct : Option ℕ
  pub is_null : Bool
  pub has_class : Bool
  pub finds_has_array : Bool
  pub call_throws : Bool
  pub has_array : Bool
  pub finds_array : Bool
  pub gives_array : Bool
  pub elements : Option ℕ

-- NULL, the memory of a direct buffer, or the elements of an array, each with its length
pub data Pointer : Type 0 where
  null : Pointer
  direct : ℕ → Pointer
  elements : ℕ → Pointer

-- `refs` counts the local references of the calling native function.
pub get_buffer_pointer : BufferReplies → ℕ → Pointer × Option Exception × ℕ
get_buffer_pointer r refs = elim r.direct [
  | some len ↦ (direct len, none, refs)
  | none ↦
      let refs₁ = refs + 1 in
      let refs₂ = refs₁ - 1 in
      let refs₃ = refs₂ + 1 in
      if r.is_null
      then (null, some null_pointer, refs)
      else if not r.has_class
      then (null, some jni, refs)
      else if not r.finds_has_array
      then (null, some jni, refs₁ - 1)
      else if r.call_throws
      then (null, none, refs₁ - 1)
      else if not r.has_array
      then (null, none, refs₁ - 1)
      else if not r.finds_array
      then (null, some jni, refs₂)
      else if not r.gives_array
      then (null, some jni, refs₂)
      else elim r.elements [
        | none ↦ (null, some jni, refs₃ - 1)
        | some len ↦ (elements len, none, refs₃)
      ]
]

-- The function that getBufferPointer stores for the release: __doReleaseDirectBuffer or
-- __doReleaseArray.
unfoldable pub release : Pointer → ℕ → ℕ
release null refs = refs
release (direct len) refs = refs
release (elements len) refs = refs - 1
