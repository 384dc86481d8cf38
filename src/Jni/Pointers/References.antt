-- ===== src/Jni/Pointers/References.antt =====
-- The local references that getBufferPointer (src/jniutils.c) holds.
use v4l4j.Prelude.{ℕ, ◌≡◌, arith}
use v4l4j.Jni.Pointers.{BufferReplies, get_buffer_pointer, release}

-- Whatever the virtual machine answers, after getBufferPointer and the release that it stored the
-- native function holds as many local references as before.
pub release-get_buffer_pointer :
    (r : BufferReplies) (refs : ℕ)
    → let (pointer, thrown, refs₁) = get_buffer_pointer r refs in release pointer refs₁ ≡ refs
unfolding get_buffer_pointer release
release-get_buffer_pointer r refs = ground arith
