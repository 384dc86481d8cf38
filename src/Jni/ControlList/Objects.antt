-- ===== src/Jni/ControlList/Objects.antt =====
-- The Java objects that doGetControlList makes (src/v4l4j_VideoDevice.c), and what is left taken where it
-- throws.
use v4l4j.Prelude.{◌≡◌, ◌⊎◌, true, false, Option, none, some, List, is_some}
use v4l4j.Control.Enumerate.{Control}
use v4l4j.Device.{VideoDevice, Held}
use v4l4j.Jni.Exceptions.{Exception, jni}
use v4l4j.Jni.ControlList.{ListReplies, JavaControl}
use v4l4j.Jni.ControlList.Elements.{AreObjectsOf, HasUnknown, HasRefused}

-- The virtual machine does not give the class, its constructor or the array.
abbrev pub LacksArray : ListReplies → Type 0
LacksArray r = (r.finds_class ≡ false) ⊎ (r.finds_ctor ≡ false) ⊎ (r.makes_array ≡ false)

-- What doGetControlList returns and throws, the device behind it and what is held for it, against
-- the controls and what there was before.
abbrev pub ReturnsObjects :
    ListReplies
    → List Control
    → VideoDevice
    → Held
    → Option (List JavaControl) × Option Exception × VideoDevice × Held
    → Type 0
ReturnsObjects r controls v h (array, thrown, v₁, h₁) =
    ((js : List JavaControl) × (array ≡ some js)
      × (thrown ≡ none)
      × AreObjectsOf 0 controls js
      × (is_some v₁.control ≡ true))
    ⊎ ((array ≡ none)
        × (thrown ≡ some jni)
        × (LacksArray r ⊎ HasRefused r 0 controls)
        × (v₁ ≡ v)
        × (h₁ ≡ h))
    ⊎ ((array ≡ none) × (thrown ≡ some jni) × HasUnknown controls × (is_some v₁.control ≡ true))
