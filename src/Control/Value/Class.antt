-- ===== src/Control/Value/Class.antt =====
-- Which ioctls get_control_value_v4l2 and set_control_value_v4l2 use.
use v4l4j.Prelude.{ℕ, false, ◌∷◌, ◌≡◌, ◌≢◌, ◌⊎◌, ◌==◌, arith}
use v4l4j.Prelude.Int.{pos}
use v4l4j.Errors.{success, err_ioctl}
use v4l4j.Driver.{Driver, Trace, QueryCtrl, s_ctrl, s_ext_ctrls}
use v4l4j.Control.Kinds.{id_class, cid_user_class}
use v4l4j.Control.Value.{
  Memory, enotty, ext_value, get_ext_value, get_control_value_v4l2, set_control_value_v4l2,
}

-- No class is V4L2_CID_USER_CLASS: a class has its low 16 bits clear, and that number has bit 0 set.
id_class-ne-cid_user_class : (id : ℕ) → (id_class id == cid_user_class) ≡ false
id_class-ne-cid_user_class id = ground arith

-- Every control, one of the user class too, is read by the extended ioctl: the branch for the user
-- class is never taken.
pub get_control_value_v4l2-eq-get_ext_value :
    (d : Driver) (qctrl : QueryCtrl) (size : ℕ) (t : Trace)
    → get_control_value_v4l2 d qctrl size t ≡ get_ext_value d qctrl size t
unfolding get_control_value_v4l2
get_control_value_v4l2-eq-get_ext_value d qctrl size t = rw (id_class-ne-cid_user_class qctrl.id)

-- Every control, one of the user class too, is written by the extended ioctl first, and by s_ctrl
-- only after that failed with ENOTTY. The result is 0 exactly when one of these succeeds, and
-- LIBVIDEO_ERR_IOCTL otherwise.
pub set_control_value_v4l2_lem :
    (d : Driver) (qctrl : QueryCtrl) (val : Memory) (t : Trace)
    → let (ret, t') = set_control_value_v4l2 d qctrl val t in
      let v = ext_value qctrl val in
      let r = d.on_s_ext_ctrls t qctrl.id v in
      let t₁ = s_ext_ctrls qctrl.id v ∷ t in
      let r' = d.on_s_ctrl t₁ qctrl.id val.int32 in
      ((t' ≡ t₁) × (ret ≡ success) × (r.ret ≡ pos 0))
      ⊎ ((t' ≡ t₁) × (ret ≡ err_ioctl) × (r.ret ≢ pos 0) × (r.errno ≢ enotty))
      ⊎ ((t' ≡ s_ctrl qctrl.id val.int32 ∷ t₁)
          × (r.ret ≢ pos 0)
          × (r.errno ≡ enotty)
          × (((ret ≡ success) × (r'.ret ≡ pos 0)) ⊎ ((ret ≡ err_ioctl) × (r'.ret ≢ pos 0))))
unfolding set_control_value_v4l2
set_control_value_v4l2_lem d qctrl val t = rw (id_class-ne-cid_user_class qctrl.id) (ground arith)
