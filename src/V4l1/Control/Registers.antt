-- ===== src/V4l1/Control/Registers.antt =====
-- The controls of V4L1 (libvideo/v4l1-input.c) against four registers.
use v4l4j.Prelude.{
  ℕ, true, false, none, some, List, [], ◌∷◌, ◌≡◌, ◌≢◌, ◌⊎◌, inl, inr, sym, subst, ◌∙◌, Bool-cases,
  Option-cases, arith,
}
use v4l4j.Prelude.Int.{ℤ, pos}
use v4l4j.Errors.{success, err_ioctl}
use v4l4j.V4l1.Driver.{V4l1Driver, V4l1Trace, Picture, gcap, gpict, spict}
use v4l4j.V4l1.Capture.{u16_of_int}
use v4l4j.V4l1.Control.{
  Register, register_of, value_of, with_value, get_control_value_v4l1, set_control_value_v4l1,
}

-- A driver that remembers the picture it has accepted, if it tells it at all.
pub record Remembers (d : V4l1Driver) : Type 0 where
  pub held : V4l1Trace → Picture
  pub answers : (t : V4l1Trace) → (d.on_gpict t ≡ none) ⊎ (d.on_gpict t ≡ some (held t))
  pub after_read : (t : V4l1Trace) → held (gpict ∷ t) ≡ held t
  pub after_caps : (t : V4l1Trace) → held (gcap ∷ t) ≡ held t
  pub accepted : (t : V4l1Trace) (p : Picture) → d.on_spict t p ≡ true → held (spict p ∷ t) ≡ p
  pub rejected :
      (t : V4l1Trace) (p : Picture) → d.on_spict t p ≡ false → held (spict p ∷ t) ≡ held t

-- a call of the client: a control's id, and the value in its memory
pub data ControlCall : Type 0 where
  get : ℕ → ℤ → ControlCall
  set : ℕ → ℤ → ControlCall

-- a call's result, and the value in the client's memory after it
abbrev pub Answer : Type 0
Answer = ℤ × ℤ

-- The contents of the registers.
abbrev pub Contents : Type 0
Contents = Register → ℕ

-- why a call fails before it sets a picture: no such control, or the driver does not tell its picture
abbrev pub NoAnswer : V4l1Driver → ℕ → Type 0
NoAnswer d id = (register_of id ≡ none) ⊎ ((t : V4l1Trace) × (d.on_gpict t ≡ none))

-- What a call may do to the registers, and answer.
pub data Step (d : V4l1Driver) : Contents → ControlCall → Answer → Contents → Type 0 where
  read :
      {m : Contents} {id : ℕ} {v : ℤ} (r : Register)
      → register_of id ≡ some r
      → Step d m (get id v) (success, pos (m r)) m
  not_read : {m : Contents} {id : ℕ} {v : ℤ} → NoAnswer d id → Step d m (get id v) (err_ioctl, v) m
  written :
      {m m' : Contents} {id : ℕ} {v : ℤ} (r : Register)
      → register_of id ≡ some r
      → m' r ≡ u16_of_int v
      → ((s : Register) → s ≢ r → m' s ≡ m s)
      → Step d m (set id v) (success, v) m'
  refused :
      {m : Contents} {id : ℕ} {v : ℤ} (r : Register) (t : V4l1Trace) (p : Picture)
      → register_of id ≡ some r
      → d.on_spict t p ≡ false
      → Step d m (set id v) (err_ioctl, pos (m r)) m
  not_written :
      {m : Contents} {id : ℕ} {v : ℤ} → NoAnswer d id → Step d m (set id v) (err_ioctl, v) m

-- What a list of calls may do, and answer.
pub data Steps (d : V4l1Driver)
    : Contents → List ControlCall → List Answer → Contents → Type 0 where
  done : {m : Contents} → Steps d m [] [] m
  next :
      {m : Contents} (m₁ : Contents) {m' : Contents} {call : ControlCall} {calls : List ControlCall}
      {answer : Answer} {answers : List Answer}
      → Step d m call answer m₁
      → Steps d m₁ calls answers m'
      → Steps d m (call ∷ calls) (answer ∷ answers) m'

-- the registers in a picture
abbrev pub contents : Picture → Contents
contents p = λ r. value_of r p

module _ (d : V4l1Driver) where
  abbrev pub call_result : ControlCall → V4l1Trace → ℤ × ℤ × V4l1Trace
  call_result (get id v) t = get_control_value_v4l1 d id v t
  call_result (set id v) t = set_control_value_v4l1 d id v t

  -- the answers to some calls one after the other, and the driver's calls
  abbrev pub run_calls : List ControlCall → V4l1Trace → List Answer × V4l1Trace
  run_calls [] t = ([], t)
  run_calls (call ∷ calls) t =
      let (ret, v, t₁) = call_result call t in
      let (answers, t₂) = run_calls calls t₁ in ((ret, v) ∷ answers, t₂)

value_of-with_value : (r : Register) (n : ℕ) (p : Picture) → value_of r (with_value r n p) ≡ n
unfolding value_of with_value
value_of-with_value r n p = ground arith

value_of-other :
    (r s : Register) (n : ℕ) (p : Picture) → s ≢ r → value_of s (with_value r n p) ≡ value_of s p
unfolding value_of with_value
value_of-other r s n p h = ground (arith, h)

module _ (d : V4l1Driver) (memory : Remembers d) where
  -- a result that the registers allow
  Allowed : V4l1Trace → ControlCall → ℤ × ℤ × V4l1Trace → Type 0
  Allowed t call result =
      Step d (contents (memory.held t)) call (result.0, result.1)
        (contents (memory.held (result.2)))

  -- the registers once the picture has been read
  kept :
      (t : V4l1Trace) (call : ControlCall) (ret v : ℤ)
      → Step d (contents (memory.held t)) call (ret, v) (contents (memory.held t))
      → Allowed t call (ret, v, gpict ∷ t)
  unfolding Allowed
  kept t call ret v s =
      subst (λ p. Step d (contents (memory.held t)) call (ret, v) (contents p))
        (sym (memory.after_read t)) s

  get-Allowed : (id : ℕ) (v : ℤ) (t : V4l1Trace) → Allowed t (get id v) (call_result d (get id v) t)
  unfolding get_control_value_v4l1
  get-Allowed id v t = elim (memory.answers t) [
    | inl h ↦ rw (get_control_value_v4l1, h) (kept t (get id v) err_ioctl v (not_read (inr (t, h))))
    | inr h ↦ elim (Option-cases (register_of id)) [
      | inl k ↦ rw (get_control_value_v4l1, h, k) (kept t (get id v) err_ioctl v (not_read (inl k)))
      | inr (r, k) ↦
          rw (get_control_value_v4l1, h, k)
            (kept t (get id v) success (pos (value_of r (memory.held t))) (read r k))
    ]
  ]

  -- a picture that is accepted
  set-written :
      (id : ℕ) (v : ℤ) (r : Register) (t : V4l1Trace)
      → register_of id ≡ some r
      → d.on_spict (gpict ∷ t) (with_value r (u16_of_int v) (memory.held t)) ≡ true
      → Allowed t
          (set id v)
          (success, v, spict (with_value r (u16_of_int v) (memory.held t)) ∷ gpict ∷ t)
  unfolding Allowed
  set-written id v r t k ok =
      let changed = with_value r (u16_of_int v) (memory.held t) in
      subst (λ p. Step d (contents (memory.held t)) (set id v) (success, v) (contents p))
        (sym (memory.accepted (gpict ∷ t) changed ok))
        (written r k (value_of-with_value r (u16_of_int v) (memory.held t))
          (λ s h. value_of-other r s (u16_of_int v) (memory.held t) h))

  -- a picture that is refused
  set-refused :
      (id : ℕ) (v : ℤ) (r : Register) (t : V4l1Trace) (p : Picture)
      → register_of id ≡ some r
      → d.on_spict (gpict ∷ t) p ≡ false
      → Allowed t (set id v) (err_ioctl, pos (value_of r (memory.held t)), spict p ∷ gpict ∷ t)
  unfolding Allowed
  set-refused id v r t p k bad =
      subst
        (λ q.
          Step d (contents (memory.held t)) (set id v) (err_ioctl, pos (value_of r (memory.held t)))
            (contents q))
        (sym (memory.rejected (gpict ∷ t) p bad ∙ memory.after_read t))
        (refused r (gpict ∷ t) p k bad)

  set-Allowed : (id : ℕ) (v : ℤ) (t : V4l1Trace) → Allowed t (set id v) (call_result d (set id v) t)
  unfolding set_control_value_v4l1
  set-Allowed id v t = elim (memory.answers t) [
    | inl h ↦
        rw (set_control_value_v4l1, h) (kept t (set id v) err_ioctl v (not_written (inr (t, h))))
    | inr h ↦ elim (Option-cases (register_of id)) [
      | inl k ↦
          rw (set_control_value_v4l1, h, k) (kept t (set id v) err_ioctl v (not_written (inl k)))
      | inr (r, k) ↦
          let changed = with_value r (u16_of_int v) (memory.held t) in
          elim (Bool-cases (d.on_spict (gpict ∷ t) changed)) [
            | inl l ↦ rw (set_control_value_v4l1, h, k, l) (set-written id v r t k l)
            | inr l ↦ rw (set_control_value_v4l1, h, k, l) (set-refused id v r t changed k l)
          ]
    ]
  ]

  call_result-Allowed : (call : ControlCall) (t : V4l1Trace) → Allowed t call (call_result d call t)
  call_result-Allowed (get id v) t = get-Allowed id v t
  call_result-Allowed (set id v) t = set-Allowed id v t

  -- On a driver that remembers its picture, any sequence of calls of get_control_value_v4l1 and
  -- set_control_value_v4l1 answers as four registers of 16 bits may: a value read is that of the
  -- control's register; a value set is put into it, reduced to 16 bits, and no other register
  -- changes; where the driver refuses it, the client is given the old value back and no register
  -- changes; where there is no such control, or the driver does not tell its picture, the client's
  -- value and the registers stay as they are.
  pub run_calls-Steps :
      (calls : List ControlCall) (t : V4l1Trace)
      → Steps d
          (contents (memory.held t))
          calls
          (run_calls d calls t).0
          (contents (memory.held ((run_calls d calls t).1)))
  unfolding Allowed
  run_calls-Steps [] t = done
  run_calls-Steps (call ∷ calls) t =
      let t₁ = (call_result d call t).2 in
      next (contents (memory.held t₁)) (call_result-Allowed call t) (run_calls-Steps calls t₁)
