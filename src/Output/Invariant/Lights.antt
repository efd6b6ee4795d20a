-- ===== src/Output/Invariant/Lights.antt =====
-- The LED commands keep the invariant of the output package.
use logi_mate.Base.{
  ℕ, ◌≡◌, refl, ◌&&◌, if◌then◌else◌, Bool, true, false, none, some, arith, Bool-cases, inl, inr,
}
use logi_mate.Base.Text.{codes}
use logi_mate.Base.Results.{Result, ok, err}
use logi_mate.Protocol.{Report}
use logi_mate.Protocol.Classic.{BuildError, build_g27_led_report}
use logi_mate.Output.State.{World, NativeOutputLeaseToken, OutputError, write_failed}
use logi_mate.Output.{Target, is_some, acquire, release}
use logi_mate.Output.Leds.{
  PulseResults, joined, leds_write, leds_with, native_output_set_leds, pulse_write, pulse_built,
  pulse_with, native_output_pulse_leds,
}
use logi_mate.Output.Invariant.Parts.{Inv}
use logi_mate.Output.Invariant.Acquired.{Acquired, acquire-Acquired, acquire_refused, give_back-Inv}
use logi_mate.Output.Invariant.Starts.{acquire_idle, record-Inv, range_write-Acquired}

leds_write-Acquired :
    (w : World) (t : NativeOutputLeaseToken) (has_leds : Bool) (built : Result BuildError Report)
    (wrote : Bool)
    → Acquired w t false
    → Acquired (leds_write w has_leds built wrote).0 t false
unfolding leds_write
leds_write-Acquired w t false built wrote a = a
leds_write-Acquired w t true built wrote a = range_write-Acquired w t false built wrote a

leds_with-Inv :
    (w : World) (got : Result OutputError NativeOutputLeaseToken) (mask : ℕ) (has_leds wrote : Bool)
    (now : ℕ)
    → ((x : OutputError) → got ≡ err x → Inv w)
    → ((t : NativeOutputLeaseToken) → got ≡ ok t → Acquired w t false)
    → Inv (leds_with w got mask has_leds wrote now).0
unfolding leds_with
leds_with-Inv w (err x) mask has_leds wrote now refused got =
    record-Inv w false true (refused x refl)
leds_with-Inv w (ok t) mask has_leds wrote now refused got =
    let built = build_g27_led_report mask in
    let (w1, failure) = leds_write w has_leds built wrote in
    let (w2, done) = release w1 t now in
    record-Inv w2 false (is_some (joined failure done))
      (give_back-Inv w1 t false now (leds_write-Acquired w t has_leds built wrote (got t refl)))

pub leds-Inv :
    (w : World) (target : Result OutputError Target) (mask : ℕ) (mutex has_leds wrote : Bool)
    (now : ℕ)
    → Inv w
    → Inv (native_output_set_leds w target mask mutex has_leds wrote now).0
unfolding native_output_set_leds
leds-Inv w target mask mutex has_leds wrote now v =
    let (w1, got) = acquire w target (codes "leds") false mutex now in
    leds_with-Inv w1 got mask has_leds wrote now
      (λ x e. rw (acquire_refused w target (codes "leds") false mutex now x e) v)
      (λ t e.
        acquire-Acquired w target (codes "leds") false mutex now t v e
          (acquire_idle w target (codes "leds") false mutex now t v e))

pulse_write-Acquired :
    (w : World) (t : NativeOutputLeaseToken) (on off : Report) (r : PulseResults)
    → Acquired w t false
    → Acquired (pulse_write w on off r).0 t false
unfolding pulse_write
pulse_write-Acquired w t on off r a = ground arith

pulse_built-Inv :
    (w : World) (t : NativeOutputLeaseToken) (on off : Result BuildError Report) (r : PulseResults)
    (now : ℕ)
    → Acquired w t false
    → Inv (pulse_built w t on off r now).0
unfolding pulse_built
pulse_built-Inv w t (err e) off r now a = give_back-Inv w t false now a
pulse_built-Inv w t (ok on) (err e) r now a = give_back-Inv w t false now a
pulse_built-Inv w t (ok on) (ok off) r now a =
    let (w1, wrote) = pulse_write w on off r in
    let (w2, done) = release w1 t now in
    let kept = give_back-Inv w1 t false now (pulse_write-Acquired w t on off r a) in
    elim (Bool-cases r.opened) [
      | inr e ↦ simp e (give_back-Inv w t false now a)
      | inl e ↦ simp e (
          record-Inv w2 false
            (is_some (joined (if wrote && r.closed then none else some write_failed) done)) kept)
    ]

pulse_with-Inv :
    (w : World) (got : Result OutputError NativeOutputLeaseToken) (r : PulseResults) (now : ℕ)
    → ((x : OutputError) → got ≡ err x → Inv w)
    → ((t : NativeOutputLeaseToken) → got ≡ ok t → Acquired w t false)
    → Inv (pulse_with w got r now).0
unfolding pulse_with
pulse_with-Inv w (err x) r now refused got = refused x refl
pulse_with-Inv w (ok t) r now refused got = elim (Bool-cases r.has_leds) [
  | inr e ↦ simp e (give_back-Inv w t false now (got t refl))
  | inl e ↦
      simp e (
        pulse_built-Inv w t (build_g27_led_report 0x1F) (build_g27_led_report 0) r now (got t refl))
]

pub pulse-Inv :
    (w : World) (target : Result OutputError Target) (mutex : Bool) (r : PulseResults) (now : ℕ)
    → Inv w
    → Inv (native_output_pulse_leds w target mutex r now).0
unfolding native_output_pulse_leds
pulse-Inv w target mutex r now v =
    let (w1, got) = acquire w target (codes "led-ping") false mutex now in
    pulse_with-Inv w1 got r now
      (λ x e. rw (acquire_refused w target (codes "led-ping") false mutex now x e) v)
      (λ t e.
        acquire-Acquired w target (codes "led-ping") false mutex now t v e
          (acquire_idle w target (codes "led-ping") false mutex now t v e))
