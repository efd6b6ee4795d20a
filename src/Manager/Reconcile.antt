-- ===== src/Manager/Reconcile.antt =====
-- internal/wheelengine/manager.go, Reconcile: what the registry holds afterwards.
use logi_mate.Base.{
  Bool, ◌||◌, ap, ℕ, suc, ◌≡◌, refl, ◌∙◌, true, false, Option, none, some, List, [], ◌∷◌,
  if◌then◌else◌, Bool-cases, inl, inr,
}
use logi_mate.Base.Text.{
  to_lower, trim_space, Text, text_eq, text_eq→≡, text_eq_refl, is_empty, equal_fold,
}
use logi_mate.Base.Maps.{Map, lookup, insert, lookup-insert}
use logi_mate.Manager.State.{
  Device, Runtime, Health, InputState, OutputState, zero_input, zero_output, zero_runtime,
}
use logi_mate.Manager.{Manager, key, runtime_at, reconciled, reconcile_loop, reconcile}

-- What a device is told by: its stable id without blanks around it, in lower case.
abbrev pub identity : Device → Text
identity d = to_lower (trim_space d.stable_id)

-- The last device of a list with a key.
abbrev pub last_with : Text → List Device → Option Device
last_with k [] = none
last_with k (d ∷ ds) = elim (last_with k ds) [
  | some e ↦ some e
  | none ↦ if text_eq (identity d) k then some d else none
]

-- What the registry should hold under a key.
abbrev kept : Map Runtime → ℕ → Text → Option Device → Option Runtime → Option Runtime
kept old now k (some d) before = some (reconciled (runtime_at k old) d now)
kept old now k none before = before

module _ (old : Map Runtime) (now : ℕ) (k : Text) (named : is_empty k ≡ false) where
  kept_after :
      (d : Device) (next : Map Runtime) (later : Option Device)
      → kept old now k later (
          lookup k (
            if is_empty (key d.stable_id)
            then next
            else insert
                (key d.stable_id)
                (reconciled (runtime_at (key d.stable_id) old) d now)
                next))
        ≡ kept old now k
            (elim later [
              | some e ↦ some e
              | none ↦ if text_eq (identity d) k then some d else none
            ])
            (lookup k next)
  unfolding key
  kept_after d next (some e) = refl
  kept_after d next none = elim (Bool-cases (text_eq (key d.stable_id) k)) [
    | inl same ↦
        let e = text_eq→≡ (key d.stable_id) k same in
        rw (same, e, named, lookup-insert, text_eq_refl) refl
    | inr other ↦ elim (Bool-cases (is_empty (key d.stable_id))) [
      | inl e ↦ rw (e, other) refl
      | inr e ↦ rw (e, lookup-insert, other) refl
    ]
  ]

  lookup-reconcile_loop :
      (ds : List Device) (next : Map Runtime)
      → lookup k (reconcile_loop old now ds next) ≡ kept old now k (last_with k ds) (lookup k next)
  unfolding reconcile_loop key
  lookup-reconcile_loop [] next = refl
  lookup-reconcile_loop (d ∷ ds) next =
      lookup-reconcile_loop ds _ ∙ kept_after d next (last_with k ds)

-- A key of blanks is never stored.
lookup_empty :
    (old : Map Runtime) (now : ℕ) (k : Text) (ds : List Device) (next : Map Runtime)
    → is_empty k ≡ true
    → lookup k (reconcile_loop old now ds next) ≡ lookup k next
unfolding reconcile_loop
lookup_empty old now k [] next blank = refl
lookup_empty old now k (d ∷ ds) next blank = elim (Bool-cases (is_empty (key d.stable_id))) [
  | inl e ↦ lookup_empty old now k ds _ blank ∙ rw e refl
  | inr e ↦ elim (Bool-cases (text_eq (key d.stable_id) k)) [
    | inl same ↦ absurd (cc (ap is_empty (text_eq→≡ (key d.stable_id) k same), e, blank))
    | inr other ↦ lookup_empty old now k ds _ blank ∙ rw (e, lookup-insert, other) refl
  ]
]

-- A wheel that was not known has no session to lose, nor has one without a session.
abbrev pub session_stays : Option Runtime → Device → Bool
session_stays none d = true
session_stays (some r) d =
    is_empty r.device.session_id || equal_fold r.device.session_id d.session_id

-- The health of a wheel that is there, from that before.
abbrev pub connected_health : Option Runtime → ℕ → Health
connected_health none now = record {
  connected = true;
  input_fresh = false;
  output_blocked = false;
  recovery_pending = false;
  last_error = [];
  updated_at = now;
}
connected_health (some r) now = record (r.health) { connected = true; updated_at = now }

abbrev pub input_of : Option Runtime → InputState
input_of none = zero_input
input_of (some r) = r.input

abbrev pub output_of : Option Runtime → OutputState
output_of none = zero_output
output_of (some r) = r.output

-- A wheel that a scan has found, from what was known of it.
abbrev pub found_again : Option Runtime → Device → ℕ → Runtime
found_again before d now = record {
  device = d;
  input = if session_stays before d then input_of before else zero_input;
  output = if session_stays before d then output_of before else zero_output;
  health = connected_health before now;
}

-- What the registry should hold under a key, if the given device is the last one with it.
abbrev pub registered : Map Runtime → ℕ → Text → Option Device → Option Runtime
registered old now k none = none
registered old now k (some d) = if is_empty k then none else some (found_again (lookup k old) d now)

reconciled-found_again :
    (before : Option Runtime) (d : Device) (now : ℕ)
    → reconciled (elim before [ none ↦ zero_runtime | some r ↦ r ]) d now ≡ found_again before d now
unfolding reconciled
reconciled-found_again none d now = refl
reconciled-found_again (some r) d now = elim (Bool-cases (is_empty r.device.session_id)) [
  | inl e ↦ rw e refl
  | inr e ↦ elim (Bool-cases (equal_fold r.device.session_id d.session_id)) [
    | inl same ↦ rw (e, same) refl
    | inr other ↦ rw (e, other) refl
  ]
]

kept-registered :
    (old : Map Runtime) (now : ℕ) (k : Text) (o : Option Device)
    → is_empty k ≡ false
    → kept old now k o none ≡ registered old now k o
kept-registered old now k none named = refl
kept-registered old now k (some d) named =
    ap some (reconciled-found_again (lookup k old) d now) ∙ rw named refl

blank-registered :
    (old : Map Runtime) (now : ℕ) (k : Text) (o : Option Device)
    → is_empty k ≡ true
    → ◌≡◌ {A = Option Runtime} none (registered old now k o)
blank-registered old now k none blank = refl
blank-registered old now k (some d) blank = rw blank refl

-- After a reconciliation the registry holds nothing under an empty key and nothing under a key that no listed
-- device has; under any other it has the last listed device of that key (its stable id without blanks
-- around it, in lower case), connected and updated now, with the other health flags that were known of it,
-- and with its old input and output, or with none of both if it was known under a session that is not that
-- of the device. The generation counts up and the selection is the given one.
pub reconcile-lookup :
    (m : Manager) (ds : List Device) (selected_id : Text) (now : ℕ) (k : Text)
    → let m' = (reconcile m ds selected_id now).0 in
      (lookup k m'.devices ≡ registered m.devices now k (last_with k ds))
      × (m'.generation ≡ suc m.generation)
      × (m'.selected_id ≡ selected_id)
      × (m'.updated_at ≡ now)
unfolding reconcile lookup
reconcile-lookup m ds selected_id now k = elim (Bool-cases (is_empty k)) [
  | inl blank ↦ (
    lookup_empty m.devices now k ds [] blank
        ∙ blank-registered m.devices now k (last_with k ds) blank,
    refl,
    refl,
    refl,
  )
  | inr named ↦ (
    lookup-reconcile_loop m.devices now k named ds []
        ∙ kept-registered m.devices now k (last_with k ds) named,
    refl,
    refl,
    refl,
  )
]

-- A known wheel with a session that comes back under another session loses its input and output at once, but its
-- health keeps the flags of the old session, `input_fresh` among them.
pub reconcile_session_change :
    (m : Manager) (ds : List Device) (selected_id : Text) (now : ℕ) (k : Text) {r : Runtime}
    {d : Device}
    → is_empty k ≡ false
    → lookup k m.devices ≡ some r
    → last_with k ds ≡ some d
    → is_empty r.device.session_id ≡ false
    → equal_fold r.device.session_id d.session_id ≡ false
    → lookup k (reconcile m ds selected_id now).0.devices
      ≡ some (record {
        device = d;
        input = zero_input;
        output = zero_output;
        health = record (r.health) { connected = true; updated_at = now };
      })
reconcile_session_change m ds selected_id now k {r} {d} named known found had changed =
    (reconcile-lookup m ds selected_id now k).0 ∙ rw (found, named, known, had, changed) refl
