-- ===== src/Output/Lease.antt =====
-- internal/system/output_lease_windows.go: one owner at a time, and no release by a stale token.
use logi_mate.Base.{
  ℕ, suc, ◌≡◌, ◌≢◌, ◌⊎◌, inl, inr, refl, Bool, true, false, none, some, Option-cases, Bool-cases,
  ◌==◌, arith,
}
use logi_mate.Base.Text.{Text}
use logi_mate.Base.Results.{Result, ok, err}
use logi_mate.Output.State.{World, NativeOutputLeaseToken, OutputError, lease_taken}
use logi_mate.Output.{Target, acquire, release, token_for}

-- While a lease is held every other acquisition fails and changes nothing.
pub acquire_held :
    (w : World) (target : Result OutputError Target) (purpose : Text) (motor mutex : Bool) (now : ℕ)
    {held : NativeOutputLeaseToken}
    → w.lease ≡ some held
    → (e : OutputError) × (acquire w target purpose motor mutex now ≡ (w, err e))
unfolding acquire
acquire_held w (ok target) purpose motor mutex now h = (lease_taken, rw h)
acquire_held w (err e) purpose motor mutex now h = (e, refl)

-- An acquired lease was free before, is held afterwards, for the purpose asked, and its generation
-- is above every earlier one.
pub acquire_granted :
    (w : World) (target : Target) (purpose : Text) (motor mutex : Bool) (now : ℕ)
    {t : NativeOutputLeaseToken}
    → let (w', r) = acquire w (ok target) purpose motor mutex now in
      r ≡ ok t
      → (w.lease ≡ none)
        × (mutex ≡ true)
        × (w'.lease ≡ some t)
        × (t.motor ≡ motor)
        × (t.generation ≡ suc w.lease_generation)
        × (w'.lease_generation ≡ t.generation)
        × (w'.marker ≡ w.marker)
unfolding acquire token_for
acquire_granted w target purpose motor mutex now h = ground arith

-- A release frees the lease exactly if the token's generation is the holder's; with any other token
-- nothing changes.
pub release_cases :
    (w : World) (t : NativeOutputLeaseToken) (now : ℕ)
    → ((held : NativeOutputLeaseToken) × (w.lease ≡ some held)
        × (held.generation ≡ t.generation)
        × ((release w t now).1 ≡ true)
        × ((release w t now).0.lease ≡ none)
        × ((release w t now).0.marker ≡ w.marker))
      ⊎ ((release w t now ≡ (w, false))
          × ((w.lease ≡ none)
              ⊎ ((held : NativeOutputLeaseToken) × (w.lease ≡ some held)
                  × (held.generation ≢ t.generation))))
unfolding release
release_cases w t now = elim (Option-cases w.lease) [
  | inl e ↦ inr (rw e, inl e)
  | inr (held, e) ↦ elim (Bool-cases (held.generation == t.generation)) [
    | inl same ↦ inl (held, e, ground arith, rw (e, same), rw (e, same), rw (e, same))
    | inr other ↦ inr (rw (e, other), inr (held, e, ground arith))
  ]
]
