-- ===== src/Model/Identity.antt =====
-- internal/wheelengine/model.go and model_adapter.go: the identities of a model agree.
use logi_mate.Base.{◌≡◌, refl, subst, ◌↔◌, ◌≢◌, Option, none, some, arith}
use logi_mate.Base.Results.{ok}
use logi_mate.Model.{
  ModelId, unknown, compatibility, g25, g27, dfgt, Descriptor, descriptor_for_model, model_from_pid,
  model_from_display_name,
}
use logi_mate.Model.Adapter.{ModelAdapter, adapter_for_model, validate_model_adapter}

-- The descriptor and the adapter of one model name it alike, and are found back by their names.
pub record Agree (m : ModelId) (d : Descriptor) (a : ModelAdapter) : Type 0 where
  pub described : d.model ≡ m
  pub adapted : a.model ≡ m
  pub by_name : model_from_display_name d.display_name ≡ m
  pub by_pid : model_from_pid d.native_pid ≡ m
  pub same_pid : a.native_pid ≡ d.native_pid
  pub same_selector : a.mode_selector ≡ d.native_mode_selector

abbrev OfSome {ℓ κ} : {A : Type ℓ} → (A → Type κ) → Option A → Type κ
OfSome P none = Unit
OfSome P (some x) = P x

from_some {ℓ κ} : {A : Type ℓ} (P : A → Type κ) {x y : A} → P x → some x ≡ some y → P y
from_some P p e = subst (OfSome P) e p

-- For a model with a descriptor and an adapter both name that model, have one product id and one
-- selector, and the display name and the product id lead back to the model.
pub descriptor-adapter-Agree :
    (m : ModelId) {d : Descriptor} {a : ModelAdapter}
    → descriptor_for_model m ≡ some d
    → adapter_for_model m ≡ some a
    → Agree m d a
unfolding descriptor_for_model adapter_for_model model_from_pid model_from_display_name
descriptor-adapter-Agree unknown h k = cc
descriptor-adapter-Agree compatibility h k = cc
descriptor-adapter-Agree g25 {d} {a} h k =
    from_some (λ e. Agree g25 e a)
      (from_some (Agree g25 _)
        (record {
          described = refl;
          adapted = refl;
          by_name = refl;
          by_pid = refl;
          same_pid = refl;
          same_selector = refl;
        })
        k)
      h
descriptor-adapter-Agree g27 {d} {a} h k =
    from_some (λ e. Agree g27 e a)
      (from_some (Agree g27 _)
        (record {
          described = refl;
          adapted = refl;
          by_name = refl;
          by_pid = refl;
          same_pid = refl;
          same_selector = refl;
        })
        k)
      h
descriptor-adapter-Agree dfgt {d} {a} h k =
    from_some (λ e. Agree dfgt e a)
      (from_some (Agree dfgt _)
        (record {
          described = refl;
          adapted = refl;
          by_name = refl;
          by_pid = refl;
          same_pid = refl;
          same_selector = refl;
        })
        k)
      h

-- Validation accepts exactly the models that have an adapter.
pub validate_model_adapter_iff :
    (m : ModelId) → (validate_model_adapter m ≡ ok tt) ↔ (adapter_for_model m ≢ none)
unfolding validate_model_adapter
validate_model_adapter_iff unknown = ground arith
validate_model_adapter_iff _ = ground arith
