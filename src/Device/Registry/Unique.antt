-- ===== src/Device/Registry/Unique.antt =====
-- What the registration of a profile does to the registry.
use mathlib.Core.Path.{subst}
use unifi_stubd.Prelude.{false-true}
use unifi_stubd.Prelude.{
  ◌≡◌, ◌⊎◌, refl, sym, ap, ◌∙◌, inl, inr, Bool, true, false, not, ◌&&◌, List, [], ◌∷◌, ◌++◌, Result,
  ok, map, Bool-cases, then_branch, else_branch, if◌then◌else◌, ok-injective,
}
use unifi_stubd.Prelude.Text.{same, same_iff, lower_byte}
use unifi_stubd.Device.Registry.{
  ProfileRecord, RegisterError, name_duplicate, model_duplicate, before, register_record,
}

not_both : (a b : Bool) → (not a && not b) ≡ true → (a ≡ false) × (b ≡ false)
not_both true b h = cc
not_both false true h = cc
not_both false false h = (refl, refl)

both : (a b : Bool) → (a && b) ≡ true → (a ≡ true) × (b ≡ true)
both true b h = (refl, h)
both false b h = cc

error_not_ok :
    {E A : Type 0} (b : Bool) (e f : E) {a : A}
    → (if b then Result.err e else Result.err f) ≡ ok a
    → ⊥
error_not_ok true e f h = cc
error_not_ok false e f h = cc

module _ {D : Type 0} where
  -- Two records have neither a name nor, in whatever case, a model in common.
  abbrev pub Apart : ProfileRecord D → ProfileRecord D → Type 0
  Apart r s =
      (r.profile.name ≡ s.profile.name → ⊥)
      × (map lower_byte r.profile.model ≡ map lower_byte s.profile.model → ⊥)

  abbrev pub AllApart : ProfileRecord D → List (ProfileRecord D) → Type 0
  AllApart r [] = Unit
  AllApart r (s ∷ rs) = Apart r s × AllApart r rs

  abbrev pub Unique : List (ProfileRecord D) → Type 0
  Unique [] = Unit
  Unique (r ∷ rs) = AllApart r rs × Unique rs

  -- A built-in record is replaced, and the records before it have nothing in common with the new one.
  abbrev pub Replaced : List (ProfileRecord D) → ProfileRecord D → List (ProfileRecord D) → Type 0
  Replaced [] new out = ⊥
  Replaced (r ∷ rs) new [] = ⊥
  Replaced (r ∷ rs) new (o ∷ out) =
      ((r.builtin ≡ true) × (o ≡ new) × (out ≡ rs)) ⊎ (Apart r new × (o ≡ r) × Replaced rs new out)

  Apart-of_tests :
      (r new : ProfileRecord D)
      → name_duplicate r new ≡ false
      → model_duplicate r new ≡ false
      → Apart r new
  Apart-of_tests r new names models = (
    λ e. false-true (sym names ∙ (same_iff r.profile.name new.profile.name).1 e),
    λ e. false-true (
        sym models
        ∙ (same_iff (map lower_byte r.profile.model) (map lower_byte new.profile.model)).1 e),
  )

  AllApart-append :
      (r new : ProfileRecord D) (rs : List (ProfileRecord D))
      → AllApart r rs
      → Apart r new
      → AllApart r (rs ++ new ∷ [])
  AllApart-append r new [] a b = (b, tt)
  AllApart-append r new (s ∷ rs) (a, more) b = (a, AllApart-append r new rs more b)

  before-eq-ok :
      (r : ProfileRecord D) (m : Result RegisterError (List (ProfileRecord D)))
      {out : List (ProfileRecord D)}
      → before r m ≡ ok out
      → (rest : List (ProfileRecord D)) × (m ≡ ok rest) × (out ≡ r ∷ rest)
  before-eq-ok r (ok rest) h = (rest, refl, sym (ok-injective h))
  before-eq-ok r (Result.err e) h = cc

  -- A registration that succeeds appends the profile to the registry, in which names and models then
  -- stay unique, or it takes the place of a built-in profile, which the new one must ask for, and then
  -- only the profiles before that one are known to have neither its name nor its model.
  pub register_record_lem :
      (rs : List (ProfileRecord D)) (new : ProfileRecord D) (out : List (ProfileRecord D))
      → Unique rs
      → register_record rs new ≡ ok out
      → ((out ≡ rs ++ new ∷ []) × Unique (rs ++ new ∷ []))
        ⊎ ((new.profile.allow_builtin_override ≡ true) × Replaced rs new out)
  unfolding register_record
  register_record_lem [] new out unique h = inl (sym (ok-injective h), (tt, tt))
  register_record_lem (r ∷ rs) new out (apart, unique) h =
      let other = not (name_duplicate r new) && not (model_duplicate r new) in
      let rest = register_record rs new in
      let replace = new.profile.allow_builtin_override && r.builtin in
      let failed : Result RegisterError (List (ProfileRecord D)) =
        if name_duplicate r new
        then Result.err (RegisterError.duplicate_name r.source)
        else Result.err (RegisterError.duplicate_model r.source) in
      let clashing = if replace then ok (new ∷ rs) else failed in
      elim (Bool-cases other) [
        | inl new_apart ↦
            let (tail, found, shape) =
              before-eq-ok r rest (then_branch other (before r rest) clashing new_apart h) in
            let (names, models) =
              not_both (name_duplicate r new) (model_duplicate r new) new_apart in
            let here = Apart-of_tests r new names models in
            elim (register_record_lem rs new tail unique found) [
              | inl (same, more) ↦
                  inl (shape ∙ ap (◌∷◌ r) same, (AllApart-append r new rs apart here, more))
              | inr (allowed, replaced) ↦
                  inr (
                    allowed,
                    subst (Replaced (r ∷ rs) new) (sym shape) (inr (here, refl, replaced)),
                  )
            ]
        | inr clash ↦
            let met = else_branch other (before r rest) clashing clash h in
            elim (Bool-cases replace) [
              | inl chosen ↦
                  let (allowed, builtin) =
                    both new.profile.allow_builtin_override r.builtin chosen in
                  let shape : new ∷ rs ≡ out =
                    ok-injective (then_branch replace (ok (new ∷ rs)) failed chosen met) in
                  inr (allowed, subst (Replaced (r ∷ rs) new) shape (inl (builtin, refl, refl)))
              | inr refused ↦ absurd (
                  error_not_ok (name_duplicate r new) (RegisterError.duplicate_name r.source)
                    (RegisterError.duplicate_model r.source)
                    (else_branch replace (ok (new ∷ rs)) failed refused met))
            ]
      ]
