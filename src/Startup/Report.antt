-- ===== src/Startup/Report.antt =====
-- How `main` of src/main.rs reports a start that fails: an error event, and it returns.
use i_usb_bridge.Prelude.{
  ◌≡◌, refl, sym, ap, inl, inr, Bool, true, false, not, Option, none, some, List, [], ◌∷◌, ◌++◌,
  if◌then◌else◌,
}
use i_usb_bridge.Prelude.Text.{Text, text, contains, to_ascii_lowercase}
use i_usb_bridge.Prelude.Action.{Result, ok, err, Action, ◌>>=◌, bind_err, Result-cases}
use i_usb_bridge.Mux.Serial.{same_udid}
use i_usb_bridge.Session.App.{App, say}
use i_usb_bridge.Session.Event.{Event, warning, error}

abbrev pub itself : Text → Text
itself e = e

-- `expected.is_some_and(|expected| !same_udid(expected, &udid))`
abbrev pub is_other : Option Text → Text → Bool
is_other none udid = false
is_other (some expected) udid = not (same_udid expected udid)

abbrev pub or_empty : Option Text → Text
or_empty none = []
or_empty (some t) = t

-- `emit_developer_image_mount_error`
unfoldable pub mount_error_code : Text → Text
mount_error_code message =
    if contains (text "developer mode") (to_ascii_lowercase message)
    then text "developer_mode_required"
    else text "developer_image_mount_failed"

module _ {World : Type 0} where
  -- An error event, and no result.
  abbrev pub fail : {A : Type 0} → Text → Text → Action (App World) A
  fail code message a = err message (say (error code message) a)

  -- A call whose error becomes an error event, with a code and a message made of it.
  unfoldable pub or_fail :
      {A : Type 0} → (Text → Text) → (Text → Text) → Action (App World) A → Action (App World) A
  or_fail code message m a = elim (m a) [
    | ok x a' ↦ ok x a'
    | err e a' ↦ fail (code e) (message e) a'
  ]

  -- A call whose error becomes a warning.
  unfoldable pub or_warn : Text → Action (App World) (Unit {0}) → Action (App World) (Unit {0})
  or_warn code m a = elim (m a) [ ok _ a' ↦ ok tt a' | err e a' ↦ ok tt (say (warning code e) a') ]

  abbrev pub announce : Event → Action (App World) (Unit {0})
  announce e a = ok tt (say e a)

  -- The last event of a start that fails is an error.
  abbrev pub ReportsFailure : {A : Type 0} → Action (App World) A → Type 0
  ReportsFailure m =
      (a a' : App World) (e : Text)
      → m a ≡ err e a'
      → (earlier : List Event) × (code : Text) × (message : Text) × (a'.events
          ≡ earlier ++ (error code message ∷ []))

  pub or_fail-ReportsFailure :
      {A : Type 0} (code message : Text → Text) (m : Action (App World) A)
      → ReportsFailure (or_fail code message m)
  unfolding or_fail
  or_fail-ReportsFailure code message m a a' e h = called (m a) refl
    where
      called :
          (r : Result (App World) _)
          → m a ≡ r
          → (earlier : List Event) × (c : Text) × (t : Text) × (a'.events
              ≡ earlier ++ (error c t ∷ []))
      called (ok x v) f = absurd (cc (rw (f, or_fail) at h))
      called (err x v) f =
          let same : say (error (code x) (message x)) v ≡ a' = cc (rw (f, or_fail) at h) in
          (v.events, code x, message x, ap (λ (b : App World). b.events) (sym same))

  pub bind-ReportsFailure :
      {A B : Type 0} (m : Action (App World) A) (k : A → Action (App World) B)
      → ReportsFailure m
      → ((x : A) → ReportsFailure (k x))
      → ReportsFailure (m >>= k)
  bind-ReportsFailure m k p q a a' e h = elim (bind_err (m a) k a' e h) [
    | inl f ↦ p a a' e f
    | inr (x, v, f, g) ↦ q x v a' e g
  ]

  pub fail-ReportsFailure :
      {A : Type 0} (code message : Text) → ReportsFailure {A = A} (fail code message)
  fail-ReportsFailure code message a a' e h =
      let same : say (error code message) a ≡ a' = cc h in
      (a.events, code, message, ap (λ (b : App World). b.events) (sym same))

  -- A call that never fails.
  pub total-ReportsFailure :
      {A : Type 0} (x : App World → A) (f : App World → App World)
      → ReportsFailure (λ a. ok (x a) (f a))
  total-ReportsFailure x f a a' e h = absurd (cc h)

  pub or_warn-ReportsFailure :
      (code : Text) (m : Action (App World) (Unit {0})) → ReportsFailure (or_warn code m)
  unfolding or_warn
  or_warn-ReportsFailure code m a a' e h = elim (Result-cases (m a)) [
    | inl (_, v, f) ↦ absurd (cc (rw (f, or_warn) at h))
    | inr (x, v, f) ↦ absurd (cc (rw (f, or_warn) at h))
  ]

  -- A call whose error another call replaces.
  pub otherwise-ReportsFailure :
      {A B : Type 0} (m : Action (App World) A) (k : A → Action (App World) B)
      (r : Text → Action (App World) B)
      → ((x : A) → ReportsFailure (k x))
      → ((x : Text) → ReportsFailure (r x))
      → ReportsFailure (λ a. elim (m a) [ ok x v ↦ k x v | err x v ↦ r x v ])
  otherwise-ReportsFailure m k r p q a a' e h = called (m a) h
    where
      called :
          (o : Result (App World) _)
          → (elim o [ ok x v ↦ k x v | err x v ↦ r x v ]) ≡ err e a'
          → (earlier : List Event) × (code : Text) × (message : Text) × (a'.events
              ≡ earlier ++ (error code message ∷ []))
      called (ok x v) f = p x v a' e f
      called (err x v) f = q x v a' e f

  pub choice-ReportsFailure :
      {A : Type 0} (b : Bool) (m k : Action (App World) A)
      → ReportsFailure m
      → ReportsFailure k
      → ReportsFailure (λ a. if b then m a else k a)
  choice-ReportsFailure true m k p q = p
  choice-ReportsFailure false m k p q = q
