-- ===== src/Coordinator/Actions.antt =====
-- Actions on a state: they return an error or a value, and keep what they have changed before an
-- error.
use inx_coordinator.Base.{Bool, true, false, ◌++◌, [], ◌∷◌, Error, Result, ok, err}
use inx_coordinator.Coordinator.Types.{World, Effect}

abbrev pub Action : Type 0 → Type 0 → Type 0
Action W A = W → Result A × W

infixl 5 ◌>>=◌ ◌>>◌
abbrev pub ◌>>=◌ : {W A B : Type 0} → Action W A → (A → Action W B) → Action W B
◌>>=◌ m f w = elim (m w).0 [ ok a ↦ f a (m w).1 | err e ↦ (err e, (m w).1) ]

abbrev pub ◌>>◌ : {W B : Type 0} → Action W (Unit {0}) → Action W B → Action W B
m >> k = m >>= λ _. k

abbrev pub return : {W A : Type 0} → A → Action W A
return a w = (ok a, w)

abbrev pub get : {W : Type 0} → Action W W
get w = (ok w, w)

-- A call that returns a value or an error and changes nothing; `f` wraps the error.
abbrev pub lift : {W A : Type 0} → (Error → Error) → Result A → Action W A
lift f (ok a) w = (ok a, w)
lift f (err e) w = (err (f e), w)

-- The action goes on if the test holds, and fails with the error otherwise.
abbrev pub assert : {W : Type 0} → Bool → Error → Action W (Unit {0})
assert true e w = (ok tt, w)
assert false e w = (err e, w)

abbrev pub emit : {F : Type 0} → Effect F → Action (World F) (Unit {0})
emit x w = (ok tt, record w { effects = w.effects ++ (x ∷ []) })
