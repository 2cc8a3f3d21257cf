-- ===== src/Coordinator/Hoare.antt =====
-- Triples for actions: what holds of the value and the state after a success, and of the error and
-- the state after a failure.
use inx_coordinator.Base.{Error, Result, ok, err, ◌≡◌, refl, sym, subst, ◌∙◌}
use inx_coordinator.Coordinator.Actions.{Action, ◌>>=◌, lift}

-- A run ends in a success with `P` or in a failure with `Q`.
pub data Ends {A W : Type 0} (r : Result A × W) (P : A → W → Type 0) (Q : Error → W → Type 0)
    : Type 0 where
  succeeds : (a : A) (w : W) → r ≡ (ok a, w) → P a w → Ends r P Q
  fails : (e : Error) (w : W) → r ≡ (err e, w) → Q e w → Ends r P Q

abbrev Holds : {A W : Type 0} → (A → W → Type 0) → (Error → W → Type 0) → Result A → W → Type 0
Holds P Q (ok a) w = P a w
Holds P Q (err e) w = Q e w

module _ {A B W : Type 0} where
  pub Ends->>= :
      {Q R : Error → W → Type 0} (m : Action W A) (f : A → Action W B) (w : W) {P : A → W → Type 0}
      {S : B → W → Type 0}
      → Ends (m w) P Q
      → ((e : Error) (w : W) → Q e w → R e w)
      → ((a : A) (w : W) → P a w → Ends (f a w) S R)
      → Ends ((m >>= f) w) S R
  Ends->>= {R = R} m f w {S = S} (succeeds a v q p) g k =
      subst (λ r. Ends (elim r.0 [ ok a ↦ f a r.1 | err e ↦ (err e, r.1) ]) S R) (sym q) (k a v p)
  Ends->>= {R = R} m f w {S = S} (fails e v q p) g k =
      subst (λ r. Ends (elim r.0 [ ok a ↦ f a r.1 | err e ↦ (err e, r.1) ]) S R) (sym q)
        (fails e v refl (g e v p))

  pub lift->>=-Ends :
      {Q : Error → W → Type 0} (g : Error → Error) (r : Result A) (f : A → Action W B) (w : W)
      {P : B → W → Type 0}
      → ((d : Error) → r ≡ err d → Q (g d) w)
      → ((a : A) → r ≡ ok a → Ends (f a w) P Q)
      → Ends ((lift g r >>= f) w) P Q
  lift->>=-Ends g (ok a) f w h k = k a refl
  lift->>=-Ends g (err d) f w h k = fails (g d) w refl (h d refl)

module _ {A W : Type 0} where
  pub Ends-lift :
      (g : Error → Error) (r : Result A) (w : W)
      → Ends (lift g r w) (λ a v. (r ≡ ok a) × (v ≡ w)) (λ e v. ((d : Error) × (e ≡ g d)) × (v ≡ w))
  Ends-lift g (ok a) w = succeeds a w refl (refl, refl)
  Ends-lift g (err e) w = fails (g e) w refl ((e, refl), refl)

  pub Ends-map :
      {r : Result A × W} {P S : A → W → Type 0} {Q R : Error → W → Type 0}
      → Ends r P Q
      → ((a : A) (w : W) → P a w → S a w)
      → ((e : Error) (w : W) → Q e w → R e w)
      → Ends r S R
  Ends-map (succeeds a w q p) f g = succeeds a w q (f a w p)
  Ends-map (fails e w q p) f g = fails e w q (g e w p)

  pub Ends-ok :
      {r : Result A × W} {P : A → W → Type 0} {Q : Error → W → Type 0} {a : A} {w : W}
      → Ends r P Q
      → r ≡ (ok a, w)
      → P a w
  Ends-ok {P = P} {Q = Q} (succeeds a v q p) e = subst (λ r. Holds P Q r.0 r.1) (sym q ∙ e) p
  Ends-ok {P = P} {Q = Q} (fails d v q p) e = subst (λ r. Holds P Q r.0 r.1) (sym q ∙ e) p

  pub Ends-err :
      {r : Result A × W} {P : A → W → Type 0} {Q : Error → W → Type 0} {d : Error} {w : W}
      → Ends r P Q
      → r ≡ (err d, w)
      → Q d w
  Ends-err {P = P} {Q = Q} (succeeds a v q p) e = subst (λ r. Holds P Q r.0 r.1) (sym q ∙ e) p
  Ends-err {P = P} {Q = Q} (fails d v q p) e = subst (λ r. Holds P Q r.0 r.1) (sym q ∙ e) p
