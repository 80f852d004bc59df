-- ===== src/Control/World/Sends.antt =====
-- Handlers of control/src that send at most one request.
use quiltc.Prelude.{
  ◌≡◌, refl, ◌∙◌, ap, Bool, true, false, [], ◌∷◌, ◌++◌, Res, ok, err, ◌⊎◌, inl, inr, if◌then◌else◌,
}
use quiltc.Control.World.{M, World, Request, resume, attempt, send, ◌>>=◌}
use quiltc.Control.World.Silent.{Silent}

-- A handler that sends at most one request, of which `Q` holds.
pub record Sends {A : Type 0} (Q : Request → Type 0) (m : M A) : Type 0 where
  pub at :
      (w : World)
      → ((m w).1.sent ≡ w.sent) ⊎ ((r : Request) × Q r × ((m w).1.sent ≡ w.sent ++ r ∷ []))

module _ (Q : Request → Type 0) {A : Type 0} where
  pub Sends-Silent : (m : M A) → Silent m → Sends Q m
  Sends-Silent m k = record { at = λ w. inl (k.at w) }

  pub Sends-if : (b : Bool) (m n : M A) → Sends Q m → Sends Q n → Sends Q (if b then m else n)
  Sends-if true m n k l = k
  Sends-if false m n k l = l

module _ (Q : Request → Type 0) {A B : Type 0} where
  resume-Silent :
      (f : A → M B)
      → ((a : A) → Silent (f a))
      → (r : Res A) (w : World) → (resume r w f).1.sent ≡ w.sent
  resume-Silent f l (ok a) w = (l a).at w
  resume-Silent f l (err e) w = refl

  -- A silent handler after one that sends
  pub Sends-then :
      (m : M A) (f : A → M B) → Sends Q m → ((a : A) → Silent (f a)) → Sends Q (m >>= f)
  unfolding ◌>>=◌
  Sends-then m f k l = record { at = λ w. go w (k.at w) }
    where
      go :
          (w : World)
          → ((m w).1.sent ≡ w.sent) ⊎ ((r : Request) × Q r × ((m w).1.sent ≡ w.sent ++ r ∷ []))
          → ((resume (m w).0 (m w).1 f).1.sent ≡ w.sent)
            ⊎ ((r : Request) × Q r × ((resume (m w).0 (m w).1 f).1.sent ≡ w.sent ++ r ∷ []))
      go w (inl e) = inl (resume-Silent f l (m w).0 (m w).1 ∙ e)
      go w (inr (r, q, e)) = inr (r, q, resume-Silent f l (m w).0 (m w).1 ∙ e)

  -- One that sends after the clock or the data base is read
  pub Sends-read :
      (m : M A) (f : A → M B) → Silent m → ((a : A) → Sends Q (f a)) → Sends Q (m >>= f)
  unfolding ◌>>=◌
  Sends-read m f k l = record { at = λ w. go w (m w).0 (m w).1 (k.at w) }
    where
      go :
          (w : World) (r : Res A) (w' : World)
          → w'.sent ≡ w.sent
          → ((resume r w' f).1.sent ≡ w.sent)
            ⊎ ((q : Request) × Q q × ((resume r w' f).1.sent ≡ w.sent ++ q ∷ []))
      go w (err x) w' e = inl e
      go w (ok a) w' e = moved ((l a).at w')
        where
          moved :
              ((f a w').1.sent ≡ w'.sent)
                ⊎ ((q : Request) × Q q × ((f a w').1.sent ≡ w'.sent ++ q ∷ []))
              → ((f a w').1.sent ≡ w.sent)
                ⊎ ((q : Request) × Q q × ((f a w').1.sent ≡ w.sent ++ q ∷ []))
          moved (inl h) = inl (h ∙ e)
          moved (inr (q, holds, h)) = inr (q, holds, h ∙ ap (λ s. s ++ q ∷ []) e)

module _ (Q : Request → Type 0) where
  pub Sends-send : (r : Request) → Q r → Sends Q (send r)
  unfolding send
  Sends-send r q = record { at = λ w. inr (r, q, refl) }

  pub Sends-attempt : {A : Type 0} (m : M A) → Sends Q m → Sends Q (attempt m)
  unfolding attempt
  Sends-attempt m k = record { at = k.at }
