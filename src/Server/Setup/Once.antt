-- ===== src/Server/Setup/Once.antt =====
-- However many goroutines initialise the server, those that take the lock use one router.
use go_amizone.Base.{
  ℕ, suc, true, false, ◌≡◌, refl, ap, subst, Option, none, some, arith, ◌≤◌, Bool-cases, inl, inr,
}
use go_amizone.Server.Setup.{
  ApiServer, InitPhase, checking, routed, attached, serving, Startup, Step, finds_done,
  finds_undone, locks, returns_early, makes_router, makes_http_server, finishes, Reach, begin,
  later,
}

-- The first router, in both fields, once `done` is set; before that none is made.
abbrev Settled : ApiServer → ℕ → Type 0
Settled a made =
    (a.done ≡ false → made ≡ 0)
    × (a.done ≡ true → (a.router ≡ some 0) × (a.http_server ≡ some 0) × (made ≡ 1))

-- By the phase of the goroutine that holds the lock.
abbrev Fits : Option (ℕ × InitPhase) → ApiServer → ℕ → Type 0
Fits none a made = Settled a made
Fits (some (i, checking)) a made = Settled a made
Fits (some (i, routed)) a made = (a.done ≡ false) × (a.router ≡ some 0) × (made ≡ 1)
Fits (some (i, attached)) a made =
    (a.done ≡ false) × (a.router ≡ some 0) × (a.http_server ≡ some 0) × (made ≡ 1)

pub record IsOnce (s : Startup) : Type 0 where
  pub fits : Fits s.holder s.server s.made
  pub used : (i : ℕ) → s.place i ≡ serving → s.server.done ≡ true

held : (s : Startup) (x : Option (ℕ × InitPhase)) → s.holder ≡ x → IsOnce s → Fits x s.server s.made
held s x at o = subst (λ y. Fits y s.server s.made) at o.fits

Step-IsOnce : (s t : Startup) → Step s t → IsOnce s → IsOnce t
Step-IsOnce s t (finds_done i at d) o = record {
  fits = o.fits;
  used = λ j p. ground (arith, o.used j);
}
Step-IsOnce s t (finds_undone i at) o = record {
  fits = o.fits;
  used = λ j p. ground (arith, o.used j);
}
Step-IsOnce s t (locks i at free) o = record {
  fits = held s none free o;
  used = λ j p. ground (arith, o.used j);
}
Step-IsOnce s t (returns_early i at d) o = record {
  fits = held s (some (i, checking)) at o;
  used = λ j p. ground (arith, o.used j);
}
Step-IsOnce s t (makes_router i at d) o = record {
  fits = let kept = (held s (some (i, checking)) at o).0 d in (d, ap some kept, ap suc kept);
  used = λ j p. ground (arith, o.used j);
}
Step-IsOnce s t (makes_http_server i at) o = record {
  fits = let (undone, made, one) = held s (some (i, routed)) at o in (undone, made, made, one);
  used = λ j p. ground (arith, o.used j);
}
Step-IsOnce s t (finishes i at) o = record {
  fits =
      let (undone, made, served, one) = held s (some (i, attached)) at o in
      (λ h. cc, λ h. (made, served, one));
  used = λ j p. refl;
}

Reach-IsOnce : (s : Startup) → Reach s → IsOnce s
Reach-IsOnce s begin = record { fits = (λ h. refl, λ h. cc); used = λ i p. cc }
Reach-IsOnce s (later r t reach step) = Step-IsOnce r t step (Reach-IsOnce r reach)

settled :
    (a : ApiServer) (made : ℕ)
    → Settled a made
    → (made ≤ 1) × (a.done ≡ true → (a.router ≡ some 0) × (a.http_server ≡ some 0))
settled a made (undone, done) = elim (Bool-cases a.done) [
  | inl h ↦ (omega (arith, (done h).2), λ g. ((done g).0, (done g).1))
  | inr h ↦ (omega (arith, undone h), λ g. cc)
]

-- What holds whoever holds the lock.
made-le :
    (x : Option (ℕ × InitPhase)) (a : ApiServer) (made : ℕ)
    → Fits x a made
    → (made ≤ 1) × (a.done ≡ true → (a.router ≡ some 0) × (a.http_server ≡ some 0))
made-le none a made fits = settled a made fits
made-le (some (i, checking)) a made fits = settled a made fits
made-le (some (i, routed)) a made fits = (omega (arith, fits.2), λ h. cc)
made-le (some (i, attached)) a made fits = (omega (arith, fits.3), λ h. cc)

-- However the goroutines that come first interleave, and whatever a read of `done` outside the lock
-- gives, at most one router is made, and a goroutine that went through the lock finds it in the router
-- and in the HTTP server; neither is nil. Nothing is said of a goroutine that saw `done` without the
-- lock.
pub serving-Once :
    (s : Startup)
    → Reach s
    → (s.made ≤ 1)
      × ((i : ℕ)
          → s.place i ≡ serving
          → (s.server.router ≡ some 0) × (s.server.http_server ≡ some 0))
serving-Once s reach =
    let once = Reach-IsOnce s reach in
    let (few, there) = made-le s.holder s.server s.made once.fits in
    (few, λ i p. there (once.used i p))
