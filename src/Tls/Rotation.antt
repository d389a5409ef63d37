-- ===== src/Tls/Rotation.antt =====
-- The rotation of profiles, and which options a client keeps.
use go_amizone.Base.{
  ℕ, zero, suc, ◌+◌, ◌*◌, ◌++◌, ◌%◌, ◌<◌, ◌≤◌, ◌≡◌, refl, ap, ◌∙◌, length-append, Bool, List, [],
  ◌∷◌, Option, some, Text, Result, ok, length, map, arith,
}
use native.Mathlib.Nat.{mod-lt, mod-eq_of_lt, mul-add-mod_self_right}
use go_amizone.Tls.{
  Profiles, ProfileRotationMode, profile_rotation_off, profile_rotation_random,
  profile_rotation_sequential, unnamed, ClientOptions, index, profile_list, select_profile,
  int_limit, index_modulo, counted, new_client_for, build_client, default_profiles,
}

index_lt : {A : Type 0} (xs : List A) (i : ℕ) → i < length xs → (x : A) × (index xs i ≡ ok x)
index_lt [] i h = ground (arith, h)
index_lt (x ∷ xs) zero h = (x, refl)
index_lt (x ∷ xs) (suc i) h = index_lt xs i (omega (arith, h))

index-append :
    {A : Type 0} (before after : List A) (x : A)
    → index (before ++ (x ∷ after)) (length before) ≡ ok x
index-append [] after x = refl
index-append (y ∷ before) after x = index-append before after x

append-snoc :
    {A : Type 0} (xs : List A) (x : A) (ys : List A) → xs ++ (x ∷ ys) ≡ (xs ++ (x ∷ [])) ++ ys
append-snoc [] x ys = refl
append-snoc (y ∷ xs) x ys = ap (λ l. y ∷ l) (append-snoc xs x ys)

index_modulo_small :
    {A : Type 0} (xs : List A) (i : ℕ)
    → i < int_limit
    → index_modulo xs i ≡ index xs (i % length xs)
unfolding index_modulo
index_modulo_small xs i small = ground (arith, small)

counted_small : {A : Type 0} (x : A) (i : ℕ) → i < int_limit → counted (ok x) i ≡ suc i
unfolding counted
counted_small x i small = mod-eq_of_lt (omega (arith, small))

module _ (lib : Profiles) (J : Type 0) where
  open lib use {ClientProfile}

  -- The profiles that `n` clients in a row choose.
  unfoldable pub selected : ClientOptions ClientProfile J → ℕ → ℕ → List (Result ClientProfile)
  unfolding select_profile
  selected opts zero current = []
  selected opts (suc n) current =
      let (profile, next) = select_profile lib J opts 0 current in profile ∷ selected opts n next

  profile_list-nonempty :
      (opts : ClientOptions ClientProfile J) → 0 < length (profile_list lib J opts)
  profile_list-nonempty opts = pick opts.custom_profiles
    where
      pick :
          (ps : List ClientProfile)
          → 0
            < length (elim ps as (λ p. List ClientProfile) [
              | [] ↦ default_profiles lib J
              | p ∷ ps ↦ p ∷ ps
            ])
      pick [] = omega arith
      pick (p ∷ ps) = omega arith

  -- A profile is chosen: no index is out of range, whatever the mode and the options, as long as the
  -- index of the rotation has not come to 2 ^ 63.
  pub select_profile-total :
      (opts : ClientOptions ClientProfile J) (draw current : ℕ)
      → draw < length (profile_list lib J opts)
      → current < int_limit
      → (p : ClientProfile) × ((select_profile lib J opts draw current).0 ≡ ok p)
  unfolding select_profile
  select_profile-total opts draw current h small = by_mode opts.profile_rotation_mode
    where
      l : List ClientProfile
      l = profile_list lib J opts

      by_mode :
          (m : ProfileRotationMode)
          → (p : ClientProfile) × ((select_profile lib J
                (record opts { profile_rotation_mode = m })
                draw
                current).0
              ≡ ok p)
      by_mode profile_rotation_off = index_lt l 0 (profile_list-nonempty opts)
      by_mode profile_rotation_random = index_lt l draw h
      by_mode profile_rotation_sequential =
          let (p, found) =
            index_lt l (current % length l) (mod-lt current (profile_list-nonempty opts)) in
          (p, index_modulo_small l current small ∙ found)
      by_mode (unnamed m) = index_lt l 0 (profile_list-nonempty opts)

  -- In the sequential mode the position before `p` chooses `p`.
  selects :
      (opts : ClientOptions ClientProfile J) (k : ℕ) (before after : List ClientProfile)
      (p : ClientProfile)
      → opts.profile_rotation_mode ≡ profile_rotation_sequential
      → profile_list lib J opts ≡ before ++ (p ∷ after)
      → suc k * length (profile_list lib J opts) ≤ int_limit
      → select_profile lib J opts 0 (k * length (profile_list lib J opts) + length before)
        ≡ (ok p, suc (k * length (profile_list lib J opts) + length before))
  unfolding select_profile
  selects opts k before after p mode split small =
      let l = profile_list lib J opts in
      let shorter : length before < length l =
        omega (arith, ap length split, length-append before (p ∷ after)) in
      let place : (k * length l + length before) % length l ≡ length before =
        mul-add-mod_self_right k (length l) (length before) ∙ mod-eq_of_lt shorter in
      let found : index l ((k * length l + length before) % length l) ≡ ok p =
        ap (index l) place
        ∙ ap (λ xs. index xs (length before)) split
        ∙ index-append before after p in
      let fits : k * length l + length before < int_limit = omega (arith, small, shorter) in
      let chosen : index_modulo l (k * length l + length before) ≡ ok p =
        index_modulo_small l (k * length l + length before) fits ∙ found in
      let next : counted (index_modulo l (k * length l + length before))
            (k * length l + length before)
          ≡ suc (k * length l + length before) =
        ap (λ c. counted c (k * length l + length before)) chosen
        ∙ counted_small p (k * length l + length before) fits in
      rw mode (λ i. (chosen i, next i))

  rotates :
      (opts : ClientOptions ClientProfile J) (k : ℕ) (before after : List ClientProfile)
      → opts.profile_rotation_mode ≡ profile_rotation_sequential
      → profile_list lib J opts ≡ before ++ after
      → suc k * length (profile_list lib J opts) ≤ int_limit
      → selected opts (length after) (k * length (profile_list lib J opts) + length before)
        ≡ map ok after
  unfolding selected
  rotates opts k before [] mode split small = refl
  rotates opts k before (p ∷ after) mode split small =
      let l = profile_list lib J opts in
      let moved : suc (k * length l + length before) ≡ k * length l + length (before ++ (p ∷ [])) =
        omega (arith, length-append before (p ∷ [])) in
      rw (selects opts k before after p mode split small) (
        ap (λ ps. ok p ∷ ps)
          (ap (selected opts (length after)) moved
            ∙ rotates opts k (before ++ (p ∷ [])) after mode (split ∙ append-snoc before p after)
                small))

  -- In the sequential mode, from a multiple of the list's length on, the next clients get every
  -- profile of the list once, in its order, as long as the index stays within 2 ^ 63.
  pub selected-rotates :
      (opts : ClientOptions ClientProfile J) (k : ℕ)
      → opts.profile_rotation_mode ≡ profile_rotation_sequential
      → suc k * length (profile_list lib J opts) ≤ int_limit
      → selected opts (length (profile_list lib J opts)) (k * length (profile_list lib J opts))
        ≡ map ok (profile_list lib J opts)
  selected-rotates opts k mode small =
      ap (selected opts (length (profile_list lib J opts))) (omega arith)
      ∙ rotates opts k [] (profile_list lib J opts) mode refl small

  -- Where no proxy is set, the jar of the options is not used: the client is the same without it.
  pub cookie_jar_ignored :
      (opts : ClientOptions ClientProfile J) (jar : J) (new_jar : Result J)
      (built : ClientProfile → ℕ → Bool → Option Text) (draw current : ℕ)
      → new_client_for lib J opts
          (record { http_proxy = []; https_proxy = [] })
          new_jar
          built
          draw
          current
        ≡ new_client_for lib J
            (record opts { cookie_jar = some jar })
            (record { http_proxy = []; https_proxy = [] })
            new_jar
            built
            draw
            current
  unfolding new_client_for select_profile build_client
  cookie_jar_ignored opts jar new_jar built draw current = refl
