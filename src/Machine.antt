-- ===== src/Machine.antt =====
-- What the library runs on and does not implement: the supervisor calls of the kernel and the
-- memory of the command buffer, as a parameter. `W` is the state of everything outside.
pub mod Returns
use ctru_rt.Base.{ℕ, List, Outcome, ok, err, panic, ◌≡◌, refl, arith}

-- What a call puts in an argument register: nothing, a word, or a pointer to words.
pub data Register : Type 0 where
  unused : Register
  word : ℕ → Register
  pointer : List ℕ → Register

pub record Machine (W : Type 0) : Type 0 where
  -- `svc N`: the argument registers from r0 on, and the registers after the call.
  pub svc : ℕ → List Register → W → (ℕ → ℕ) × W
  -- The memory behind a pointer that the last call was given.
  pub read_pointer : W → List ℕ
  -- The words from the start of the thread's command buffer on.
  pub command_buffer : W → List ℕ
  pub store_command_buffer : List ℕ → W → W

-- Code that calls the kernel: it returns, fails with an `ErrorCode` or panics.
abbrev pub Sys : Type 0 → Type 0 → Type 0
Sys W A = W → Outcome A × W

abbrev pub continue : {W A B : Type 0} → Outcome A × W → (A → Sys W B) → Outcome B × W
continue (ok a, w) f = f a w
continue (err e, w) f = (err e, w)
continue (panic, w) f = (panic, w)

infixl 5 ◌>>=◌ ◌>>◌
abbrev pub ◌>>=◌ : {W A B : Type 0} → Sys W A → (A → Sys W B) → Sys W B
◌>>=◌ m f w = continue (m w) f

abbrev pub ◌>>◌ : {W B : Type 0} → Sys W (Unit {0}) → Sys W B → Sys W B
m >> k = m >>= λ _. k

abbrev pub pure : {W A : Type 0} → A → Sys W A
pure a w = (ok a, w)

-- A computation that does not touch the world.
abbrev pub lift : {W A : Type 0} → Outcome A → Sys W A
lift r w = (r, w)

-- `let _ = m;`: the result is dropped, a panic is not.
abbrev pub ignore : {W A : Type 0} → Sys W A → Sys W (Unit {0})
ignore m w =
    let (r, w') = m w in elim r [ ok _ ↦ (ok tt, w') | err _ ↦ (ok tt, w') | panic ↦ (panic, w') ]

-- `.expect(…)` and `.unwrap()` on an error panic.
abbrev pub expect : {W A : Type 0} → Sys W A → Sys W A
expect m w =
    let (r, w') = m w in elim r [ ok a ↦ (ok a, w') | err _ ↦ (panic, w') | panic ↦ (panic, w') ]

-- `.or_else(|_| …)`
abbrev pub or_else : {W A : Type 0} → Sys W A → Sys W A → Sys W A
or_else first second w =
    let (r, w') = first w in elim r [ ok a ↦ (ok a, w') | err e ↦ second w' | panic ↦ (panic, w') ]

-- The destructor that runs where a `?` leaves early, and at the end of a scope.
abbrev pub dropping : {W A : Type 0} → Sys W (Unit {0}) → Outcome A × W → Outcome A × W
dropping drop (ok a, w) = (ok a, w)
dropping drop (err e, w) = (err e, (drop w).1)
dropping drop (panic, w) = (panic, w)

abbrev pub on_error : {W A : Type 0} → Sys W (Unit {0}) → Sys W A → Sys W A
on_error drop m w = dropping drop (m w)

abbrev pub finally : {W A : Type 0} → Sys W (Unit {0}) → Sys W A → Sys W A
finally drop m w =
    let (r, w') = m w in
    elim r [ ok a ↦ (ok a, (drop w').1) | err e ↦ (err e, (drop w').1) | panic ↦ (panic, w') ]

abbrev pub fails : {W A : Type 0} → ℕ → Sys W A
fails e w = (err e, w)

abbrev pub panics : {W A : Type 0} → Sys W A
panics w = (panic, w)

-- Code over the outside world, beside state of the library itself, and a change of that state.
abbrev pub outside : {W S A : Type 0} → Sys W A → Sys (W × S) A
outside call (w, s) = let (r, w') = call w in (r, (w', s))

abbrev pub modify : {W S : Type 0} → (S → S) → Sys (W × S) (Unit {0})
modify f (w, s) = (ok tt, (w, f s))

abbrev pub get : {W S : Type 0} → Sys (W × S) S
get (w, s) = (ok s, (w, s))

-- Where a chain returns, its first part has returned.
pub bind-ok :
    {W A B : Type 0} (m : Sys W A) (f : A → Sys W B) (w : W) {b : B} {w'' : W}
    → (m >>= f) w ≡ (ok b, w'')
    → (a : A) × (w' : W) × (m w ≡ (ok a, w')) × (f a w' ≡ (ok b, w''))
bind-ok {W} {A} {B} m f w {b} {w''} = go (m w) refl
  where
    go :
        (r : Outcome A × W)
        → m w ≡ r
        → continue r f ≡ (ok b, w'')
        → (a : A) × (w' : W) × (m w ≡ (ok a, w')) × (f a w' ≡ (ok b, w''))
    go (ok a, w') e h = (a, w', e, h)
    go (err x, w') e h = absurd (ground arith)
    go (panic, w') e h = absurd (ground arith)

pub on_error-ok :
    {W A : Type 0} (drop : Sys W (Unit {0})) (m : Sys W A) (w : W) {a : A} {w' : W}
    → on_error drop m w ≡ (ok a, w')
    → m w ≡ (ok a, w')
on_error-ok {W} {A} drop m w {a} {w'} = go (m w)
  where
    go : (r : Outcome A × W) → dropping drop r ≡ (ok a, w') → r ≡ (ok a, w')
    go (ok b, u) h = h
    go (err e, u) h = absurd (ground arith)
    go (panic, u) h = absurd (ground arith)

-- Every outcome leads to a state with the property.
abbrev pub Keeps : {W A : Type 0} → (W → Type 0) → Sys W A → Type 0
Keeps {W} P m = (w : W) → P w → P (m w).1

pub bind-Keeps :
    {W A B : Type 0} (P : W → Type 0) (m : Sys W A) (f : A → Sys W B)
    → Keeps P m
    → ((a : A) → Keeps P (f a))
    → Keeps P (m >>= f)
bind-Keeps {W} {A} {B} P m f first next w p = go (m w) (first w p)
  where
    go : (r : Outcome A × W) → P r.1 → P (continue r f).1
    go (ok a, w') q = next a w' q
    go (err x, w') q = q
    go (panic, w') q = q
