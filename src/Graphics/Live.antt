-- ===== src/Graphics/Live.antt =====
-- How much video memory is in use, after `init` has returned and after it has failed.
use ctru_rt.Base.{
  ℕ, ◌+◌, ◌-◌, ◌*◌, ◌≡◌, ◌≢◌, ◌⊎◌, inl, inr, refl, ap, ◌∙◌, arith, ℕ_discrete, Option, none, some,
  Outcome, ok,
}
use ctru_rt.Alloc.{Layout, Allocator, Counts}
use ctru_rt.Gsp.Screen.{Screen, dimensions}
use ctru_rt.Graphics.{
  FramebufferColorFormat, Framebuffer, ScreenConfiguration, framebuffer_size, allocate,
  new_framebuffer, drop_framebuffer, second_framebuffer, new_configuration, drop_configuration,
}
use ctru_rt.Graphics.Bounds.{framebuffer_layout}

module _ {S : Type 0} (a : Allocator S) (live : S → ℕ) (counts : Counts a live) (screen : Screen)
    (format : FramebufferColorFormat) where
  abbrev pub bytes : ℕ
  bytes = framebuffer_size (dimensions screen) format

  -- A framebuffer of that size with its memory.
  abbrev pub Placed : Framebuffer → Type 0
  Placed fb = (fb.size ≡ bytes) × ((p : ℕ) × (fb.buffer ≡ some p))

  abbrev pub Configured : ScreenConfiguration → Type 0
  Configured c = Placed c.fb0 × Placed c.fb1

  -- The call returns something that holds `n` bytes more, or nothing that holds none.
  abbrev pub Takes : {A : Type 0} → (A → Type 0) → ℕ → S → Outcome (Option A) × S → Type 0
  Takes {A} P n s r =
      (r.0 ≡ ok none) × (live r.1 ≡ live s)
      ⊎ ((x : A) × (r.0 ≡ ok (some x)) × P x × (live r.1 ≡ live s + n))

  abbrev layout : Layout
  layout = record { size = bytes; align = 16 }

  new_framebuffer-refused :
      (s : S)
      → (a.alloc layout s).0 ≡ 0
      → new_framebuffer a (dimensions screen) format s ≡ (ok none, (a.alloc layout s).1)
  unfolding new_framebuffer allocate
  new_framebuffer-refused s z =
      let (fits, aligned, _) = framebuffer_layout screen format in ground (arith, fits, aligned, z)

  new_framebuffer-given :
      (s : S)
      → (a.alloc layout s).0 ≢ 0
      → new_framebuffer a (dimensions screen) format s ≡ (
        ok (some (record { buffer = some (a.alloc layout s).0; size = bytes; format = format })),
        (a.alloc layout s).1,
      )
  unfolding new_framebuffer allocate
  new_framebuffer-given s nz =
      let (fits, aligned, _) = framebuffer_layout screen format in ground (arith, fits, aligned, nz)

  new_framebuffer-Takes :
      (s : S) → Takes Placed bytes s (new_framebuffer a (dimensions screen) format s)
  new_framebuffer-Takes s = elim (ℕ_discrete (a.alloc layout s).0 0) [
    | yes z ↦ rw (new_framebuffer-refused s z) (inl (refl, counts.refused layout s z))
    | no nz ↦
        rw (new_framebuffer-given s nz)
          (inr (_, refl, (refl, ((a.alloc layout s).0, refl)), counts.given layout s nz))
  ]

  drop_framebuffer-Placed :
      (fb : Framebuffer) (s : S) (placed : Placed fb)
      → drop_framebuffer a fb s
        ≡ (ok tt, a.dealloc placed.1.0 (record { size = bytes; align = 4 }) s)
  unfolding drop_framebuffer
  drop_framebuffer-Placed fb s (size, (p, at)) =
      rw (at, size, (framebuffer_layout screen format).0) refl

  second_framebuffer-Takes :
      (fb0 : Framebuffer) (s s0 : S)
      → Placed fb0
      → live s ≡ live s0 + bytes
      → Takes Configured (2 * bytes) s0 (second_framebuffer a (dimensions screen) format fb0 s)
  unfolding second_framebuffer
  second_framebuffer-Takes fb0 s s0 placed held =
      go (new_framebuffer a (dimensions screen) format s) refl (new_framebuffer-Takes s)
    where
      go :
          (r : Outcome (Option Framebuffer) × S)
          → new_framebuffer a (dimensions screen) format s ≡ r
          → Takes Placed bytes s r
          → Takes Configured (2 * bytes) s0 (second_framebuffer a (dimensions screen) format fb0 s)
      go (o, v) e (inl (n, same)) =
          let e' : new_framebuffer a (dimensions screen) format s ≡ (ok none, v) =
            e ∙ ap (λ o. (o, v)) n in
          let gone = counts.returned placed.1.0 (record { size = bytes; align = 4 }) v in
          rw (e', drop_framebuffer-Placed fb0 v placed)
            (inl (refl, omega (arith, gone, same, held)))
      go (o, v) e (inr (fb1, n, placed1, more)) =
          let e' : new_framebuffer a (dimensions screen) format s ≡ (ok (some fb1), v) =
            e ∙ ap (λ o. (o, v)) n in
          rw e' (inr (_, refl, (placed, placed1), omega (arith, more, held)))

  pub new_configuration-Takes :
      (s : S) → Takes Configured (2 * bytes) s (new_configuration a (dimensions screen) format s)
  unfolding new_configuration
  new_configuration-Takes s =
      go (new_framebuffer a (dimensions screen) format s) refl (new_framebuffer-Takes s)
    where
      go :
          (r : Outcome (Option Framebuffer) × S)
          → new_framebuffer a (dimensions screen) format s ≡ r
          → Takes Placed bytes s r
          → Takes Configured (2 * bytes) s (new_configuration a (dimensions screen) format s)
      go (o, v) e (inl (n, same)) =
          let e' : new_framebuffer a (dimensions screen) format s ≡ (ok none, v) =
            e ∙ ap (λ o. (o, v)) n in
          rw e' (inl (refl, same))
      go (o, v) e (inr (fb0, n, placed, more)) =
          let e' : new_framebuffer a (dimensions screen) format s ≡ (ok (some fb0), v) =
            e ∙ ap (λ o. (o, v)) n in
          rw e' (second_framebuffer-Takes fb0 v s placed more)

  pub drop_configuration-live :
      (c : ScreenConfiguration) (s : S)
      → Configured c
      → (s' : S) × (drop_configuration a c s ≡ (ok tt, s')) × (live s' ≡ live s - 2 * bytes)
  unfolding drop_configuration
  drop_configuration-live c s (placed0, placed1) =
      let l : Layout = record { size = bytes; align = 4 } in
      let s1 = a.dealloc placed0.1.0 l s in
      (
        a.dealloc placed1.1.0 l s1,
        rw (drop_framebuffer-Placed c.fb0 s placed0, drop_framebuffer-Placed c.fb1 s1 placed1) refl,
        omega (arith, counts.returned placed1.1.0 l s1, counts.returned placed0.1.0 l s),
      )
