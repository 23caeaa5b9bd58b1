-- ===== src/Machine/Returns.antt =====
-- What holds of every value that a call returns.
use ctru_rt.Base.{ok, ◌≡◌, sym, arith}
use ctru_rt.Machine.{Sys, ◌>>=◌, pure, on_error, bind-ok, on_error-ok}

module _ {W A : Type 0} (P : A → Type 0) where
  abbrev pub Returns : Sys W A → Type 0
  Returns call = (w w' : W) (a : A) → call w ≡ (ok a, w') → P a

  pub bind-Returns :
      {B : Type 0} (call : Sys W B) (f : B → Sys W A)
      → ((b : B) → Returns (f b))
      → Returns (call >>= f)
  bind-Returns call f h w w' a e = let (b, v, first, rest) = bind-ok call f w e in h b v w' a rest

  pub pure-Returns : (a : A) → P a → Returns (pure a)
  pure-Returns a p w w' b e = let same : a ≡ b = ground (arith, e) in rw (sym same) p

  pub on_error-Returns :
      (drop : Sys W (Unit {0})) (call : Sys W A) → Returns call → Returns (on_error drop call)
  on_error-Returns drop call h w w' a e = h w w' a (on_error-ok drop call w e)
